-- ===== src/Examples/Streaming.antt =====
-- The theorems on the broadcaster at concrete inputs.
use unleash_edge.Prelude.{
  ◌≡◌, refl, String, true, false, none, some, List, [], ◌∷◌, ◌++◌, Memᴰ, map, string_eq, filter,
}
use unleash_edge.Dict
use unleash_edge.Dict.{Dict, contains}
use unleash_edge.Error.{Result, ok}
use unleash_edge.Features.{ClientFeatures}
use unleash_edge.FeatureCache
use unleash_edge.FeatureCache.{FeatureCache, UpdateType, send_full_update}
use unleash_edge.FeatureCache.Notify
use unleash_edge.FeatureCache.Notify.{CacheOp}
use unleash_edge.Broadcaster.{StreamingQuery, ClientData, Event, Broadcaster, broadcast, on_update}
use unleash_edge.Broadcaster.Refined.{Operation, System, run, spec_run, view, bag, run_refines}
use unleash_edge.Broadcaster.Delivered.{broadcast_iff, change_reaches}
use unleash_edge.Examples.Samples.{sample_types, sample_engine, features_of, toggle, banner}

-- the JSON text of features, with only their number of toggles
abbrev encode : ClientFeatures sample_types → Result String
encode f = elim f.features [ [] ↦ ok "[]" | _ ∷ _ ↦ ok "[…]" ]

abbrev query : StreamingQuery
query = record { projects = "a" ∷ []; name_prefix = none; environment = "development" }

abbrev cache : FeatureCache sample_types
cache = record { features = ("development", features_of (toggle ∷ banner ∷ [])) ∷ []; sent = [] }

abbrev client : ClientData
client = record { token = "a:development.2222222"; sender = 4 }

abbrev clients : Broadcaster
clients = (query, client ∷ []) ∷ []

abbrev operations : List (Operation sample_types encode)
operations =
    Operation.connects query "a:development.2222222" 4
    ∷ Operation.updates (UpdateType.full "development") (λ _. true)
    ∷ Operation.beats (λ _. false)
    ∷ []

abbrev start : System sample_types encode
start = record { features_cache = cache; active_connections = [] }

run_refines_example :
    let (s', outs) = run sample_types encode operations start in
    (view sample_types encode s', map bag outs)
    ≡ spec_run sample_types encode operations (view sample_types encode start)
run_refines_example = run_refines sample_types encode operations start

broadcast_iff_example :
    Memᴰ
      (client, Event.updated "[…]")
      (broadcast sample_types encode (some "development") (λ _. true) cache clients)
unfolding Dict.get filter contains
broadcast_iff_example =
    (broadcast_iff sample_types encode (some "development") (λ _. true) cache clients
        (client, Event.updated "[…]")).1
      (query, "[…]", Memᴰ.head refl, refl, refl, refl, refl)

change_reaches_example :
    (key : UpdateType) × ((Notify.run sample_types sample_engine
        (CacheOp.insert_features "development" (features_of (toggle ∷ [])))
        cache).sent
      ≡ [] ++ key ∷ [])
    × Memᴰ
        (client, Event.updated "[…]")
        (on_update sample_types encode key
          (λ _. true)
          (Notify.run sample_types sample_engine
            (CacheOp.insert_features "development" (features_of (toggle ∷ [])))
            cache)
          clients)
unfolding Dict.get filter contains Notify.run FeatureCache.insert send_full_update Dict.insert
    Dict.upsert
change_reaches_example =
    change_reaches sample_types encode sample_engine
      (CacheOp.insert_features "development" (features_of (toggle ∷ []))) cache (λ _. true) clients
      query client "[…]" (Memᴰ.head refl) refl refl refl
