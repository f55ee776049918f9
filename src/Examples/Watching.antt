-- ===== src/Examples/Watching.antt =====
-- The theorems on the backstage and the streams at concrete inputs.

use unleash_edge.Prelude.{
  ◌≡◌, ◌↔◌, ◌⊎◌, refl, ℕ, String, true, false, none, some, List, [], ◌∷◌, ◌++◌, Memᴰ, is_empty,
  ◌==◌, if◌then◌else◌, string_eq, filter, filter_map, take,
}
use Prim.Native.String.{◌++◌ as append_text}
use unleash_edge.Urls.{UrlCrate}
use unleash_edge.Dict
use unleash_edge.Dict.{Dict, contains}
use unleash_edge.Text.{trim, split, contains_char}
use unleash_edge.Error.{Result, ok}
use unleash_edge.Types.{EdgeToken}
use unleash_edge.Tokens.{clean_hash, from_str, from_trimmed_str, cache_key}
use unleash_edge.Features.{ClientFeatures}
use unleash_edge.FeatureCache
use unleash_edge.FeatureCache.{FeatureCache, UpdateType, send_full_update}
use unleash_edge.TokenValidator.{TokenValidator, register_tokens, get_unknown_and_known_tokens}
use unleash_edge.Refresher.State.{Refresher}
use unleash_edge.Refresher.Fetch.{handle_client_features_updated, update_last_refresh}
use unleash_edge.Refresher.Engines.{InSync}
use unleash_edge.Refresher.Streaming.{
  Sse, Next, stream_turn, stream_turns, handle_sse, populate, Merged, stream_turns-InSync,
  streamed_reaches,
}
use unleash_edge.Broadcaster.{StreamingQuery, ClientData, Event, Broadcaster, on_update}
use unleash_edge.Backstage.{get_token_info, ready, health, EdgeStatus}
use unleash_edge.Backstage.Checkers.{Outcome, Response, check_health, check_ready}
use unleash_edge.Backstage.Ready.{served, checks_iff}
use unleash_edge.Backstage.Hidden.{registered_unhidden}
use unleash_edge.Examples.Samples.{
  sample_types, sample_engine, features_of, toggle, project_token, project_refresh,
}

abbrev empty : Refresher sample_types sample_engine
empty = record {
  tokens_to_refresh = ("a:development.2222222", project_refresh) ∷ [];
  features_cache = record { features = []; sent = [] };
  engine_cache = [];
  refresh_interval = 1000;
  strict = false;
  streaming = true;
  delta = false;
}

abbrev turns : List (ℕ × (EdgeToken × Next sample_types))
turns =
    (1, (project_token, Next.item Sse.connected))
    ∷ (2, (project_token, Next.item (Sse.unleash_connected (some (features_of (toggle ∷ []))))))
    ∷ (3, (project_token, Next.failed))
    ∷ []

stream_turns-InSync_example :
    InSync sample_types sample_engine (stream_turns sample_types sample_engine turns empty)
unfolding FeatureCache.get Dict.get
stream_turns-InSync_example = stream_turns-InSync sample_types sample_engine turns empty (λ k. refl)

abbrev encode : ClientFeatures sample_types → Result String
encode f = elim f.features [ [] ↦ ok "[]" | _ ∷ _ ↦ ok "[…]" ]

abbrev query : StreamingQuery
query = record { projects = "a" ∷ []; name_prefix = none; environment = "development" }

abbrev client : ClientData
client = record { token = "a:development.2222222"; sender = 4 }

abbrev clients : Broadcaster
clients = (query, client ∷ []) ∷ []

abbrev streamed : FeatureCache sample_types
streamed =
    (stream_turn sample_types sample_engine 5 project_token
      (Next.item (Sse.unleash_updated (some (features_of (toggle ∷ []))))) empty).features_cache

streamed_reaches_example :
    Merged sample_types sample_engine project_token none
      (features_of (toggle ∷ []))
      (features_of (toggle ∷ []))
    × (key : UpdateType) × (streamed.sent ≡ [] ++ key ∷ [])
    × Memᴰ
        (client, Event.updated "[…]")
        (on_update sample_types encode key (λ _. true) streamed clients)
unfolding cache_key stream_turn Dict.get handle_sse populate handle_client_features_updated
    FeatureCache.modify send_full_update Dict.upsert update_last_refresh filter contains
streamed_reaches_example =
    streamed_reaches sample_types sample_engine encode 5 project_token (features_of (toggle ∷ []))
      (features_of (toggle ∷ [])) empty (λ _. true) clients query client "[…]" (Memᴰ.head refl) refl
      refl refl refl

abbrev short : EdgeToken
short = record project_token { token = "a:development.1" }

abbrev no_validator : TokenValidator
no_validator = record { token_cache = []; persistence = false; saved = [] }

abbrev knows_none : List String → Result (List EdgeToken)
knows_none _ = ok []

registered_unhidden_example :
    get_token_info sample_types sample_engine empty
      (register_tokens (λ a b. a) knows_none ("a:development.1" ∷ []) no_validator).0
    ≡ none
unfolding from_str from_trimmed_str get_unknown_and_known_tokens split trim contains_char take
    filter_map filter clean_hash Dict.get
registered_unhidden_example =
    registered_unhidden sample_types sample_engine (λ a b. a) knows_none ("a:development.1" ∷ [])
      no_validator empty [] _ refl (Memᴰ.head refl) ("a:development", "1", [], refl, refl)

abbrev show_status : EdgeStatus → String
show_status _ = "EdgeStatus"

abbrev tokens : Dict String EdgeToken
tokens = ("a:development.2222222", project_token) ∷ []

-- URLs as texts
abbrev text_urls : UrlCrate
text_urls = record {
  Url = String;
  parse = some;
  push = λ s url. some (append_text url (append_text "/" s));
  pop_if_empty = some;
  to_text = λ url. url;
}

abbrev edge : String → Outcome Response
edge url =
    if url == "http://edge/internal-backstage/health"
    then Outcome.success (served (λ _. "503") "EOF" health)
    else if url == "http://edge/internal-backstage/ready"
    then Outcome.success
        (served (λ _. "503") "EOF" (ready sample_types sample_engine tokens empty.features_cache))
    else Outcome.failure "not found"

checks_iff_example :
    (check_health text_urls (λ p. p) show_status (ok none) "http://edge" edge ≡ some (ok tt))
    × ((check_ready text_urls (λ p. p) show_status (ok none) "http://edge" edge ≡ some (ok tt)) ↔ (
        (is_empty tokens ≡ true)
        ⊎ (FeatureCache.is_empty sample_types empty.features_cache ≡ false)))
checks_iff_example =
    checks_iff sample_types sample_engine text_urls (λ p. p) show_status (λ _. "503") "EOF"
      "http://edge" tokens empty.features_cache "http://edge" "http://edge/internal-backstage"
      "http://edge/internal-backstage/health" "http://edge/internal-backstage/ready" edge refl refl
      refl refl refl refl
