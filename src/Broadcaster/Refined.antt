-- ===== src/Broadcaster/Refined.antt =====
-- What the broadcaster promises, with neither groups nor an order: an audience of subscribers, of whom
-- each gets the events of its own query. The broadcaster refines it.
use mathlib.Core.List.{Permᴰ}
use mathlib.Core.Quot
use mathlib.Core.Quot.{Quot, Quot-set}
use unleash_edge.Prelude.{
  ◌≡◌, refl, sym, ◌∙◌, ap, if◌then◌else◌, String, Bool, Option, none, some, List, [], ◌∷◌, map,
  arith, inl, inr,
}
use unleash_edge.Error.{Result, Result-cases, ok, err, ◌>>=◌}
use unleash_edge.Features.{UnleashTypes, ClientFeatures}
use unleash_edge.FeatureCache.{FeatureCache, UpdateType}
use unleash_edge.Broadcaster.{
  StreamingQuery, streaming_query_eq, ClientData, Channel, Event, Broadcaster, Deliveries,
  heartbeat, resolve_features, create_connection, broadcast, on_update, group_events,
}
use unleash_edge.Broadcaster.Served.{text_for, text_for_lem}
use unleash_edge.Broadcaster.Subscribers.{
  Subscriber, subscribers, join-perm, flat_map, flat_map-perm, keep, filter-flat_map,
  subscribers-heartbeat, events_for, about, client_events_lem,
}

-- a list without its order
abbrev pub Bag : Type 0 → Type 0
Bag A = Quot (λ (xs ys : List A). Permᴰ xs ys)

abbrev pub bag : {A : Type 0} → List A → Bag A
bag l = Quot.mk l

abbrev pub add : {A : Type 0} → A → Bag A → Bag A
add x = Quot.lift Quot-set (λ xs. Quot.mk (x ∷ xs)) (λ xs ys p. Quot.sound (Permᴰ.cons refl p))

abbrev pub collect : {A B : Type 0} → (A → List B) → Bag A → Bag B
collect f =
    Quot.lift Quot-set (λ xs. Quot.mk (flat_map f xs)) (λ xs ys p. Quot.sound (flat_map-perm f p))

pair_path : {A B : Type 0} {a b : A} {c d : B} → a ≡ b → c ≡ d → ◌≡◌ {A = A × B} (a, c) (b, d)
pair_path p q = ground (arith, p, q)

-- the environment that an update is about, if it is about one
abbrev pub environment_of : UpdateType → Option String
environment_of (UpdateType.full env) = some env
environment_of (UpdateType.update env) = some env
environment_of UpdateType.deletion = none

module _ (u : UnleashTypes) (encode : ClientFeatures u → Result String) where
  -- What happens, in any order: a client connects, a heartbeat, an update of the cache is received, and
  -- the cache becomes another one.
  pub data Operation : Type 0 where
    connects : StreamingQuery → String → Channel → Operation
    beats : (Channel → Bool) → Operation
    updates : UpdateType → (Channel → Bool) → Operation
    caches : FeatureCache u → Operation

  pub record System : Type 0 where
    pub features_cache : FeatureCache u
    pub active_connections : Broadcaster

  abbrev pub sent : Result (ClientData × Event) → Deliveries
  sent (ok d) = d ∷ []
  sent (err x) = []

  pub step : Operation → System → System × Deliveries
  step (Operation.connects query token tx) s =
      let (after, answer) =
        create_connection u encode query token tx s.features_cache s.active_connections in
      (record s { active_connections = after }, sent answer)
  step (Operation.beats live) s =
      (record s { active_connections = (heartbeat live s.active_connections).0 }, [])
  step (Operation.updates key live) s =
      (s, on_update u encode key live s.features_cache s.active_connections)
  step (Operation.caches c) s = (record s { features_cache = c }, [])

  pub run : List Operation → System → System × List Deliveries
  run [] s = (s, [])
  run (o ∷ os) s = let (s', out) = step o s in let (after, outs) = run os s' in (after, out ∷ outs)

  -- what an update sends to a subscriber that it is about: one event, if there is a text
  abbrev pub event_of : ClientData → Result String → Deliveries
  event_of c (ok text) = (c, Event.updated text) ∷ []
  event_of c (err x) = []

  abbrev pub spec_events : Option String → FeatureCache u → Subscriber → Deliveries
  spec_events environment features_cache (q, c) =
      if about u encode environment q then event_of c (text_for u encode q features_cache) else []

  event_lem :
      (q : StreamingQuery) (c : ClientData) (features_cache : FeatureCache u)
      → group_events u encode q (c ∷ []) features_cache
        ≡ event_of c (resolve_features u encode q features_cache >>= encode)
  unfolding group_events
  event_lem q c features_cache =
      elim (Result-cases (resolve_features u encode q features_cache >>= encode)) [
        | inl (x, e) ↦ rw (e, group_events) refl
        | inr (text, e) ↦ rw (e, group_events) refl
      ]

  events_lem :
      (environment : Option String) (features_cache : FeatureCache u) (s : Subscriber)
      → events_for u encode environment features_cache s ≡ spec_events environment features_cache s
  events_lem environment features_cache (q, c) =
      ap (λ l. if about u encode environment q then l else [])
        (event_lem q c features_cache ∙ ap (event_of c) (text_for_lem u encode q features_cache))

  spec_events_lem :
      (environment : Option String) (features_cache : FeatureCache u) (l : List Subscriber)
      → flat_map (events_for u encode environment features_cache) l
        ≡ flat_map (spec_events environment features_cache) l
  spec_events_lem environment features_cache [] = refl
  spec_events_lem environment features_cache (s ∷ l) =
      rw (events_lem environment features_cache s, spec_events_lem environment features_cache l)
        refl

  pub record Spec : Type 0 where
    pub features_cache : FeatureCache u
    pub audience : Bag Subscriber

  -- a client is admitted if there are features for its environment
  abbrev pub spec_connects :
      StreamingQuery → ClientData → Result String → Spec → Spec × Bag (ClientData × Event)
  spec_connects query client (ok text) s = (
    record s { audience = add (query, client) s.audience },
    bag ((client, Event.connected text) ∷ []),
  )
  spec_connects query client (err x) s = (s, bag [])

  pub spec_step : Operation → Spec → Spec × Bag (ClientData × Event)
  spec_step (Operation.connects query token tx) s =
      spec_connects query (record { token = token; sender = tx })
        (text_for u encode query s.features_cache) s
  spec_step (Operation.beats live) s = (
    record s { audience = collect (keep (λ (x : Subscriber). live x.1.sender)) s.audience },
    bag [],
  )
  spec_step (Operation.updates key live) s = (
    s,
    collect (keep (λ (d : ClientData × Event). live d.0.sender))
        (collect (spec_events (environment_of key) s.features_cache) s.audience),
  )
  spec_step (Operation.caches c) s = (record s { features_cache = c }, bag [])

  pub spec_run : List Operation → Spec → Spec × List (Bag (ClientData × Event))
  spec_run [] s = (s, [])
  spec_run (o ∷ os) s =
      let (s', out) = spec_step o s in let (after, outs) = spec_run os s' in (after, out ∷ outs)

  abbrev pub view : System → Spec
  view s = record {
    features_cache = s.features_cache;
    audience = bag (subscribers s.active_connections);
  }

  connects_refines :
      (query : StreamingQuery) (token : String) (tx : Channel) (s : System)
      → let (s', out) = step (Operation.connects query token tx) s in
        (view s', bag out) ≡ spec_step (Operation.connects query token tx) (view s)
  unfolding step spec_step create_connection
  connects_refines query token tx s =
      let client : ClientData = record { token = token; sender = tx } in
      elim (Result-cases (resolve_features u encode query s.features_cache >>= encode)) [
        | inl (x, e) ↦
            rw (e, create_connection, sym (text_for_lem u encode query s.features_cache) ∙ e) refl
        | inr (text, e) ↦
            rw (e, create_connection, sym (text_for_lem u encode query s.features_cache) ∙ e)
              (ap
                (λ (a : Bag Subscriber).
                  (record (view s) { audience = a }, bag ((client, Event.connected text) ∷ [])))
                (Quot.sound (join-perm query client s.active_connections)))
      ]

  broadcast_refines :
      (environment : Option String) (live : Channel → Bool) (features_cache : FeatureCache u)
      (self : Broadcaster)
      → bag (broadcast u encode environment live features_cache self)
        ≡ collect
            (keep (λ (d : ClientData × Event). live d.0.sender))
            (collect (spec_events environment features_cache) (bag (subscribers self)))
  unfolding broadcast
  broadcast_refines environment live features_cache self = ap bag (
      filter-flat_map (λ (d : ClientData × Event). live d.0.sender) _
      ∙ ap (flat_map (keep (λ (d : ClientData × Event). live d.0.sender))) (
          client_events_lem u encode environment features_cache self
          ∙ spec_events_lem environment features_cache (subscribers self)))

  step_refines :
      (o : Operation) (s : System)
      → let (s', out) = step o s in (view s', bag out) ≡ spec_step o (view s)
  unfolding step spec_step on_update
  step_refines (Operation.connects query token tx) s = connects_refines query token tx s
  step_refines (Operation.beats live) s =
      ap (λ (l : List Subscriber). (record (view s) { audience = bag l }, bag []))
        (subscribers-heartbeat live s.active_connections ∙ filter-flat_map _ _)
  step_refines (Operation.updates (UpdateType.full env) live) s =
      ap (λ b. (view s, b))
        (broadcast_refines (some env) live s.features_cache s.active_connections)
  step_refines (Operation.updates (UpdateType.update env) live) s =
      ap (λ b. (view s, b))
        (broadcast_refines (some env) live s.features_cache s.active_connections)
  step_refines (Operation.updates UpdateType.deletion live) s =
      ap (λ b. (view s, b)) (broadcast_refines none live s.features_cache s.active_connections)
  step_refines (Operation.caches c) s = refl

  -- Whatever happens, in whatever order, the broadcaster does what its specification says: clients that
  -- connect while there are features for their environment are in the audience, a heartbeat leaves
  -- those that are live, and each update sends to each live client that it concerns one event with the
  -- text of its query, if there is one: of what the cache has for its environment, with the features whose name has
  -- the query's prefix and whose project its projects allow, and with the query. The groups by query and all orders are forgotten.
  pub run_refines :
      (os : List Operation) (s : System)
      → let (s', outs) = run os s in (view s', map bag outs) ≡ spec_run os (view s)
  unfolding run spec_run
  run_refines [] s = refl
  run_refines (o ∷ os) s =
      let first = step_refines o s in
      let rest = run_refines os (step o s).0 in
      let later = ap (λ (p : Spec × Bag (ClientData × Event)). spec_run os p.0) first in
      let all = rest ∙ later in
      ap
        (λ (p : Bag (ClientData × Event) × (Spec × List (Bag (ClientData × Event)))).
          (p.1.0, p.0 ∷ p.1.1))
        (pair_path (ap (λ (p : Spec × Bag (ClientData × Event)). p.1) first) all)
