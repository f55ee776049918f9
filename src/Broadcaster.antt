-- ===== src/Broadcaster.antt =====
-- server/src/http/broadcaster.rs: the clients of the streaming endpoint and what is sent to them.
-- A client's channel is a number; `live` tells which channels still have their receiver when
-- something is sent. What is sent is returned in order, with its channel; a send that waits for a slow receiver is
-- one that comes later. `encode` is the JSON text of features.
pub mod Served
pub mod Subscribers
pub mod Refined
pub mod Delivered
use mathlib.Core.Option
use unleash_edge.Prelude.{
  ℕ, ◌+◌, String, Bool, true, false, ◌≡◌, ◌↔◌, ap, Option, none, some, List, [], ◌∷◌, ◌++◌, map,
  string_eq, string_lawful, option_lawful, Eq, LawfulEq, ◌==◌, filter, length, unwrap_or,
  if◌then◌else◌, pair_lawful, lawful, list_lawful,
}
use unleash_edge.Dict
use unleash_edge.Dict.{Dict}
use unleash_edge.Error.{EdgeError, Result, ok, err, ok_or, ◌>>=◌}
use unleash_edge.Types.{EdgeToken}
use unleash_edge.Features.{UnleashTypes, Query, ClientFeatures}
use unleash_edge.Filters.{FeatureFilterSet, query_filters, filter_client_features}
use unleash_edge.FeatureCache
use unleash_edge.FeatureCache.{FeatureCache, UpdateType}

pub record StreamingQuery : Type 0 where
  pub projects : List String
  pub name_prefix : Option String
  pub environment : String

-- the fields of a query, and a query of fields
abbrev fields : StreamingQuery → List String × (Option String × String)
fields q = (q.projects, (q.name_prefix, q.environment))

abbrev of_fields : List String × (Option String × String) → StreamingQuery
of_fields (p, (n, e)) = record { projects = p; name_prefix = n; environment = e }

abbrev fields_lawful : LawfulEq (List String × (Option String × String))
fields_lawful =
    pair_lawful (list_lawful string_lawful)
      (pair_lawful (option_lawful string_lawful) string_lawful)

pub query_beq_iff :
    (a b : StreamingQuery) → (fields_lawful.beq (fields a) (fields b) ≡ true) ↔ (a ≡ b)
query_beq_iff a b = (
  λ h. ap of_fields ((fields_lawful.beq_iff (fields a) (fields b)).0 h),
  λ h. (fields_lawful.beq_iff (fields a) (fields b)).1 (ap fields h),
)

-- the derived `PartialEq` and `Hash`
abbrev pub streaming_query_lawful : LawfulEq StreamingQuery
streaming_query_lawful = record {
  beq = λ a b. fields_lawful.beq (fields a) (fields b);
  beq_iff = query_beq_iff;
}

instance abbrev pub streaming_query_eq : Eq StreamingQuery
streaming_query_eq = lawful streaming_query_lawful

-- `From<(&Query, &EdgeToken)> for StreamingQuery`
unfoldable pub streaming_query : (u : UnleashTypes) → Query u → EdgeToken → StreamingQuery
streaming_query u query token = record {
  projects = token.projects;
  name_prefix = query.name_prefix;
  environment = unwrap_or token.environment token.token;
}

-- `From<StreamingQuery> for Query`
unfoldable pub query_of_streaming : (u : UnleashTypes) → StreamingQuery → Query u
query_of_streaming u value = record {
  tags = none;
  projects = some value.projects;
  name_prefix = value.name_prefix;
  environment = some value.environment;
  inline_segment_constraints = some false;
}

abbrev pub Channel : Type 0
Channel = ℕ

pub record ClientData : Type 0 where
  pub token : String
  pub sender : Channel

-- the events with features
pub data Event : Type 0 where
  connected updated : String → Event

-- `Broadcaster`: the clients of each query; the features cache is an argument
abbrev pub Broadcaster : Type 0
Broadcaster = Dict StreamingQuery (List ClientData)

abbrev pub Deliveries : Type 0
Deliveries = List (ClientData × Event)

-- `heartbeat`: the clients that are left, and their number; what it sends, a comment, is left out
unfoldable pub heartbeat : (Channel → Bool) → Broadcaster → Broadcaster × ℕ
heartbeat live [] = ([], 0)
heartbeat live ((query, clients) ∷ rest) =
    let (groups, active_connections) = heartbeat live rest in
    let ok_clients = filter (λ (c : ClientData). live c.sender) clients in
    ((query, ok_clients) ∷ groups, length ok_clients + active_connections)

module _ (u : UnleashTypes) (encode : ClientFeatures u → Result String) where
  unfoldable pub get_query_filters : StreamingQuery → FeatureFilterSet u
  get_query_filters query = query_filters u query.name_prefix query.projects

  unfoldable pub resolve_features : StreamingQuery → FeatureCache u → Result (ClientFeatures u)
  unfolding get_query_filters
  resolve_features query features_cache =
      elim (FeatureCache.get u query.environment features_cache) [
        | some client_features ↦
            ok (record (filter_client_features u client_features (get_query_filters query)) {
              query = some (query_of_streaming u query);
            })
        | none ↦ err EdgeError.authorization_denied
      ]

  -- the first event is sent on the new channel, whose receiver is returned
  unfoldable pub create_connection :
      StreamingQuery
      → String
      → Channel
      → FeatureCache u
      → Broadcaster
      → Broadcaster × Result (ClientData × Event)
  create_connection query token tx features_cache self =
      let client : ClientData = record { token = token; sender = tx } in
      elim (resolve_features query features_cache >>= encode) [
        | err x ↦ (self, err x)
        | ok text ↦ (
          Dict.upsert query (λ clients. clients ++ client ∷ []) (client ∷ []) self,
          ok (client, Event.connected text),
        )
      ]

  unfoldable pub connect :
      EdgeToken
      → Query u
      → Channel
      → FeatureCache u
      → Broadcaster
      → Broadcaster × Result (ClientData × Event)
  connect token query tx features_cache self =
      create_connection (streaming_query u query token) token.token tx features_cache self

  -- whether an update concerns a query
  abbrev pub concerns : Option String → StreamingQuery → Bool
  concerns none query = true
  concerns (some env) query = query.environment == env

  -- the events for one group
  unfoldable pub group_events : StreamingQuery → List ClientData → FeatureCache u → Deliveries
  group_events query clients features_cache =
      elim (resolve_features query features_cache >>= encode) [
        | ok text ↦ map (λ c. (c, Event.updated text)) clients
        | err _ ↦ []
      ]

  -- the loop that collects `client_events`
  unfoldable pub client_events : Option String → FeatureCache u → Broadcaster → Deliveries
  client_events environment features_cache [] = []
  client_events environment features_cache ((query, clients) ∷ rest) =
      let others = client_events environment features_cache rest in
      if concerns environment query
      then group_events query clients features_cache ++ others
      else others

  -- `broadcast`; a send to a channel without a receiver is ignored
  unfoldable pub broadcast :
      Option String → (Channel → Bool) → FeatureCache u → Broadcaster → Deliveries
  broadcast environment live features_cache self =
      filter (λ (d : ClientData × Event). live d.0.sender)
        (client_events environment features_cache self)

  -- what `spawn_feature_cache_subscriber` does with an update of the cache
  unfoldable pub on_update :
      UpdateType → (Channel → Bool) → FeatureCache u → Broadcaster → Deliveries
  on_update (UpdateType.full env) live features_cache self =
      broadcast (some env) live features_cache self
  on_update (UpdateType.update env) live features_cache self =
      broadcast (some env) live features_cache self
  on_update UpdateType.deletion live features_cache self = broadcast none live features_cache self

  -- What `rx.recv()` returns: an update, or that updates were missed, or that the cache is gone.
  pub data Received : Type 0 where
    received : UpdateType → Received
    lagged closed : Received

  -- the loop `while let Ok(key)` of `spawn_feature_cache_subscriber`, over what is received, each with
  -- the cache and the clients at that time
  unfoldable pub subscriber_loop :
      (Channel → Bool) → List (Received × (FeatureCache u × Broadcaster)) → Deliveries
  unfolding on_update
  subscriber_loop live [] = []
  subscriber_loop live ((Received.received key, (features_cache, self)) ∷ rest) =
      on_update key live features_cache self ++ subscriber_loop live rest
  subscriber_loop live ((Received.lagged, _) ∷ rest) = []
  subscriber_loop live ((Received.closed, _) ∷ rest) = []
