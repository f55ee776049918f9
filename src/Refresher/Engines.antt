-- ===== src/Refresher/Engines.antt =====
-- The engines that answer the frontend hold the features that the cache holds.
use mathlib.Core.Option
use unleash_edge.Prelude.{
  ◌≡◌, refl, String, Bool, true, false, inl, inr, Option, none, some, List, [], ◌∷◌, string_eq,
  arith, if◌then◌else◌, any, Bool-cases, Option-cases, eq_iff,
}
use unleash_edge.Dict
use unleash_edge.Dict.{Dict, values}
use unleash_edge.Dict.Laws.{get-remove, get-upsert}
use unleash_edge.Error.{EdgeError, FeatureError, Result, ok, err}
use unleash_edge.Types.{EdgeToken, TokenRefresh, Millis, EntityTag}
use unleash_edge.Tokens.{cache_key}
use unleash_edge.Features.{UnleashTypes, ClientFeatures, Engine}
use unleash_edge.FeatureCache
use unleash_edge.FeatureCache.{FeatureCache, update_client_features, send_full_update}
use unleash_edge.UnleashClient.{ClientFeaturesRequest, FeaturesResponse}
use unleash_edge.UnleashClient.Answers.{IsReadable, get_features-IsReadable}
use unleash_edge.Refresher.State.{Refresher, environment_is}
use unleash_edge.Refresher.Fetch.{
  Upstream, compiled, is_struggling, backoff, update_last_check, update_last_refresh,
  handle_client_features_updated, handle_client_features_delta_updated, give_up_token,
  handle_fetch_error, handle_answer, handle_delta_answer, refresh_single, refresh_single_delta,
  refresh_one, request_of, refresh_all,
}

-- What is assumed of the engine: a delta on compiled features is the compiled delta.
pub record DeltaLaws (u : UnleashTypes) (e : Engine u) : Type 0 where
  pub delta_compiled :
      (f : ClientFeatures u) (d : e.Delta)
      → e.state_apply_delta (e.take_state e.default f) d
        ≡ e.take_state e.default (e.apply_delta f d)
  pub delta_first :
      (d : e.Delta)
      → e.state_apply_delta e.default d ≡ e.take_state e.default (e.create_from_delta d)

module _ (u : UnleashTypes) (e : Engine u) where
  -- For each key there is an engine exactly where there are features, compiled from just those.
  abbrev pub InSync : Refresher u e → Type 0
  InSync self =
      (k : String)
      → Dict.get k self.engine_cache
        ≡ Option.map (compiled u e) (FeatureCache.get u k self.features_cache)

  pub updated-InSync :
      (now : Millis) (token : EdgeToken) (f : ClientFeatures u) (etag : Option EntityTag)
      (self : Refresher u e)
      → InSync self
      → InSync (handle_client_features_updated u e now token f etag self)
  unfolding handle_client_features_updated update_last_refresh FeatureCache.modify FeatureCache.get
      send_full_update
  updated-InSync now token f etag self h k =
      let key = cache_key token in
      let merge = λ (old : ClientFeatures u). update_client_features u token old f in
      ground (
        arith,
        h k,
        h key,
        get-upsert k key merge f self.features_cache.features,
        get-upsert key key merge f self.features_cache.features,
        get-upsert k key
            (λ (engine : e.State).
              elim (Dict.get key (Dict.upsert key merge f self.features_cache.features)) [
                | none ↦ engine
                | some g ↦ compiled u e g
              ])
            (compiled u e f) self.engine_cache,
        eq_iff key k,
        eq_iff key key,
      )

  removed-InSync :
      (k : String) (f : FeatureCache u) (engines : Dict String (e.State))
      → ((j : String) → Dict.get j engines ≡ Option.map (compiled u e) (FeatureCache.get u j f))
      → (j : String)
      → Dict.get j (Dict.remove k engines)
        ≡ Option.map (compiled u e) (FeatureCache.get u j (FeatureCache.remove u k f).0)
  unfolding FeatureCache.get FeatureCache.remove send_full_update
  removed-InSync k f engines h j =
      ground (arith, h j, get-remove j k f.features, get-remove j k engines)

  give_up-InSync :
      (token : EdgeToken) (self : Refresher u e)
      → InSync self
      → InSync (give_up_token u e token self)
  unfolding give_up_token
  give_up-InSync token self h =
      elim (Bool-cases (
        any (λ r. environment_is r.token.environment token.environment)
          (values (Dict.remove token.token self.tokens_to_refresh)))) [
            | inl t ↦ rw t h
            | inr n ↦
                rw n (removed-InSync (cache_key token) self.features_cache self.engine_cache h)
          ]

  error-InSync :
      (now : Millis) (token : EdgeToken) (x : EdgeError) (self : Refresher u e)
      → InSync self
      → InSync (handle_fetch_error u e now token x self)
  unfolding handle_fetch_error backoff
  error-InSync now token (EdgeError.client_features_fetch_error (FeatureError.retriable s)) self h =
      elim (Bool-cases (is_struggling s)) [ inl t ↦ rw t h | inr n ↦ rw n h ]
  error-InSync now token (EdgeError.client_features_fetch_error FeatureError.access_denied) self h =
      give_up-InSync token self h
  error-InSync now token (EdgeError.client_features_fetch_error FeatureError.not_found) self h = h
  error-InSync now token _ self h = h

  answer-InSync :
      (now : Millis) (token : EdgeToken) (a : Result (FeaturesResponse (ClientFeatures u)))
      (self : Refresher u e)
      → InSync self
      → InSync (handle_answer u e now token a self)
  unfolding handle_answer update_last_check
  answer-InSync now token (ok (FeaturesResponse.no_update tag)) self h = h
  answer-InSync now token (ok (FeaturesResponse.updated f etag)) self h =
      updated-InSync now token f etag self h
  answer-InSync now token (err x) self h = error-InSync now token x self h

  -- whatever is asked of upstream, the end of the request can be read
  abbrev pub AllReadable : Upstream u e → Type 0
  AllReadable w =
      (request : ClientFeaturesRequest)
      → IsReadable w.parse_etag request (w.fetch request)
        × IsReadable w.parse_etag request (w.fetch_delta request)

  module _ (laws : DeltaLaws u e) where
    -- the cache and the engines after a delta
    delta_lookups :
        (key : String) (delta : e.Delta) (f : FeatureCache u) (engines : Dict String (e.State))
        → ((j : String) → Dict.get j engines ≡ Option.map (compiled u e) (FeatureCache.get u j f))
        → (j : String)
        → Dict.get j (
            Dict.upsert key
              (λ engine. e.state_apply_delta engine delta)
              (e.state_apply_delta e.default delta)
              engines)
          ≡ Option.map
              (compiled u e)
              (FeatureCache.get u j (FeatureCache.apply_delta u e key delta f))
    unfolding FeatureCache.get FeatureCache.apply_delta send_full_update
    delta_lookups key delta f engines h j =
        let merge = λ (old : ClientFeatures u). e.apply_delta old delta in
        let engine_step = λ (engine : e.State). e.state_apply_delta engine delta in
        elim (Option-cases (FeatureCache.get u j f)) [
          | inl miss ↦ ground (
            arith,
            h j,
            miss,
            laws.delta_first delta,
            get-upsert j key merge (e.create_from_delta delta) f.features,
            get-upsert j key engine_step (e.state_apply_delta e.default delta) engines,
          )
          | inr (old, hit) ↦ ground (
            arith,
            h j,
            hit,
            laws.delta_compiled old delta,
            get-upsert j key merge (e.create_from_delta delta) f.features,
            get-upsert j key engine_step (e.state_apply_delta e.default delta) engines,
          )
        ]

    cached_after :
        (key : String) (delta : e.Delta) (f : FeatureCache u)
        → (c : ClientFeatures u) × (FeatureCache.get u key
              (FeatureCache.apply_delta u e key delta f)
            ≡ some c)
    unfolding FeatureCache.get FeatureCache.apply_delta send_full_update
    cached_after key delta f =
        let merge = λ (old : ClientFeatures u). e.apply_delta old delta in
        let lookup = get-upsert key key merge (e.create_from_delta delta) f.features in
        elim (Option-cases (FeatureCache.get u key f)) [
          | inl miss ↦ (e.create_from_delta delta, ground (arith, miss, lookup, eq_iff key key))
          | inr (old, hit) ↦ (e.apply_delta old delta, ground (arith, hit, lookup, eq_iff key key))
        ]

    delta-InSync :
        (now : Millis) (token : EdgeToken) (delta : e.Delta) (etag : Option EntityTag)
        (self : Refresher u e)
        → InSync self
        → (self' : Refresher u e) × (handle_client_features_delta_updated u e now token delta etag
              self
            ≡ some self')
          × InSync self'
    unfolding handle_client_features_delta_updated update_last_refresh
    delta-InSync now token delta etag self h =
        let (c, found) = cached_after (cache_key token) delta self.features_cache in
        rw found
          (_, refl, delta_lookups (cache_key token) delta self.features_cache self.engine_cache h)

    delta_answer-InSync :
        (now : Millis) (token : EdgeToken) (a : Result (FeaturesResponse (e.Delta)))
        (self : Refresher u e)
        → InSync self
        → (self' : Refresher u e) × (handle_delta_answer u e now token a self ≡ some self')
          × InSync self'
    unfolding handle_delta_answer update_last_check
    delta_answer-InSync now token (ok (FeaturesResponse.no_update tag)) self h = (_, refl, h)
    delta_answer-InSync now token (ok (FeaturesResponse.updated delta etag)) self h =
        delta-InSync now token delta etag self h
    delta_answer-InSync now token (err x) self h = (_, refl, error-InSync now token x self h)

    either-InSync :
        (delta : Bool) (w : Upstream u e) (r : TokenRefresh) (self : Refresher u e)
        → AllReadable w
        → InSync self
        → (self' : Refresher u e) × ((if delta
              then refresh_single_delta u e w r self
              else refresh_single u e w r self)
            ≡ some self')
          × InSync self'
    unfolding refresh_single refresh_single_delta
    either-InSync true w r self readable h =
        let request = request_of u e r in
        let (a, got) =
          get_features-IsReadable w.parse_etag request (w.fetch_delta request)
            (readable request).1 in
        rw (got, refresh_single_delta) (delta_answer-InSync (w.clock r.token) r.token a self h)
    either-InSync false w r self readable h =
        let request = request_of u e r in
        let (a, got) =
          get_features-IsReadable w.parse_etag request (w.fetch request) (readable request).0 in
        rw (got, refresh_single) (_, refl, answer-InSync (w.clock r.token) r.token a self h)

    one-InSync :
        (w : Upstream u e) (r : TokenRefresh) (self : Refresher u e)
        → AllReadable w
        → InSync self
        → (self' : Refresher u e) × (refresh_one u e w r self ≡ some self') × InSync self'
    unfolding refresh_one
    one-InSync w r self readable h = either-InSync self.delta w r self readable h

    pub refresh_all-InSync :
        (w : Upstream u e) (l : List TokenRefresh) (self : Refresher u e)
        → AllReadable w
        → InSync self
        → (self' : Refresher u e) × (refresh_all u e w l self ≡ some self') × InSync self'
    unfolding refresh_all
    refresh_all-InSync w [] self readable h = (self, refl, h)
    refresh_all-InSync w (r ∷ rs) self readable h =
        let (next, e1, h1) = one-InSync w r self readable h in
        rw (e1, refresh_all) (refresh_all-InSync w rs next readable h1)
