-- ===== src/Refresher/Streaming.antt =====
-- server/src/http/refresher/feature_refresher.rs: features that upstream streams. Each token that is due
-- has a stream of its own; what they yield comes in some order, as a list.
use unleash_edge.Prelude.{
  ◌≡◌, ◌↔◌, ◌⊎◌, inl, inr, refl, sym, ap, subst, false, unwrap_or, string_eq, arith, ◌++◌, Option,
  none, some, List, [], ◌∷◌, map, String, Memᴰ, true, Bool,
}
use unleash_edge.Types.{EdgeToken, Millis}
use unleash_edge.Tokens.{cache_key}
use unleash_edge.Error.{Result, ok}
use unleash_edge.Features.{UnleashTypes, ClientFeatures, Engine}
use unleash_edge.FeatureCache.{UpdateType}
use unleash_edge.FeatureCache.Notify
use unleash_edge.FeatureCache.Notify.{CacheOp, op_key, run_effect}
use unleash_edge.Refresher.State.{Refresher, get_tokens_due_for_refresh}
use unleash_edge.Refresher.Fetch.{handle_client_features_updated, update_last_refresh}
use unleash_edge.Refresher.Engines.{InSync, updated-InSync}
use unleash_edge.Broadcaster.{StreamingQuery, ClientData, Channel, Event, Broadcaster, on_update}
use unleash_edge.Broadcaster.Subscribers.{subscribers}
use unleash_edge.Broadcaster.Delivered.{change_reaches}
use unleash_edge.Broadcaster.Served.{text_for, part_for}
use unleash_edge.FeatureCache
use unleash_edge.FeatureCache.{FeatureCache}
use unleash_edge.FeatureCache.Merge.{update_features_iff}
use unleash_edge.Dict
use unleash_edge.Dict.{contains}

-- `eventsource_client::SSE`, the data of an event parsed as features: `none` where it is not
pub data Sse (u : UnleashTypes) : Type 0 where
  unleash_connected unleash_updated : Option (ClientFeatures u) → Sse u
  other_event connected comment : Sse u

-- what `try_next` yields
pub data Next (u : UnleashTypes) : Type 0 where
  item : Sse u → Next u
  ended failed : Next u

some_same : {A : Type 0} {a b : A} → some a ≡ some b → a ≡ b
some_same h = ground (arith, h)

module _ (u : UnleashTypes) (e : Engine u) where
  -- the tokens that get a stream
  unfoldable pub streamed_tokens : Millis → Refresher u e → List EdgeToken
  streamed_tokens now self = map (λ r. r.token) (get_tokens_due_for_refresh u e now self)

  -- the match on `serde_json::from_str(&event.data)`
  unfoldable pub populate :
      Millis → EdgeToken → Option (ClientFeatures u) → Refresher u e → Refresher u e
  populate now token (some features) self =
      handle_client_features_updated u e now token features none self
  populate now token none self = self

  unfoldable pub handle_sse : Millis → EdgeToken → Sse u → Refresher u e → Refresher u e
  handle_sse now token (Sse.unleash_connected features) self = populate now token features self
  handle_sse now token (Sse.unleash_updated features) self = populate now token features self
  handle_sse now token Sse.other_event self = self
  handle_sse now token Sse.connected self = self
  handle_sse now token Sse.comment self = self

  -- a turn of the loop of a stream
  unfoldable pub stream_turn : Millis → EdgeToken → Next u → Refresher u e → Refresher u e
  stream_turn now token (Next.item sse) self = handle_sse now token sse self
  stream_turn now token Next.ended self = self
  stream_turn now token Next.failed self = self

  -- the turns of all streams, in the order in which they come
  unfoldable pub stream_turns : List (Millis × (EdgeToken × Next u)) → Refresher u e → Refresher u e
  stream_turns [] self = self
  stream_turns ((now, (token, next)) ∷ rest) self =
      stream_turns rest (stream_turn now token next self)

  populate-InSync :
      (now : Millis) (token : EdgeToken) (features : Option (ClientFeatures u))
      (self : Refresher u e)
      → InSync u e self
      → InSync u e (populate now token features self)
  unfolding populate
  populate-InSync now token (some f) self h = updated-InSync u e now token f none self h
  populate-InSync now token none self h = h

  turn-InSync :
      (now : Millis) (token : EdgeToken) (next : Next u) (self : Refresher u e)
      → InSync u e self
      → InSync u e (stream_turn now token next self)
  unfolding stream_turn handle_sse
  turn-InSync now token (Next.item (Sse.unleash_connected f)) self h =
      populate-InSync now token f self h
  turn-InSync now token (Next.item (Sse.unleash_updated f)) self h =
      populate-InSync now token f self h
  turn-InSync now token (Next.item Sse.other_event) self h = h
  turn-InSync now token (Next.item Sse.connected) self h = h
  turn-InSync now token (Next.item Sse.comment) self h = h
  turn-InSync now token Next.ended self h = h
  turn-InSync now token Next.failed self h = h

  -- Whatever the streams yield, in whatever order, the engines stay in step with the features.
  pub stream_turns-InSync :
      (l : List (Millis × (EdgeToken × Next u))) (self : Refresher u e)
      → InSync u e self
      → InSync u e (stream_turns l self)
  unfolding stream_turns
  stream_turns-InSync [] self h = h
  stream_turns-InSync ((now, (token, next)) ∷ l) self h =
      stream_turns-InSync l (stream_turn now token next self) (turn-InSync now token next self h)

  streamed_cache :
      (now : Millis) (token : EdgeToken) (f : ClientFeatures u) (self : Refresher u e)
      → (stream_turn now token (Next.item (Sse.unleash_updated (some f))) self).features_cache
        ≡ Notify.run u e (CacheOp.modify_features (cache_key token) token f) self.features_cache
  unfolding stream_turn handle_sse populate handle_client_features_updated update_last_refresh
      Notify.run
  streamed_cache now token f self = refl

  -- what is to be kept for an environment once features for a token have come: these alone if there were
  -- none, else these and, of the old ones, those out of the token's reach
  abbrev pub Merged :
      EdgeToken → Option (ClientFeatures u) → ClientFeatures u → ClientFeatures u → Type 0
  Merged token none f merged = merged ≡ f
  Merged token (some old) f merged =
      (x : u.Feature)
      → Memᴰ x merged.features ↔ (
          Memᴰ x f.features
          ⊎ (Memᴰ x old.features
              × (contains token.projects (unwrap_or (u.project x) "default") ≡ false)
              × (contains token.projects "*" ≡ false)))

  kept-Merged :
      (token : EdgeToken) (before : Option (ClientFeatures u)) (f merged : ClientFeatures u)
      → Notify.new_value u e (CacheOp.modify_features (cache_key token) token f) before
        ≡ some merged
      → Merged token before f merged
  kept-Merged token none f merged h = ground (arith, h)
  kept-Merged token (some old) f merged h = subst (Merged token (some old) f) (some_same h) (λ x.
      let (there, new, kept) = update_features_iff u token old f x in
      (there, λ m. elim m [ inl n ↦ new n | inr (n, out, all) ↦ kept n out all ]))

  streamed-Merged :
      (now : Millis) (token : EdgeToken) (f merged : ClientFeatures u) (self : Refresher u e)
      → Dict.get
          (cache_key token)
          (stream_turn now token
            (Next.item (Sse.unleash_updated (some f)))
            self).features_cache.features
        ≡ some merged
      → Merged token (Dict.get (cache_key token) self.features_cache.features) f merged
  unfolding FeatureCache.get
  streamed-Merged now token f merged self h =
      let key = cache_key token in
      let effect =
        (run_effect u e (CacheOp.modify_features key token f) self.features_cache key).0 in
      let cached = ap (λ c. Dict.get key c.features) (streamed_cache now token f self) in
      kept-Merged token (Dict.get key self.features_cache.features) f merged
        (ground (arith, string_eq.beq_refl key, effect, cached, h))

  pub streamed_reaches :
      (encode : ClientFeatures u → Result String) (now : Millis) (token : EdgeToken)
      (f merged : ClientFeatures u) (self : Refresher u e) (live : Channel → Bool)
      (clients : Broadcaster) (q : StreamingQuery) (client : ClientData) (text : String)
      → Memᴰ (q, client) (subscribers clients)
      → q.environment ≡ cache_key token
      → live client.sender ≡ true
      → Dict.get
          (cache_key token)
          (stream_turn now token
            (Next.item (Sse.unleash_updated (some f)))
            self).features_cache.features
        ≡ some merged
      → encode (part_for u q merged) ≡ ok text
      → let after =
          (stream_turn now token (Next.item (Sse.unleash_updated (some f))) self).features_cache in
        Merged token (Dict.get (cache_key token) self.features_cache.features) f merged
        × (key : UpdateType) × (after.sent ≡ self.features_cache.sent ++ key ∷ [])
        × Memᴰ (client, Event.updated text) (on_update u encode key live after clients)
  streamed_reaches encode now token f merged self live clients q client text m same alive cached
        written =
      let after =
        (stream_turn now token (Next.item (Sse.unleash_updated (some f))) self).features_cache in
      let run = streamed_cache now token f self in
      let at_query : Dict.get q.environment after.features ≡ some merged = rw same cached in
      let answer : text_for u encode q after ≡ ok text = rw (at_query, text_for) written in
      let (key, sent, there) =
        subst
          (λ (c : FeatureCache u).
            (key : UpdateType) × (c.sent ≡ self.features_cache.sent ++ key ∷ [])
            × Memᴰ (client, Event.updated text) (on_update u encode key live c clients))
          (sym run)
          (change_reaches u encode e (CacheOp.modify_features (cache_key token) token f)
            self.features_cache live clients q client text m same alive
            (subst (λ c. text_for u encode q c ≡ ok text) run answer)) in
      (streamed-Merged now token f merged self cached, key, sent, there)
