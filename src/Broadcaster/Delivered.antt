-- ===== src/Broadcaster/Delivered.antt =====
-- Who is sent what by an update.
use mathlib.Core.List.Memᴰ
use unleash_edge.Prelude.{
  ◌≡◌, ◌↔◌, refl, sym, ◌∙◌, ap, subst, String, Bool, true, Option, none, some, List, [], ◌∷◌, ◌++◌,
  Memᴰ, eq_iff, string_eq, mem-filter, mem_of_mem-filter, Bool-cases, inl, inr,
}
use unleash_edge.Error.{Result, Result-cases, ok, ◌>>=◌}
use unleash_edge.Features.{UnleashTypes, ClientFeatures, Engine}
use unleash_edge.FeatureCache.{FeatureCache, UpdateType}
use unleash_edge.FeatureCache.Notify
use unleash_edge.FeatureCache.Notify.{CacheOp, op_key, run_effect}
use unleash_edge.Broadcaster.{
  StreamingQuery, ClientData, Channel, Event, Broadcaster, resolve_features, group_events,
  broadcast, client_events, on_update,
}
use unleash_edge.Broadcaster.Served.{text_for, text_for_lem}
use unleash_edge.Broadcaster.Subscribers.{
  subscribers, flat_map, events_for, about, client_events_lem,
}

mem-flat_map :
    {A B : Type 0} (f : A → List B) (l : List A) {x : A} {y : B}
    → Memᴰ x l
    → Memᴰ y (f x)
    → Memᴰ y (flat_map f l)
mem-flat_map f [] m n = absurd (Memᴰ.not-nil m)
mem-flat_map f (z ∷ zs) {x} {y} m n = elim (Memᴰ.cases_cons m) [
  | inl e ↦ Memᴰ.append_left (flat_map f zs) (subst (λ w. Memᴰ y (f w)) e n)
  | inr o ↦ Memᴰ.append_right (f z) (mem-flat_map f zs o n)
]

mem_of_flat_map :
    {A B : Type 0} (f : A → List B) (l : List A) {y : B}
    → Memᴰ y (flat_map f l)
    → (x : A) × Memᴰ x l × Memᴰ y (f x)
mem_of_flat_map f [] m = absurd (Memᴰ.not-nil m)
mem_of_flat_map f (z ∷ zs) m = elim (Memᴰ.append_cases (f z) m) [
  | inl n ↦ (z, Memᴰ.head refl, n)
  | inr n ↦ let (x, o, k) = mem_of_flat_map f zs n in (x, Memᴰ.tail o, k)
]

module _ (u : UnleashTypes) (encode : ClientFeatures u → Result String) where
  -- an update is about a query: it is one of its environment, or it names none
  abbrev pub IsAbout : Option String → StreamingQuery → Type 0
  IsAbout none q = Unit
  IsAbout (some env) q = q.environment ≡ env

  about_iff :
      (environment : Option String) (q : StreamingQuery)
      → (about u encode environment q ≡ true) ↔ IsAbout environment q
  about_iff none q = (λ _. tt, λ _. refl)
  about_iff (some env) q = eq_iff q.environment env

  event_of_group :
      (q : StreamingQuery) (c : ClientData) (features_cache : FeatureCache u)
      (d : ClientData × Event)
      → Memᴰ d (group_events u encode q (c ∷ []) features_cache)
      → (text : String) × (text_for u encode q features_cache ≡ ok text)
        × (d ≡ (c, Event.updated text))
  unfolding group_events
  event_of_group q c features_cache d m =
      elim (Result-cases (resolve_features u encode q features_cache >>= encode)) [
        | inl (x, e) ↦ absurd (Memᴰ.not-nil (rw (e, group_events) at m))
        | inr (text, e) ↦ elim (Memᴰ.cases_cons (rw (e, group_events) at m)) [
          | inl same ↦ (text, sym (text_for_lem u encode q features_cache) ∙ e, same)
          | inr n ↦ absurd (Memᴰ.not-nil n)
        ]
      ]

  group_of_event :
      (q : StreamingQuery) (c : ClientData) (features_cache : FeatureCache u) (text : String)
      → text_for u encode q features_cache ≡ ok text
      → Memᴰ (c, Event.updated text) (group_events u encode q (c ∷ []) features_cache)
  unfolding group_events
  group_of_event q c features_cache text e =
      rw (text_for_lem u encode q features_cache ∙ e, group_events) (Memᴰ.head refl)

  module _ (environment : Option String) (live : Channel → Bool) (features_cache : FeatureCache u)
      (self : Broadcaster) where
    -- A broadcast sends exactly these: to each subscriber whose channel is live and whose query it
    -- is about, the text of that query: of what the cache then has for its environment, with the features
    -- whose name has the query's prefix and whose project its projects allow, and with the query.
    pub broadcast_iff :
        (d : ClientData × Event)
        → Memᴰ d (broadcast u encode environment live features_cache self) ↔ (
            (q : StreamingQuery) × (text : String) × Memᴰ (q, d.0) (subscribers self)
            × (live d.0.sender ≡ true)
            × IsAbout environment q
            × (text_for u encode q features_cache ≡ ok text)
            × (d.1 ≡ Event.updated text))
    unfolding broadcast
    broadcast_iff d = (
      λ m.
          let (n, alive) =
            mem_of_mem-filter _ (client_events u encode environment features_cache self) m in
          let ((q, c), o, k) =
            mem_of_flat_map (events_for u encode environment features_cache) (subscribers self) (
              subst (λ l. Memᴰ d l) (client_events_lem u encode environment features_cache self)
                n) in
          elim (Bool-cases (about u encode environment q)) [
            | inl y ↦
                let (text, e, same) = event_of_group q c features_cache d (rw y at k) in
                (
                  q,
                  text,
                  subst (λ x. Memᴰ (q, x) (subscribers self))
                      (sym (ap (λ (p : ClientData × Event). p.0) same)) o,
                  alive,
                  (about_iff environment q).0 y,
                  e,
                  ap (λ (p : ClientData × Event). p.1) same,
                )
            | inr n ↦ absurd (Memᴰ.not-nil (rw n at k))
          ],
      λ (q, text, m, alive, y, e, same).
          let k : Memᴰ (d.0, Event.updated text)
              (events_for u encode environment features_cache (q, d.0)) =
            rw ((about_iff environment q).1 y) (group_of_event q d.0 features_cache text e) in
          let all =
            mem-flat_map (events_for u encode environment features_cache) (subscribers self) m k in
          let there : Memᴰ d (client_events u encode environment features_cache self) =
            rw (client_events_lem u encode environment features_cache self) (
              subst
                (λ (x : Event).
                  Memᴰ (d.0, x)
                    (flat_map (events_for u encode environment features_cache) (subscribers self)))
                (sym same) all) in
          mem-filter (λ (x : ClientData × Event). live x.0.sender) _ there alive,
    )

  -- Every operation of the cache is followed by one update, and what that update makes the broadcaster
  -- send reaches each subscriber of the changed environment whose channel is live, with the features of
  -- its query as they are after the change.
  pub change_reaches :
      (e : Engine u) (op : CacheOp u e) (c : FeatureCache u) (live : Channel → Bool)
      (self : Broadcaster) (q : StreamingQuery) (client : ClientData) (text : String)
      → Memᴰ (q, client) (subscribers self)
      → q.environment ≡ op_key u e op
      → live client.sender ≡ true
      → text_for u encode q (Notify.run u e op c) ≡ ok text
      → let after = Notify.run u e op c in
        (key : UpdateType) × (after.sent ≡ c.sent ++ key ∷ [])
        × Memᴰ (client, Event.updated text) (on_update u encode key live after self)
  unfolding on_update
  change_reaches e op c live self q client text m same alive answer = (
    UpdateType.full (op_key u e op),
    (run_effect u e op c "").1,
    (broadcast_iff (some (op_key u e op)) live (Notify.run u e op c) self
          (client, Event.updated text)).1
        (q, text, m, alive, same, answer, refl),
  )
