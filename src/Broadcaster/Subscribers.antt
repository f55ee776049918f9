-- ===== src/Broadcaster/Subscribers.antt =====
-- The clients of all groups in a row, and what each operation does to them.
use mathlib.Core.List.{append_assoc}
use unleash_edge.Prelude.{
  ◌≡◌, true, none, some, refl, sym, ◌∙◌, ap, String, Bool, Option, List, [], ◌∷◌, ◌++◌, map, ◌==◌,
  filter, string_eq, Bool-cases, inl, inr, if◌then◌else◌,
}
use mathlib.Core.List.{Permᴰ}
use mathlib.Core.List.Permᴰ
use unleash_edge.Dict
use unleash_edge.Dict.{Dict}
use unleash_edge.Error.{Result, ok, err, ◌>>=◌}
use unleash_edge.Features.{UnleashTypes, ClientFeatures}
use unleash_edge.FeatureCache.{FeatureCache}
use unleash_edge.Broadcaster.{
  StreamingQuery, streaming_query_lawful, streaming_query_eq, ClientData, Channel, Event,
  Broadcaster, Deliveries, heartbeat, resolve_features, concerns, group_events, client_events,
}

-- a client with its query
abbrev pub Subscriber : Type 0
Subscriber = StreamingQuery × ClientData

abbrev pub group_of : StreamingQuery → List ClientData → List Subscriber
group_of query clients = map (λ c. (query, c)) clients

abbrev pub subscribers : Broadcaster → List Subscriber
subscribers [] = []
subscribers ((query, clients) ∷ rest) = group_of query clients ++ subscribers rest

append-group_of :
    (q : StreamingQuery) (cs ds : List ClientData)
    → group_of q (cs ++ ds) ≡ group_of q cs ++ group_of q ds
append-group_of q [] ds = refl
append-group_of q (c ∷ cs) ds = ap (λ l. (q, c) ∷ l) (append-group_of q cs ds)

-- A client that joins is one subscriber more.
pub join-perm :
    (q : StreamingQuery) (c : ClientData) (self : Broadcaster)
    → Permᴰ
        (subscribers (Dict.upsert q (λ clients. clients ++ c ∷ []) (c ∷ []) self))
        ((q, c) ∷ subscribers self)
unfolding Dict.upsert
join-perm q c [] = Permᴰ.refl _
join-perm q c ((p, cs) ∷ rest) = elim (Bool-cases (p == q)) [
  | inl y ↦
      let same = (streaming_query_lawful.beq_iff p q).0 y in
      rw
        (
          y,
          append-group_of p cs (c ∷ []),
          append_assoc (group_of p cs) ((p, c) ∷ []) (subscribers rest),
        )
        (rw same (Permᴰ.middle _ (group_of q cs) (subscribers rest)))
  | inr n ↦ rw n (
      Permᴰ.trans (Permᴰ.append_left (group_of p cs) (join-perm q c rest))
        (Permᴰ.middle _ (group_of p cs) (subscribers rest)))
]

-- `flat_map`: the lists of all items in a row
abbrev pub flat_map : {A B : Type 0} → (A → List B) → List A → List B
flat_map f [] = []
flat_map f (x ∷ xs) = f x ++ flat_map f xs

abbrev pub keep : {A : Type 0} → (A → Bool) → A → List A
keep p x = if p x then x ∷ [] else []

pub filter-flat_map : {A : Type 0} (p : A → Bool) (l : List A) → filter p l ≡ flat_map (keep p) l
unfolding filter
filter-flat_map p [] = refl
filter-flat_map p (x ∷ xs) = elim (Bool-cases (p x)) [
  | inl y ↦ rw y (ap (λ l. x ∷ l) (filter-flat_map p xs))
  | inr n ↦ rw n (filter-flat_map p xs)
]

flat_map-swap : {B : Type 0} (a b l : List B) → Permᴰ (a ++ (b ++ l)) (b ++ (a ++ l))
flat_map-swap a b l =
    rw (← append_assoc a b l, ← append_assoc b a l) (Permᴰ.append_right l (Permᴰ.append_comm a b))

pub flat_map-perm :
    {A B : Type 0} (f : A → List B) {xs ys : List A}
    → Permᴰ xs ys
    → Permᴰ (flat_map f xs) (flat_map f ys)
flat_map-perm f Permᴰ.nil = Permᴰ.nil
flat_map-perm f (Permᴰ.cons e p) = rw e (Permᴰ.append_left _ (flat_map-perm f p))
flat_map-perm f (Permᴰ.swap {a} {b} {a'} {b'} {l} e h) =
    rw (e, h) (flat_map-swap (f b') (f a') (flat_map f l))
flat_map-perm f (Permᴰ.trans p q) = Permᴰ.trans (flat_map-perm f p) (flat_map-perm f q)

-- A heartbeat leaves the subscribers whose channel is live.
swept :
    (live : Channel → Bool) (q : StreamingQuery) (cs : List ClientData) (rest : List Subscriber)
    → group_of q (filter (λ (c : ClientData). live c.sender) cs)
        ++ filter (λ (s : Subscriber). live s.1.sender) rest
      ≡ filter (λ (s : Subscriber). live s.1.sender) (group_of q cs ++ rest)
unfolding filter
swept live q [] rest = refl
swept live q (c ∷ cs) rest = elim (Bool-cases (live c.sender)) [
  | inl y ↦ rw y (ap (λ l. (q, c) ∷ l) (swept live q cs rest))
  | inr n ↦ rw n (swept live q cs rest)
]

pub subscribers-heartbeat :
    (live : Channel → Bool) (self : Broadcaster)
    → subscribers (heartbeat live self).0
      ≡ filter (λ (s : Subscriber). live s.1.sender) (subscribers self)
unfolding heartbeat
subscribers-heartbeat live [] = unfold filter in refl
subscribers-heartbeat live ((q, cs) ∷ rest) =
    ap (λ l. group_of q (filter (λ (c : ClientData). live c.sender) cs) ++ l)
      (subscribers-heartbeat live rest)
    ∙ swept live q cs (subscribers rest)

module _ (u : UnleashTypes) (encode : ClientFeatures u → Result String) where
  -- whether an update is about a query: one of its environment, or one that names none
  abbrev pub about : Option String → StreamingQuery → Bool
  about none q = true
  about (some env) q = q.environment == env

  concerns_lem :
      (environment : Option String) (q : StreamingQuery)
      → concerns u encode environment q ≡ about environment q
  concerns_lem none q = refl
  concerns_lem (some env) q = refl

  -- the events for one subscriber
  abbrev pub events_for : Option String → FeatureCache u → Subscriber → Deliveries
  events_for environment features_cache (q, c) =
      if about environment q then group_events u encode q (c ∷ []) features_cache else []

  all_clients :
      (r : Result String) (cs : List ClientData)
      → elim r as (λ _. Deliveries) [ ok text ↦ map (λ c. (c, Event.updated text)) cs | err _ ↦ [] ]
        ≡ flat_map
            (λ c. elim r as (λ _. Deliveries) [
              | ok text ↦ (c, Event.updated text) ∷ []
              | err _ ↦ []
            ])
            cs
  all_clients (ok text) [] = refl
  all_clients (ok text) (c ∷ cs) = ap (λ l. (c, Event.updated text) ∷ l) (all_clients (ok text) cs)
  all_clients (err x) [] = refl
  all_clients (err x) (c ∷ cs) = all_clients (err x) cs

  group_events_lem :
      (q : StreamingQuery) (cs : List ClientData) (features_cache : FeatureCache u)
      → group_events u encode q cs features_cache
        ≡ flat_map (λ c. group_events u encode q (c ∷ []) features_cache) cs
  unfolding group_events
  group_events_lem q cs features_cache =
      all_clients (resolve_features u encode q features_cache >>= encode) cs

  one_group :
      (environment : Option String) (features_cache : FeatureCache u) (q : StreamingQuery)
      (cs : List ClientData) (rest : List Subscriber)
      → flat_map (events_for environment features_cache) (group_of q cs ++ rest)
        ≡ flat_map (λ c. events_for environment features_cache (q, c)) cs
          ++ flat_map (events_for environment features_cache) rest
  one_group environment features_cache q [] rest = refl
  one_group environment features_cache q (c ∷ cs) rest =
      ap (λ l. events_for environment features_cache (q, c) ++ l)
        (one_group environment features_cache q cs rest)
      ∙ sym (append_assoc (events_for environment features_cache (q, c)) _ _)

  silent : {A B : Type 0} (l : List A) → flat_map {B = B} (λ _. []) l ≡ []
  silent [] = refl
  silent (x ∷ xs) = silent xs

  -- A broadcast makes the events of each subscriber, in a row.
  pub client_events_lem :
      (environment : Option String) (features_cache : FeatureCache u) (self : Broadcaster)
      → client_events u encode environment features_cache self
        ≡ flat_map (events_for environment features_cache) (subscribers self)
  unfolding client_events
  client_events_lem environment features_cache [] = refl
  client_events_lem environment features_cache ((q, cs) ∷ rest) =
      let ih = client_events_lem environment features_cache rest in
      let split = one_group environment features_cache q cs (subscribers rest) in
      elim (Bool-cases (about environment q)) [
        | inl y ↦ rw (concerns_lem environment q ∙ y) (
            ap (λ l. l ++ client_events u encode environment features_cache rest)
              (group_events_lem q cs features_cache)
            ∙ (ap (λ l. flat_map (λ c. group_events u encode q (c ∷ []) features_cache) cs ++ l) ih
                ∙ sym (rw y at split)))
        | inr n ↦ rw (concerns_lem environment q ∙ n) (
            ih
            ∙ (ap (λ l. l ++ flat_map (events_for environment features_cache) (subscribers rest))
                  (sym (silent cs))
                ∙ sym (rw n at split)))
      ]
