-- ===== src/Refresher/Coverage.antt =====
-- `register_token_for_refresh`: the tokens that are fetched with cover every token that was registered.
use mathlib.Core.List.Memᴰ
use unleash_edge.Prelude.{
  ◌≡◌, ◌⊎◌, ◌↔◌, refl, sym, subst, ◌∙◌, ap, String, true, false, inl, inr, Option, none, some, List,
  [], ◌∷◌, map, Memᴰ, arith, Bool-cases, string_eq, string_lawful, ◌==◌, eq_iff,
}
use unleash_edge.Dict
use unleash_edge.Dict.{Dict, values, contains}
use unleash_edge.Dict.Laws.{
  get-insert, get-retain, contains_key-get, contains_of_mem, mem_of_contains, mem_of_get,
}
use unleash_edge.Types
use unleash_edge.Types.{EdgeToken, TokenRefresh, EntityTag}
use unleash_edge.Tokens.{simplify}
use unleash_edge.Tokens.Coverage.{Covers}
use unleash_edge.Tokens.Simplified.{IsAntisymmetric, simplify-Covers, simplify-irredundant}
use unleash_edge.Features.{UnleashTypes, Engine}
use unleash_edge.Refresher.State.{
  Refresher, insert_refreshes, registered_tokens, register_token_for_refresh,
}

-- Each record of the table stands under its own secret, and a lookup of the secret finds it.
abbrev pub IsKeyed : Dict String TokenRefresh → Type 0
IsKeyed m =
    (k : String) (r : TokenRefresh) → Memᴰ (k, r) m → (k ≡ r.token.token) × (Dict.get k m ≡ some r)

-- A lookup that finds `r` finds it after insertions, if none inserts another record under that secret.
insert_refreshes_keep :
    (l : List TokenRefresh) (m : Dict String TokenRefresh) (r : TokenRefresh)
    → ((x : TokenRefresh) → Memᴰ x l → x.token.token ≡ r.token.token → x ≡ r)
    → Dict.get r.token.token m ≡ some r
    → Dict.get r.token.token (insert_refreshes l m) ≡ some r
unfolding insert_refreshes
insert_refreshes_keep [] m r same g = g
insert_refreshes_keep (x ∷ xs) m r same g =
    insert_refreshes_keep xs (Dict.insert x.token.token x m) r (λ y n. same y (Memᴰ.tail n))
      (elim (Bool-cases (x.token.token == r.token.token)) [
        | inl t ↦ ground (
          arith,
          get-insert r.token.token x.token.token x m,
          t,
          same x (Memᴰ.head refl) ((eq_iff x.token.token r.token.token).0 t),
        )
        | inr n ↦ ground (arith, get-insert r.token.token x.token.token x m, n, g)
      ])

-- An inserted record is found under its secret, if none inserts another record under that secret.
insert_refreshes_finds :
    (l : List TokenRefresh) (m : Dict String TokenRefresh) (r : TokenRefresh)
    → ((x : TokenRefresh) → Memᴰ x l → x.token.token ≡ r.token.token → x ≡ r)
    → Memᴰ r l
    → Dict.get r.token.token (insert_refreshes l m) ≡ some r
unfolding insert_refreshes
insert_refreshes_finds [] m r same n = absurd (Memᴰ.not-nil n)
insert_refreshes_finds (x ∷ xs) m r same (Memᴰ.head e) =
    insert_refreshes_keep xs (Dict.insert x.token.token x m) r (λ y n. same y (Memᴰ.tail n))
      (ground (
        arith,
        get-insert r.token.token x.token.token x m,
        eq_iff x.token.token r.token.token,
        e,
        ap (λ y. y.token.token) e,
      ))
insert_refreshes_finds (x ∷ xs) m r same (Memᴰ.tail n) =
    insert_refreshes_finds xs (Dict.insert x.token.token x m) r (λ y o. same y (Memᴰ.tail o)) n

module _ (u : UnleashTypes) (e : Engine u) (token : EdgeToken) (etag : Option EntityTag)
    (self : Refresher u e) (keyed : IsKeyed self.tokens_to_refresh)
    (new_token : Dict.contains_key token.token self.tokens_to_refresh ≡ false) where
  abbrev registered : List TokenRefresh
  registered = registered_tokens u e token etag self

  listed_found :
      (x : TokenRefresh)
      → Memᴰ x (values self.tokens_to_refresh)
      → Dict.get x.token.token self.tokens_to_refresh ≡ some x
  listed_found x m =
      let ((k, r), n, same) =
        Memᴰ.of_map (λ (p : String × TokenRefresh). p.1) self.tokens_to_refresh m in
      let (own, found) = keyed k r n in
      subst (λ z. Dict.get z.token.token self.tokens_to_refresh ≡ some z) same
        (subst (λ s. Dict.get s self.tokens_to_refresh ≡ some r) own found)

  -- a registered record is in the table, or is the new one, whose secret the table lacks
  origin :
      (x : TokenRefresh)
      → Memᴰ x registered
      → (Dict.get x.token.token self.tokens_to_refresh ≡ some x)
        ⊎ ((x ≡ Types.new token etag) × (Dict.get x.token.token self.tokens_to_refresh ≡ none))
  unfolding Types.new
  origin x m = elim (Memᴰ.append_cases (values self.tokens_to_refresh) m) [
    | inl listed ↦ inl (listed_found x listed)
    | inr new ↦ elim (Memᴰ.cases_cons new) [
      | inl same ↦ inr (
        same,
        subst (λ z. Dict.get z.token.token self.tokens_to_refresh ≡ none) (sym same)
            (ground (arith, new_token, contains_key-get token.token self.tokens_to_refresh)),
      )
      | inr none_left ↦ absurd (Memᴰ.not-nil none_left)
    ]
  ]

  secrets_distinct :
      (x y : TokenRefresh)
      → Memᴰ x registered
      → Memᴰ y registered
      → x.token.token ≡ y.token.token
      → x ≡ y
  secrets_distinct x y m n same =
      let at = ap (λ s. Dict.get s self.tokens_to_refresh) same in
      elim (origin x m) [
        | inl f ↦ elim (origin y n) [
          | inl g ↦ ground (arith, at, f, g)
          | inr (h, g) ↦ ground (arith, at, f, g)
        ]
        | inr (h, f) ↦ elim (origin y n) [
          | inl g ↦ ground (arith, at, f, g)
          | inr (i, g) ↦ h ∙ sym i
        ]
      ]

  -- Each record of the simplified set is found under its secret afterwards.
  register_token_finds :
      (r : TokenRefresh)
      → Memᴰ r (simplify registered)
      → Dict.get r.token.token (register_token_for_refresh u e token etag self).tokens_to_refresh
        ≡ some r
  unfolding register_token_for_refresh
  register_token_finds r m =
      let minimum = simplify registered in
      let keys : List String = map (λ x. x.token.token) minimum in
      let all = insert_refreshes minimum self.tokens_to_refresh in
      let found =
        insert_refreshes_finds minimum self.tokens_to_refresh r
          (λ x n.
            secrets_distinct x r (simplify-irredundant registered n).0
              (simplify-irredundant registered m).0)
          m in
      let listed =
        contains_of_mem string_lawful keys r.token.token
          (Memᴰ.map (λ (x : TokenRefresh). x.token.token) m) in
      rw new_token (
        ground (
          arith,
          found,
          listed,
          get-retain r.token.token (contains keys) all
              (λ i h. ap (contains keys) ((eq_iff i r.token.token).0 h)),
        ))

  -- a secret that is found afterwards is one of the simplified set
  found_secret :
      (k : String) (r : TokenRefresh)
      → Dict.get k (register_token_for_refresh u e token etag self).tokens_to_refresh ≡ some r
      → contains (map (λ (x : TokenRefresh). x.token.token) (simplify registered)) k ≡ true
  unfolding register_token_for_refresh
  found_secret k r h =
      let minimum = simplify registered in
      let keys : List String = map (λ x. x.token.token) minimum in
      let all = insert_refreshes minimum self.tokens_to_refresh in
      let kept =
        get-retain k (contains keys) all (λ i h'. ap (contains keys) ((eq_iff i k).0 h')) in
      ground (arith, h, kept, new_token)

  -- Registering a token that is not registered yet, in a table where each record stands under its own
  -- secret, leaves exactly the records of the simplified set to fetch with, each under its secret.
  pub register_token_iff :
      (k : String) (r : TokenRefresh)
      → (Dict.get k (register_token_for_refresh u e token etag self).tokens_to_refresh ≡ some r)
        ↔ (Memᴰ r (simplify registered) × (r.token.token ≡ k))
  register_token_iff k r =
      let after = (register_token_for_refresh u e token etag self).tokens_to_refresh in
      let secrets : List String = map (λ x. x.token.token) (simplify registered) in
      (
        λ h.
            let (x, m, own) =
              Memᴰ.of_map (λ (x : TokenRefresh). x.token.token) (simplify registered)
                (mem_of_contains string_lawful secrets k (found_secret k r h)) in
            let same : x ≡ r =
              ground (arith, h, register_token_finds x m, ap (λ s. Dict.get s after) own) in
            subst (λ z. Memᴰ z (simplify registered) × (z.token.token ≡ k)) same (m, own),
        λ (m, own). subst (λ s. Dict.get s after ≡ some r) own (register_token_finds r m),
      )

  -- Registering a token that is not registered yet leaves, for it and for each token registered before,
  -- a token to fetch with of the same environment that has all its projects. Each record of the table
  -- stands under its own secret, and no two of the tokens subsume each other under different secrets.
  pub register_token-Covers :
      IsAntisymmetric registered
      → (t : TokenRefresh) → Memᴰ t registered
      → (r : TokenRefresh) × Memᴰ r
          (values (register_token_for_refresh u e token etag self).tokens_to_refresh)
        × Covers r.token t.token
  register_token-Covers anti t m =
      let (r, n, covers) = simplify-Covers registered anti m in
      let after = (register_token_for_refresh u e token etag self).tokens_to_refresh in
      (
        r,
        Memᴰ.map (λ (p : String × TokenRefresh). p.1)
            (mem_of_get string_lawful r.token.token after (register_token_finds r n)),
        covers,
      )
