-- ===== src/Tokens/Simplified.antt =====
-- `simplify`: what the simplified set has, and what it covers.
use mathlib.Core.List.Memᴰ
use unleash_edge.Prelude.{
  option_lawful, string_lawful, ◌≢◌, filter_map-mem, mem_of_filter_map, String, ◌⊎◌, eq_iff, ◌≡◌,
  refl, sym, ap, not, ◌&&◌, Option, none, some, List, [], ◌∷◌, arith, ◌==◌, inl, inr, Bool-cases,
  Memᴰ, filter_map, try_fold, string_eq, lawful,
}
use unleash_edge.Dict.{contains}
use unleash_edge.Dict.Laws.{mem_of_contains}
use unleash_edge.Types.{TokenRefresh}
use unleash_edge.Tokens.{
  unique_key, unique_key_lawful, filter_unique_from, filter_unique_tokens, keep_unless_subsumed,
  subsumes, simplify, same_environment_and_broader_or_equal_project_access,
}
use unleash_edge.Tokens.Climb.{climb, climb-Subsumes, climb-mem, climb_top}
use unleash_edge.Tokens.Coverage.{broader_refl, Covers, Subsumes, Covers-trans, Covers-of_Subsumes}

-- Two tokens of the list that subsume each other are one and the same secret.
pub record IsAntisymmetric (l : List TokenRefresh) : Type 0 where
  pub same :
      (a b : TokenRefresh)
      → Memᴰ a l
      → Memᴰ b l
      → Subsumes a.token b.token
      → Subsumes b.token a.token
      → a.token.token ≡ b.token.token

-- The uniques are among the tokens that were given.
filter_unique_from-mem :
    (seen : List _) (ts : List TokenRefresh) {t : TokenRefresh}
    → Memᴰ t (filter_unique_from seen ts)
    → Memᴰ t ts
unfolding filter_unique_from
filter_unique_from-mem seen [] m = absurd (Memᴰ.not-nil m)
filter_unique_from-mem seen (x ∷ ts) m =
    elim (Bool-cases (contains ⦃e = lawful unique_key_lawful⦄ seen (unique_key x))) [
      | inl old ↦ Memᴰ.tail (filter_unique_from-mem seen ts (rw old at m))
      | inr new ↦ elim (Memᴰ.cases_cons (rw new at m)) [
        | inl e ↦ Memᴰ.head e
        | inr r ↦ Memᴰ.tail (filter_unique_from-mem (unique_key x ∷ seen) ts r)
      ]
    ]

-- the fold keeps its token if nothing in the list subsumes it under another secret
fold_keeps :
    (t : TokenRefresh) (l : List TokenRefresh)
    → ((u : TokenRefresh) → Memᴰ u l → Subsumes u.token t.token → u.token.token ≡ t.token.token)
    → try_fold keep_unless_subsumed t l ≡ some t
unfolding try_fold keep_unless_subsumed
fold_keeps t [] h = refl
fold_keeps t (u ∷ us) h = ground (
  arith,
  h u (Memᴰ.head refl),
  eq_iff u.token.token t.token.token,
  fold_keeps t us (λ v m. h v (Memᴰ.tail m)),
)

keep-cases :
    (t u : TokenRefresh)
    → (keep_unless_subsumed t u ≡ none)
      ⊎ ((keep_unless_subsumed t u ≡ some t)
          × (Subsumes u.token t.token → u.token.token ≡ t.token.token))
unfolding keep_unless_subsumed
keep-cases t u =
    elim (Bool-cases (not (u.token.token == t.token.token) && subsumes u.token t.token)) [
      | inl stop ↦ inl (rw stop)
      | inr go ↦ inr (rw go, λ s. ground (arith, eq_iff u.token.token t.token.token))
    ]

-- and returns its own token, if any
fold_result :
    (t : TokenRefresh) (l : List TokenRefresh) {r : TokenRefresh}
    → try_fold keep_unless_subsumed t l ≡ some r
    → (r ≡ t)
      × ((u : TokenRefresh) → Memᴰ u l → Subsumes u.token t.token → u.token.token ≡ t.token.token)
unfolding try_fold
fold_result t [] {r} h = (ground arith, λ u m s. absurd (Memᴰ.not-nil m))
fold_result t (x ∷ xs) h = elim (keep-cases t x) [
  | inl e ↦ absurd (cc (rw (e, try_fold) at h))
  | inr (e, only) ↦
      let (same, rest) = fold_result t xs (rw (e, try_fold) at h) in
      (
        same,
        λ u m s. elim (Memᴰ.cases_cons m) [ inl p ↦ rw p (only (rw p at s)) | inr n ↦ rest u n s ],
      )
]

-- a token is unique, or its key was seen, or the first token with its key is unique
unique_with_key :
    (seen : List (List String × Option String)) (ts : List TokenRefresh) {t : TokenRefresh}
    → Memᴰ t ts
    → Memᴰ (unique_key t) seen
      ⊎ ((u : TokenRefresh) × Memᴰ u (filter_unique_from seen ts) × (unique_key u ≡ unique_key t))
unfolding filter_unique_from
unique_with_key seen [] m = absurd (Memᴰ.not-nil m)
unique_with_key seen (x ∷ xs) {t} m =
    elim (Bool-cases (contains ⦃e = lawful unique_key_lawful⦄ seen (unique_key x))) [
      | inl old ↦ rw old (elim (Memᴰ.cases_cons m) [
        | inl e ↦ inl (rw e (mem_of_contains unique_key_lawful seen (unique_key x) old))
        | inr n ↦ unique_with_key seen xs n
      ])
      | inr new ↦ rw new (elim (Memᴰ.cases_cons m) [
        | inl e ↦ inr (x, Memᴰ.head refl, ap unique_key (sym e))
        | inr n ↦ elim (unique_with_key (unique_key x ∷ seen) xs n) [
          | inr (u, k, same) ↦ inr (u, Memᴰ.tail k, same)
          | inl k ↦ elim (Memᴰ.cases_cons k) [
            | inl same ↦ inr (x, Memᴰ.head refl, sym same)
            | inr k' ↦ inl k'
          ]
        ]
      ])
    ]

-- Every token of the simplified set is one of the tokens that were given, and no other token of the
-- set, under another secret, subsumes it.
pub simplify-irredundant :
    (ts : List TokenRefresh) {t : TokenRefresh}
    → Memᴰ t (simplify ts)
    → Memᴰ t ts
      × ((u : TokenRefresh)
          → Memᴰ u (simplify ts)
          → Subsumes u.token t.token
          → u.token.token ≡ t.token.token)
unfolding simplify filter_unique_tokens
simplify-irredundant ts {t} m =
    let (a, ma, ha) = mem_of_filter_map (λ x. try_fold keep_unless_subsumed x _) _ m in
    let (same, only) = fold_result a (filter_unique_from [] ts) ha in
    (
      rw same (filter_unique_from-mem [] ts ma),
      λ u mu s.
          let (b, mb, hb) = mem_of_filter_map (λ x. try_fold keep_unless_subsumed x _) _ mu in
          let e = (fold_result b (filter_unique_from [] ts) hb).0 in
          rw (e, same) (only b mb (rw (e, same) at s)),
    )

same_key-Covers : (a b : TokenRefresh) → unique_key a ≡ unique_key b → Covers a.token b.token
unfolding same_environment_and_broader_or_equal_project_access
same_key-Covers a b h = ground (
  arith,
  ap (λ (k : List String × Option String). k.0) h,
  ap (λ (k : List String × Option String). k.1) h,
  broader_refl b.token.projects,
  (option_lawful string_lawful).beq_iff a.token.environment b.token.environment,
)

-- Where no two of the tokens subsume each other under different secrets, each token that was given is
-- covered by one of the simplified set: same environment, and all its projects.
pub simplify-Covers :
    (ts : List TokenRefresh) {t : TokenRefresh}
    → IsAntisymmetric ts
    → Memᴰ t ts
    → (u : TokenRefresh) × Memᴰ u (simplify ts) × Covers u.token t.token
unfolding simplify filter_unique_tokens
simplify-Covers ts {t} anti m = elim (unique_with_key [] ts m) [
  | inl k ↦ absurd (Memᴰ.not-nil k)
  | inr (u, mu, same) ↦
      let uniques = filter_unique_from [] ts in
      let top = climb u uniques in
      let mtop : Memᴰ top uniques = climb-mem u uniques uniques mu (λ v n. n) in
      let kept = fold_keeps top uniques (λ v n s.
        anti.same v top (filter_unique_from-mem [] ts n) (filter_unique_from-mem [] ts mtop) s
          (climb_top u uniques n s)) in
      (
        top,
        filter_map-mem (λ x. try_fold keep_unless_subsumed x uniques) uniques mtop kept,
        Covers-trans top.token u.token t.token (Covers-of_Subsumes _ _ (climb-Subsumes u uniques))
            (same_key-Covers u t same),
      )
]

keep_same : (t : TokenRefresh) → keep_unless_subsumed t t ≡ some t
unfolding keep_unless_subsumed
keep_same t = ground (arith, eq_iff t.token.token t.token.token)

keep_stop :
    (t u : TokenRefresh)
    → u.token.token ≢ t.token.token
    → Subsumes u.token t.token
    → keep_unless_subsumed t u ≡ none
unfolding keep_unless_subsumed
keep_stop t u ne s = ground (arith, eq_iff u.token.token t.token.token)

unique_pair :
    (a b : TokenRefresh)
    → unique_key a ≢ unique_key b
    → filter_unique_tokens (a ∷ b ∷ []) ≡ a ∷ b ∷ []
unfolding filter_unique_tokens filter_unique_from contains
unique_pair a b nk = elim (Bool-cases (unique_key_lawful.beq (unique_key a) (unique_key b))) [
  | inl e ↦ absurd (nk ((unique_key_lawful.beq_iff (unique_key a) (unique_key b)).0 e))
  | inr n ↦ rw (n, contains) refl
]

-- Two tokens under different secrets, with different projects or environments, that subsume each
-- other (such as the projects `a, b` and `b, a`, or `*` and `*, a`) leave nothing to fetch with.
pub simplify_mutual :
    (a b : TokenRefresh)
    → a.token.token ≢ b.token.token
    → unique_key a ≢ unique_key b
    → Subsumes a.token b.token
    → Subsumes b.token a.token
    → simplify (a ∷ b ∷ []) ≡ []
unfolding simplify filter_map try_fold
simplify_mutual a b ne nk ab ba =
    let first : try_fold keep_unless_subsumed a (a ∷ b ∷ []) ≡ none =
      ground (arith, keep_same a, keep_stop a b (λ e. ne (sym e)) ba) in
    let second : try_fold keep_unless_subsumed b (a ∷ b ∷ []) ≡ none =
      ground (arith, keep_stop b a ne ab) in
    rw (unique_pair a b nk) (rw (first, filter_map) (rw (second, filter_map)))
