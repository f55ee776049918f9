-- ===== src/Backstage/Hidden.antt =====
-- The listing of tokens: when it is answered.
use mathlib.Core.List.Memᴰ
use mathlib.Core.Option
use unleash_edge.Prelude.{
  ◌≡◌, ◌⊎◌, ◌↔◌, refl, sym, ◌∙◌, ap, String, Option, none, some, List, [], ◌∷◌, map, Memᴰ, arith,
  Option-cases, inl, inr, subst, string_lawful,
}
use unleash_edge.Dict.{values}
use Prim.Native.String.{◌++◌ as append_text}
use unleash_edge.Dict.Laws.{mem_of_get}
use unleash_edge.Error.{Result, ok}
use unleash_edge.Text.{split}
use unleash_edge.Types.{EdgeToken, TokenRefresh}
use unleash_edge.Tokens.{anonymize_token, clean_hash}
use unleash_edge.Features.{UnleashTypes, Engine}
use unleash_edge.TokenValidator.{TokenValidator, register_tokens}
use unleash_edge.TokenValidator.Register.{unknown_tokens, register_tokens_decides, Decided-secret}
use unleash_edge.Refresher.State.{Refresher}
use unleash_edge.Backstage.{collect_all, anonymize_refresh, get_token_info}

-- A secret whose second piece is not hidden: it is shorter than six bytes, or a piece of six bytes ends
-- inside a character.
abbrev pub IsUnhidden : EdgeToken → Type 0
IsUnhidden t =
    (p hash : String) × (rest : List String) × (split b'.' t.token ≡ p ∷ hash ∷ rest)
    × (clean_hash hash ≡ none)

mapped_none : {A B : Type 0} (f : A → B) (o : Option A) → Option.map f o ≡ none → o ≡ none
mapped_none f none h = refl
mapped_none f (some a) h = absurd (ground arith)

-- the cases of the pieces of a secret
abbrev hidden : EdgeToken → List String → Option EdgeToken
hidden t [] = some t
hidden t (p ∷ []) = some t
hidden t (p ∷ hash ∷ rest) =
    Option.map (λ safe_hash. record t { token = append_text p (append_text "." safe_hash) })
      (clean_hash hash)

hidden_lem :
    (t : EdgeToken) (l : List String) → split b'.' t.token ≡ l → anonymize_token t ≡ hidden t l
unfolding anonymize_token
hidden_lem t [] h = rw (h, anonymize_token) refl
hidden_lem t (p ∷ []) h = rw (h, anonymize_token) refl
hidden_lem t (p ∷ hash ∷ rest) h = rw (h, anonymize_token) refl

IsUnhidden-pieces :
    (t : EdgeToken) (l : List String) → split b'.' t.token ≡ l → hidden t l ≡ none → IsUnhidden t
IsUnhidden-pieces t [] e h = absurd (ground arith)
IsUnhidden-pieces t (p ∷ []) e h = absurd (ground arith)
IsUnhidden-pieces t (p ∷ hash ∷ rest) e h = (p, hash, rest, e, mapped_none _ (clean_hash hash) h)

anonymize_none_iff : (t : EdgeToken) → (anonymize_token t ≡ none) ↔ IsUnhidden t
anonymize_none_iff t = (
  λ h.
      IsUnhidden-pieces t (split b'.' t.token) refl
        (sym (hidden_lem t (split b'.' t.token) refl) ∙ h),
  λ (p, hash, rest, e, n). hidden_lem t (p ∷ hash ∷ rest) e ∙ rw n refl,
)

collect_all-none_iff :
    {A B : Type 0} (f : A → Option B) (l : List A)
    → (collect_all f l ≡ none) ↔ ((x : A) × Memᴰ x l × (f x ≡ none))
unfolding collect_all Option.bind
collect_all-none_iff f [] = (λ h. absurd (ground arith), λ (x, m, h). absurd (Memᴰ.not-nil m))
collect_all-none_iff f (x ∷ xs) = (
  λ h. elim (Option-cases (f x)) [
    | inl n ↦ (x, Memᴰ.head refl, n)
    | inr (y, e) ↦
        let (z, m, n) = (collect_all-none_iff f xs).0 (ground (arith, rw e at h)) in
        (z, Memᴰ.tail m, n)
  ],
  λ (z, m, n). elim (Memᴰ.cases_cons m) [
    | inl same ↦ ground (arith, same, n)
    | inr o ↦ elim (Option-cases (f x)) [
      | inl e ↦ rw e refl
      | inr (y, e) ↦ rw (e, (collect_all-none_iff f xs).1 (z, o, n)) refl
    ]
  ],
)

anonymize_refresh-none_iff : (r : TokenRefresh) → (anonymize_refresh r ≡ none) ↔ IsUnhidden r.token
unfolding anonymize_refresh
anonymize_refresh-none_iff r = (
  λ h. (anonymize_none_iff r.token).0 (mapped_none _ (anonymize_token r.token) h),
  λ w. rw ((anonymize_none_iff r.token).1 w) refl,
)

module _ (u : UnleashTypes) (e : Engine u) where
  -- a token of the refresher or of the validator
  abbrev pub Listed : EdgeToken → Refresher u e → TokenValidator → Type 0
  Listed t feature_refresher token_validator =
      ((r : TokenRefresh) × Memᴰ r (values feature_refresher.tokens_to_refresh) × (r.token ≡ t))
      ⊎ Memᴰ t (values token_validator.token_cache)

  -- The listing of tokens panics exactly if a token of the refresher or of the validator has a secret
  -- whose second piece cannot be hidden.
  pub get_token_info_panics_iff :
      (feature_refresher : Refresher u e) (token_validator : TokenValidator)
      → (get_token_info u e feature_refresher token_validator ≡ none)
        ↔ ((t : EdgeToken) × Listed t feature_refresher token_validator × IsUnhidden t)
  unfolding get_token_info Option.bind
  get_token_info_panics_iff feature_refresher token_validator =
      let refreshes = values feature_refresher.tokens_to_refresh in
      let tokens = values token_validator.token_cache in
      (
        λ h. elim (Option-cases (collect_all anonymize_refresh refreshes)) [
          | inl n ↦
              let (r, m, w) = (collect_all-none_iff anonymize_refresh refreshes).0 n in
              (r.token, inl (r, m, refl), (anonymize_refresh-none_iff r).0 w)
          | inr (l, some_refreshes) ↦
              let n = mapped_none _ (collect_all anonymize_token tokens) (rw some_refreshes at h) in
              let (t, m, w) = (collect_all-none_iff anonymize_token tokens).0 n in
              (t, inr m, (anonymize_none_iff t).0 w)
        ],
        λ (t, listed, w). elim listed [
          | inl (r, m, same) ↦
              rw
                ((collect_all-none_iff anonymize_refresh refreshes).1
                  (r, m, (anonymize_refresh-none_iff r).1 (subst IsUnhidden (sym same) w)))
                refl
          | inr m ↦
              let n =
                (collect_all-none_iff anonymize_token tokens).1
                  (t, m, (anonymize_none_iff t).1 w) in
              elim (Option-cases (collect_all anonymize_refresh refreshes)) [
                | inl none_of ↦ rw none_of refl
                | inr (l, some_refreshes) ↦ rw (some_refreshes, n) refl
              ]
        ],
      )

  -- Once an unknown secret has been presented that cannot be hidden and that upstream was asked about,
  -- valid or not, the listing of tokens panics.
  pub registered_unhidden :
      (upsert : List EdgeToken → List EdgeToken → List EdgeToken)
      (validate : List String → Result (List EdgeToken)) (tokens : List String) (v : TokenValidator)
      (feature_refresher : Refresher u e) (r : List EdgeToken) (t : EdgeToken)
      → validate (map (λ t. t.token) (unknown_tokens upsert validate tokens v)) ≡ ok r
      → Memᴰ t (unknown_tokens upsert validate tokens v)
      → IsUnhidden t
      → get_token_info u e feature_refresher (register_tokens upsert validate tokens v).0 ≡ none
  registered_unhidden upsert validate tokens v feature_refresher r t answered m
        (p, hash, rest, pieces, n) =
      let (s, g, d) = (register_tokens_decides upsert validate tokens v r answered).0 t m in
      let secret = Decided-secret r t.token s d in
      let there =
        Memᴰ.map (λ (x : String × EdgeToken). x.1)
          (mem_of_get string_lawful t.token (register_tokens upsert validate tokens v).0.token_cache
            g) in
      (get_token_info_panics_iff feature_refresher (register_tokens upsert validate tokens v).0).1
        (s, inr there, (p, hash, rest, ap (split b'.') secret ∙ pieces, n))
