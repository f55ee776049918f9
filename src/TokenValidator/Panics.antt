-- ===== src/TokenValidator/Panics.antt =====
-- Registering a single text: when it panics.

use unleash_edge.Prelude.{
  ◌≡◌, ◌≢◌, ◌↔◌, inl, inr, refl, String, false, none, List, [], ◌∷◌, string_eq, is_none, is_empty,
  filter, filter_map, if◌then◌else◌, Bool-cases, arith,
}
use unleash_edge.Dict.{Dict}
use unleash_edge.Error.{Result-cases, EdgeError, Result, ok, err}
use unleash_edge.Types.{EdgeToken}
use unleash_edge.Tokens.{from_str}
use unleash_edge.TokenValidator.{
  TokenValidator, get_unknown_and_known_tokens, parse, owned_token, sink_token, register_unknown,
  register_tokens, first_token, register_token,
}

first_token-ne-none : (l : List EdgeToken) → is_empty l ≡ false → first_token (ok l) ≢ none
unfolding first_token
first_token-ne-none [] h e = cc
first_token-ne-none (t ∷ ts) h e = cc

-- one token, as unknown or as known
abbrev divided : EdgeToken → List EdgeToken × List EdgeToken
divided o = if is_none o.token_type then (o ∷ [], []) else ([], o ∷ [])

split_bad :
    (cache : Dict String EdgeToken) (text : String) (e : EdgeError)
    → from_str text ≡ err e
    → get_unknown_and_known_tokens cache (text ∷ []) ≡ ([], [])
unfolding get_unknown_and_known_tokens filter_map filter
split_bad cache text e bad =
    let none_read : filter_map parse (text ∷ []) ≡ [] = unfold parse in ground arith in rw none_read

split_good :
    (cache : Dict String EdgeToken) (text : String) (t : EdgeToken)
    → from_str text ≡ ok t
    → let o = owned_token cache t in get_unknown_and_known_tokens cache (text ∷ []) ≡ divided o
unfolding get_unknown_and_known_tokens filter_map filter
split_good cache text t good =
    let one_read : filter_map parse (text ∷ []) ≡ t ∷ [] = unfold parse in ground arith in
    rw one_read (ground arith)

module _ (upsert : List EdgeToken → List EdgeToken → List EdgeToken)
    (validate : List String → Result (List EdgeToken)) (v : TokenValidator)
    (keeps : (t : EdgeToken) (ts ks : List EdgeToken) → is_empty (upsert (t ∷ ts) ks) ≡ false) where
  one_unknown :
      (o : EdgeToken) → first_token (register_unknown upsert validate (o ∷ []) [] v).1 ≢ none
  unfolding register_unknown
  one_unknown o = elim (Result-cases (validate (o.token ∷ []))) [
    | inl (e, failed) ↦ rw (failed, register_unknown) (unfold first_token in λ h. cc)
    | inr (r, answered) ↦
        rw (answered, register_unknown) (first_token-ne-none _ (keeps (sink_token r o) [] []))
  ]

  one_owned :
      (o : EdgeToken)
      → first_token (register_unknown upsert validate (divided o).0 (divided o).1 v).1 ≢ none
  one_owned o = elim (Bool-cases (is_none o.token_type)) [
    | inl t ↦ rw t (one_unknown o)
    | inr f ↦ rw f (unfold register_unknown first_token in λ h. cc)
  ]

  -- Registering a single text panics exactly where the text is no token: nothing is left to take the
  -- first of. It is assumed that `Upsert` leaves something of a list that is not empty.
  pub register_token_panics_iff :
      (text : String)
      → ((register_token upsert validate text v).1 ≡ none)
        ↔ ((e : EdgeError) × (from_str text ≡ err e))
  unfolding register_token register_tokens
  register_token_panics_iff text = elim (Result-cases (from_str text)) [
    | inl (e, bad) ↦ (
      λ _. (e, bad),
      λ _. rw (split_bad v.token_cache text e bad) (unfold register_unknown first_token in refl),
    )
    | inr (t, good) ↦ (
      λ h. absurd (
          one_owned (owned_token v.token_cache t) (rw (split_good v.token_cache text t good) at h)),
      λ (e, h). absurd (cc (good, h)),
    )
  ]
