-- ===== src/TokenValidator/Revalidate.antt =====
-- Asking upstream again about the tokens that were valid.
use mathlib.Core.Option
use mathlib.Core.List.Memᴰ
use unleash_edge.Prelude.{
  nil_of_is_empty, bool_ext, ◌&&◌, ◌≡◌, refl, ap, subst, String, Bool, not, some, List, [], ◌∷◌,
  Memᴰ, string_eq, string_lawful, ◌==◌, is_empty, any, filter, mem-filter, mem_of_mem-filter,
  if◌then◌else◌, Bool-cases, arith, eq_iff, inl, inr,
}
use unleash_edge.Dict
use unleash_edge.Dict.{Dict, contains}
use unleash_edge.Dict.Laws.{mem_of_get, get-alter, contains_of_mem, mem_of_contains}
use unleash_edge.Error.{EdgeError, Result, ok, err}
use unleash_edge.Types.{EdgeToken, TokenValidationStatus}
use unleash_edge.TokenValidator.{
  TokenValidator, status_is, invalidate, tokens_to_validate, revalidate_known_tokens,
}

abbrev pub revoked : EdgeToken → EdgeToken
revoked t = record t { status = TokenValidationStatus.invalid }

abbrev is_valid_entry : String × EdgeToken → Bool
is_valid_entry e = status_is e.1.status TokenValidationStatus.validated

get-invalidate :
    (l : List String) (c : Dict String EdgeToken) (k : String)
    → Dict.get k (invalidate l c)
      ≡ (if contains l k then Option.map revoked (Dict.get k c) else Dict.get k c)
unfolding invalidate contains
get-invalidate [] c k = refl
get-invalidate (x ∷ xs) c k =
    ground (arith, get-invalidate xs (Dict.alter x revoked c) k, get-alter k x revoked c)

-- Each key of the table has one entry.
abbrev pub IsDistinct : Dict String EdgeToken → Type 0
IsDistinct c = (k : String) (t : EdgeToken) → Memᴰ (k, t) c → Dict.get k c ≡ some t

asked_status :
    (c : Dict String EdgeToken) (k : String) (t : EdgeToken)
    → IsDistinct c
    → Dict.get k c ≡ some t
    → contains (tokens_to_validate c) k ≡ status_is t.status TokenValidationStatus.validated
unfolding tokens_to_validate
asked_status c k t distinct g =
    bool_ext _ _
      (λ h.
        let (e, m, same) =
          Memᴰ.of_map (λ (e : String × EdgeToken). e.0) _ (mem_of_contains string_lawful _ k h) in
        let (n, st) = mem_of_mem-filter is_valid_entry c m in
        let g' = subst (λ j. Dict.get j c ≡ some e.1) same (distinct e.0 e.1 n) in ground arith)
      (λ h. contains_of_mem string_lawful _ k (
        Memᴰ.map (λ (e : String × EdgeToken). e.0)
          (mem-filter is_valid_entry c (mem_of_get string_lawful k c g) h)))

contains-filter :
    (p : String → Bool) (l : List String) (k : String)
    → contains (filter p l) k ≡ (contains l k && p k)
unfolding contains filter
contains-filter p [] k = refl
contains-filter p (x ∷ xs) k = elim (Bool-cases (x == k)) [
  | inl t ↦ ground (arith, contains-filter p xs k, (eq_iff x k).0 t, ap p ((eq_iff x k).0 t))
  | inr f ↦ ground (arith, contains-filter p xs k)
]

-- whether upstream's answer lacks the secret
abbrev pub is_missing : List EdgeToken → String → Bool
is_missing valid_tokens t = not (any (λ e. e.token == t) valid_tokens)

cache_after :
    (validate : List String → Result (List EdgeToken)) (v : TokenValidator) (valid : List EdgeToken)
    → validate (tokens_to_validate v.token_cache) ≡ ok valid
    → (revalidate_known_tokens validate v).token_cache
      ≡ invalidate (filter (is_missing valid) (tokens_to_validate v.token_cache)) v.token_cache
unfolding revalidate_known_tokens
cache_after validate v valid e = elim (Bool-cases (is_empty (tokens_to_validate v.token_cache))) [
  | inl t ↦
      let nothing = nil_of_is_empty (tokens_to_validate v.token_cache) t in
      unfold filter invalidate in ground (arith, nothing)
  | inr f ↦ rw (f, e, revalidate_known_tokens)
]

-- Revalidation turns exactly those cached tokens invalid that were valid and that upstream's answer
-- lacks: it changes nothing else of them, and no other token. Without an answer nothing changes.
pub revalidate_effect :
    (validate : List String → Result (List EdgeToken)) (v : TokenValidator)
    → IsDistinct v.token_cache
    → ((valid : List EdgeToken) (k : String) (t : EdgeToken)
        → validate (tokens_to_validate v.token_cache) ≡ ok valid
        → Dict.get k v.token_cache ≡ some t
        → Dict.get k (revalidate_known_tokens validate v).token_cache
          ≡ some (
              if status_is t.status TokenValidationStatus.validated && is_missing valid k
              then revoked t
              else t))
      × ((x : EdgeError)
          → validate (tokens_to_validate v.token_cache) ≡ err x
          → revalidate_known_tokens validate v ≡ v)
unfolding revalidate_known_tokens
revalidate_effect validate v distinct = (
  λ valid k t answered g. rw (cache_after validate v valid answered) (
      ground (
        arith,
        get-invalidate (filter (is_missing valid) (tokens_to_validate v.token_cache)) v.token_cache
            k,
        contains-filter (is_missing valid) (tokens_to_validate v.token_cache) k,
        asked_status v.token_cache k t distinct g,
      )),
  λ x failed. ground arith,
)
