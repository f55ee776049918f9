-- ===== src/EdgeApi/Validated.antt =====
-- What the endpoint answers.

use unleash_edge.Prelude.{
  ◌≡◌, sym, subst, String, true, List, Memᴰ, string_eq, filter, mem_of_mem-filter,
}
use unleash_edge.Error.{Result, ok, bind-ok, ok_inj}
use unleash_edge.Types.{EdgeToken}
use unleash_edge.TokenValidator.{TokenValidator, register_tokens}
use unleash_edge.EdgeApi.{is_validated, validate}

-- Every token that is answered is validated, and is one that the registration gave.
pub validate_sound :
    (upsert : List EdgeToken → List EdgeToken → List EdgeToken)
    (upstream : List String → Result (List EdgeToken)) (tokens : List String) (v : TokenValidator)
    (l : List EdgeToken) (t : EdgeToken)
    → (validate upsert upstream tokens v).1 ≡ ok l
    → Memᴰ t l
    → (is_validated t ≡ true)
      × ((known : List EdgeToken) × ((register_tokens upsert upstream tokens v).1 ≡ ok known)
          × Memᴰ t known)
unfolding validate
validate_sound upsert upstream tokens v l t h m =
    let (known, good, same) =
      bind-ok (register_tokens upsert upstream tokens v).1 (λ l. ok (filter is_validated l)) l h in
    let (n, valid) =
      mem_of_mem-filter is_validated known (subst (Memᴰ t) (sym (ok_inj _ _ same)) m) in
    (valid, (known, good, n))
