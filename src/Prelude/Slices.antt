-- ===== src/Prelude/Slices.antt =====
-- Slices of lists: `skip`, `take`, `flatten`, and ranges of numbers.
use Prim.Native.Nat.{ℕ, zero, suc, ◌+◌, ◌≤◌}
use mathlib.Core.Path.{◌≡◌, refl, ap, ◌∙◌}
use mathlib.Core.List.{List, [], ◌∷◌, ◌++◌}
use native.Mathlib.Omega.{arith}
use native.Mathlib.Numerals.{unary_clauses}
use unleash_edge.Prelude.Lists.{length, take, skip}

module _ {ℓ} {A : Type ℓ} where
  pub skip-skip : (m n : ℕ) (xs : List A) → skip (m + n) xs ≡ skip n (skip m xs)
  unfolding skip
  skip-skip zero n xs = let e : 0 + n ≡ n = omega arith in ap (λ k. skip k xs) e
  skip-skip (suc m) zero [] = simp unary_clauses refl
  skip-skip (suc m) (suc n) [] = simp unary_clauses refl
  skip-skip (suc m) n (x ∷ xs) =
      let e : suc m + n ≡ suc (m + n) = omega arith in
      ap (λ k. skip k (x ∷ xs)) e ∙ skip-skip m n xs

  pub take-skip : (m n : ℕ) (xs : List A) → take m xs ++ take n (skip m xs) ≡ take (m + n) xs
  unfolding take skip
  take-skip zero n xs = let e : n ≡ 0 + n = omega arith in ap (λ k. take k xs) e
  take-skip (suc m) zero [] = simp unary_clauses refl
  take-skip (suc m) (suc n) [] = simp unary_clauses refl
  take-skip (suc m) n (x ∷ xs) =
      let e : suc (m + n) ≡ suc m + n = omega arith in
      ap (λ l. x ∷ l) (take-skip m n xs) ∙ ap (λ k. take k (x ∷ xs)) e

  pub take-all : (xs : List A) → take (length xs) xs ≡ xs
  unfolding take
  take-all [] = refl
  take-all (x ∷ xs) = ap (λ l. x ∷ l) (take-all xs)

  pub take_enough : (n : ℕ) (xs : List A) → length xs ≤ n → take n xs ≡ xs
  unfolding take
  take_enough zero [] h = refl
  take_enough zero (x ∷ xs) h = absurd (omega arith)
  take_enough (suc n) [] h = refl
  take_enough (suc n) (x ∷ xs) h = ap (λ l. x ∷ l) (take_enough n xs (omega arith))

  pub length_of_take : (n : ℕ) (xs : List A) → take n xs ≡ xs → length xs ≤ n
  unfolding take
  length_of_take zero [] h = omega arith
  length_of_take zero (x ∷ xs) h = absurd (cc)
  length_of_take (suc n) [] h = omega arith
  length_of_take (suc n) (x ∷ xs) h =
      let shorter = length_of_take n xs (ground (arith, ap (skip 1) h)) in omega arith

  -- `Iterator::flatten`
  unfoldable pub flatten : List (List A) → List A
  flatten [] = []
  flatten (xs ∷ rest) = xs ++ flatten rest

-- `start..start + count`
unfoldable pub range_from : ℕ → ℕ → List ℕ
range_from start zero = []
range_from start (suc count) = start ∷ range_from (suc start) count
