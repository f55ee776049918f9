-- ===== src/Prelude/Lists.antt =====
-- Lists over the native numbers, and the iterator methods that the program uses.
use Prim.Native.Nat.{ℕ, zero, suc}
use mathlib.Core.Path.{◌≡◌, refl, ap, sym, ◌∙◌}
use mathlib.Core.Bool.{Bool, true, false, ◌&&◌, ◌||◌}
use mathlib.Core.Option.{Option, none, some}
use mathlib.Core.List.{List, [], ◌∷◌, Memᴰ}
use mathlib.Core.List.Memᴰ
use mathlib.Core.Logic.{inl, inr}
use native.Mathlib.Omega.{arith}
use unleash_edge.Prelude.Tests.{if◌then◌else◌, Bool-cases, Option-cases}

module _ {ℓ} {A : Type ℓ} where
  abbrev pub length : List A → ℕ
  length [] = 0
  length (x ∷ xs) = suc (length xs)

  -- `Vec::is_empty`
  abbrev pub is_empty : List A → Bool
  is_empty [] = true
  is_empty (x ∷ xs) = false

  pub nil_of_is_empty : (xs : List A) → is_empty xs ≡ true → xs ≡ []
  nil_of_is_empty [] h = refl
  nil_of_is_empty (x ∷ xs) h = cc

  -- `Iterator::all`
  unfoldable pub all : (A → Bool) → List A → Bool
  all p [] = true
  all p (x ∷ xs) = p x && all p xs

  -- `Iterator::any`
  unfoldable pub any : (A → Bool) → List A → Bool
  any p [] = false
  any p (x ∷ xs) = p x || any p xs

  -- `Iterator::find`
  unfoldable pub find : (A → Bool) → List A → Option A
  find p [] = none
  find p (x ∷ xs) = if p x then some x else find p xs

  -- `Iterator::filter` with `collect`
  unfoldable pub filter : (A → Bool) → List A → List A
  filter p [] = []
  filter p (x ∷ xs) = let rest = filter p xs in if p x then x ∷ rest else rest

  -- `Iterator::take`
  unfoldable pub take : ℕ → List A → List A
  take zero xs = []
  take (suc n) [] = []
  take (suc n) (x ∷ xs) = x ∷ take n xs

  -- `Iterator::skip`
  unfoldable pub skip : ℕ → List A → List A
  skip zero xs = xs
  skip (suc n) [] = []
  skip (suc n) (x ∷ xs) = skip n xs

  pub mem-filter :
      {a : A} (p : A → Bool) (xs : List A) → Memᴰ a xs → p a ≡ true → Memᴰ a (filter p xs)
  unfolding filter
  mem-filter p [] m h = absurd (Memᴰ.not-nil m)
  mem-filter p (x ∷ xs) (Memᴰ.head e) h = rw (← e) (rw h (Memᴰ.head refl))
  mem-filter p (x ∷ xs) (Memᴰ.tail m) h = elim (Bool-cases (p x)) [
    | inl t ↦ rw t (Memᴰ.tail (mem-filter p xs m h))
    | inr f ↦ rw f (mem-filter p xs m h)
  ]

  pub mem_of_mem-filter :
      {a : A} (p : A → Bool) (xs : List A) → Memᴰ a (filter p xs) → Memᴰ a xs × (p a ≡ true)
  unfolding filter
  mem_of_mem-filter p [] m = absurd (Memᴰ.not-nil m)
  mem_of_mem-filter {a} p (x ∷ xs) m = elim (Bool-cases (p x)) [
    | inl t ↦ elim (Memᴰ.cases_cons (rw t at m)) [
      | inl e ↦ (Memᴰ.head e, rw e t)
      | inr r ↦ let (k, h) = mem_of_mem-filter p xs r in (Memᴰ.tail k, h)
    ]
    | inr f ↦ let (k, h) = mem_of_mem-filter p xs (rw f at m) in (Memᴰ.tail k, h)
  ]

  pub all_of_mem : {a : A} (p : A → Bool) (xs : List A) → all p xs ≡ true → Memᴰ a xs → p a ≡ true
  unfolding all
  all_of_mem p [] h m = absurd (Memᴰ.not-nil m)
  all_of_mem p (x ∷ xs) h (Memᴰ.head e) = rw e (ground arith)
  all_of_mem p (x ∷ xs) h (Memᴰ.tail m) = all_of_mem p xs (ground arith) m

  pub all-intro :
      (p : A → Bool) (xs : List A) → ((a : A) → Memᴰ a xs → p a ≡ true) → all p xs ≡ true
  unfolding all
  all-intro p [] h = refl
  all-intro p (x ∷ xs) h =
      ground (arith, h x (Memᴰ.head refl), all-intro p xs (λ a m. h a (Memᴰ.tail m)))

  pub any-intro : {a : A} (p : A → Bool) (xs : List A) → Memᴰ a xs → p a ≡ true → any p xs ≡ true
  unfolding any
  any-intro p [] m h = absurd (Memᴰ.not-nil m)
  any-intro p (x ∷ xs) (Memᴰ.head e) h = ground (arith, ap p e)
  any-intro p (x ∷ xs) (Memᴰ.tail m) h = ground (arith, any-intro p xs m h)

  pub any-elim : (p : A → Bool) (xs : List A) → any p xs ≡ true → (a : A) × Memᴰ a xs × (p a ≡ true)
  unfolding any
  any-elim p [] h = absurd (ground arith)
  any-elim p (x ∷ xs) h = elim (Bool-cases (p x)) [
    | inl t ↦ (x, Memᴰ.head refl, t)
    | inr f ↦ let (a, m, q) = any-elim p xs (ground arith) in (a, Memᴰ.tail m, q)
  ]

  pub find_sound :
      (p : A → Bool) (xs : List A) {a : A} → find p xs ≡ some a → Memᴰ a xs × (p a ≡ true)
  unfolding find
  find_sound p [] h = absurd (ground arith)
  find_sound p (x ∷ xs) h = elim (Bool-cases (p x)) [
    | inl t ↦
        let e = ap {B = A} (λ o. elim o [ none ↦ x | some y ↦ y ]) (rw t at h) in
        (Memᴰ.head (ground arith), ground arith)
    | inr f ↦ let (m, q) = find_sound p xs (rw f at h) in (Memᴰ.tail m, q)
  ]

  pub find-none : (p : A → Bool) (xs : List A) {a : A} → find p xs ≡ none → Memᴰ a xs → p a ≡ false
  unfolding find
  find-none p [] h m = absurd (Memᴰ.not-nil m)
  find-none p (x ∷ xs) h (Memᴰ.head e) = rw e (ground arith)
  find-none p (x ∷ xs) h (Memᴰ.tail m) = find-none p xs (ground arith) m

module _ {ℓ κ} {A : Type ℓ} {B : Type κ} where
  -- `Iterator::filter_map` with `collect`
  unfoldable pub filter_map : (A → Option B) → List A → List B
  filter_map f [] = []
  filter_map f (x ∷ xs) =
      let rest = filter_map f xs in elim (f x) [ none ↦ rest | some b ↦ b ∷ rest ]

  -- `Iterator::try_fold` over `Option`
  unfoldable pub try_fold : (B → A → Option B) → B → List A → Option B
  try_fold f acc [] = some acc
  try_fold f acc (x ∷ xs) = elim (f acc x) [ none ↦ none | some acc' ↦ try_fold f acc' xs ]

  pub filter_map-mem :
      (f : A → Option B) (l : List A) {a : A} {b : B}
      → Memᴰ a l
      → f a ≡ some b
      → Memᴰ b (filter_map f l)
  unfolding filter_map
  filter_map-mem f [] m h = absurd (Memᴰ.not-nil m)
  filter_map-mem f (x ∷ xs) {a} {b} m h = elim (Option-cases (f x)) [
    | inl miss ↦
        rw (miss, filter_map)
          (elim (Memᴰ.cases_cons m) [
            | inl e ↦ absurd (ground (arith, ap f e))
            | inr n ↦ filter_map-mem f xs n h
          ])
    | inr (c, hit) ↦
        rw (hit, filter_map)
          (elim (Memᴰ.cases_cons m) [
            | inl e ↦ Memᴰ.head (ground (arith, ap f e))
            | inr n ↦ Memᴰ.tail (filter_map-mem f xs n h)
          ])
  ]

  pub mem_of_filter_map :
      (f : A → Option B) (l : List A) {b : B}
      → Memᴰ b (filter_map f l)
      → (a : A) × Memᴰ a l × (f a ≡ some b)
  unfolding filter_map
  mem_of_filter_map f [] m = absurd (Memᴰ.not-nil m)
  mem_of_filter_map f (x ∷ xs) {b} m = elim (Option-cases (f x)) [
    | inl miss ↦
        let (a, n, h) = mem_of_filter_map f xs (rw (miss, filter_map) at m) in (a, Memᴰ.tail n, h)
    | inr (c, hit) ↦ elim (Memᴰ.cases_cons (rw (hit, filter_map) at m)) [
      | inl e ↦ (x, Memᴰ.head refl, hit ∙ ap some (sym e))
      | inr r ↦ let (a, n, h) = mem_of_filter_map f xs r in (a, Memᴰ.tail n, h)
    ]
  ]
