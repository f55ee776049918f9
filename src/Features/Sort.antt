-- ===== src/Features/Sort.antt =====
-- `Vec::sort`, a stable sort.
use mathlib.Core.List.{Perm}
use mathlib.Core.List.Perm
use unleash_edge.Prelude.{
  ◌≡◌, Bool, true, false, List, [], ◌∷◌, if◌then◌else◌, Memᴰ, inl, inr, Bool-cases,
}
use mathlib.Core.List.Memᴰ

module _ {ℓ} {A : Type ℓ} (le : A → A → Bool) where
  insert_sorted : A → List A → List A
  insert_sorted x [] = x ∷ []
  insert_sorted x (y ∷ ys) =
      let later = y ∷ insert_sorted x ys in if le x y then x ∷ y ∷ ys else later

  unfoldable pub sort : List A → List A
  unfolding insert_sorted
  sort [] = []
  sort (x ∷ xs) = insert_sorted x (sort xs)

  abbrev pub IsSorted : List A → Type 0
  IsSorted [] = Unit
  IsSorted (x ∷ []) = Unit
  IsSorted (x ∷ y ∷ ys) = (le x y ≡ true) × IsSorted (y ∷ ys)

  insert_sorted-perm : (x : A) (ys : List A) → Perm (insert_sorted x ys) (x ∷ ys)
  unfolding insert_sorted
  insert_sorted-perm x [] = Perm.refl (x ∷ [])
  insert_sorted-perm x (y ∷ ys) = elim (Bool-cases (le x y)) [
    | inl t ↦ rw t (Perm.refl (x ∷ y ∷ ys))
    | inr f ↦ rw f (Perm.trans (Perm.cons y (insert_sorted-perm x ys)) (Perm.swap x y ys))
  ]

  -- Sorting rearranges.
  pub sort-perm : (xs : List A) → Perm (sort xs) xs
  unfolding sort
  sort-perm [] = Perm.refl []
  sort-perm (x ∷ xs) = Perm.trans (insert_sorted-perm x (sort xs)) (Perm.cons x (sort-perm xs))

  insert_sorted-mem : (x : A) (ys : List A) {a : A} → Memᴰ a (x ∷ ys) → Memᴰ a (insert_sorted x ys)
  unfolding insert_sorted
  insert_sorted-mem x [] m = m
  insert_sorted-mem x (y ∷ ys) m = elim (Bool-cases (le x y)) [
    | inl t ↦ rw t m
    | inr f ↦ rw f (elim (Memᴰ.cases_cons m) [
      | inl e ↦ Memᴰ.tail (insert_sorted-mem x ys (Memᴰ.head e))
      | inr n ↦ elim (Memᴰ.cases_cons n) [
        | inl e ↦ Memᴰ.head e
        | inr r ↦ Memᴰ.tail (insert_sorted-mem x ys (Memᴰ.tail r))
      ]
    ])
  ]

  pub sort-mem : (xs : List A) {a : A} → Memᴰ a xs → Memᴰ a (sort xs)
  unfolding sort
  sort-mem [] m = m
  sort-mem (x ∷ xs) m =
      insert_sorted-mem x (sort xs)
        (elim (Memᴰ.cases_cons m) [ inl e ↦ Memᴰ.head e | inr n ↦ Memᴰ.tail (sort-mem xs n) ])

  mem_of_insert_sorted :
      (x : A) (ys : List A) {a : A} → Memᴰ a (insert_sorted x ys) → Memᴰ a (x ∷ ys)
  unfolding insert_sorted
  mem_of_insert_sorted x [] m = m
  mem_of_insert_sorted x (y ∷ ys) m = elim (Bool-cases (le x y)) [
    | inl t ↦ rw t at m
    | inr f ↦ elim (Memᴰ.cases_cons (rw f at m)) [
      | inl e ↦ Memᴰ.tail (Memᴰ.head e)
      | inr n ↦ elim (Memᴰ.cases_cons (mem_of_insert_sorted x ys n)) [
        | inl e ↦ Memᴰ.head e
        | inr r ↦ Memᴰ.tail (Memᴰ.tail r)
      ]
    ]
  ]

  pub mem_of_sort : (xs : List A) {a : A} → Memᴰ a (sort xs) → Memᴰ a xs
  unfolding sort
  mem_of_sort [] m = m
  mem_of_sort (x ∷ xs) m = elim (Memᴰ.cases_cons (mem_of_insert_sorted x (sort xs) m)) [
    | inl e ↦ Memᴰ.head e
    | inr n ↦ Memᴰ.tail (mem_of_sort xs n)
  ]

  module _ (total : (a b : A) → le a b ≡ false → le b a ≡ true) where
    insert_below :
        (y x : A) (ys : List A)
        → le y x ≡ true
        → IsSorted (y ∷ ys)
        → IsSorted (y ∷ insert_sorted x ys)
    unfolding insert_sorted
    insert_below y x [] h s = (h, tt)
    insert_below y x (z ∷ zs) h s = elim (Bool-cases (le x z)) [
      | inl t ↦ rw t (h, (t, s.1))
      | inr f ↦ rw f (s.0, insert_below z x zs (total x z f) s.1)
    ]

    insert_sorted-IsSorted : (x : A) (ys : List A) → IsSorted ys → IsSorted (insert_sorted x ys)
    insert_sorted-IsSorted x [] h = unfold insert_sorted in tt
    insert_sorted-IsSorted x (y ∷ ys) h = elim (Bool-cases (le x y)) [
      | inl t ↦ unfold insert_sorted in rw t (t, h)
      | inr f ↦ let s = insert_below y x ys (total x y f) h in unfold insert_sorted in rw f s
    ]

    -- Sorting by a total order gives a sorted list.
    pub sort-IsSorted : (xs : List A) → IsSorted (sort xs)
    unfolding sort
    sort-IsSorted [] = tt
    sort-IsSorted (x ∷ xs) = insert_sorted-IsSorted x (sort xs) (sort-IsSorted xs)
