-- ===== src/Dict/Laws.antt =====
-- What each operation of a table does to a lookup.
use unleash_edge.Prelude.{
  ◌≡◌, refl, Bool, true, none, some, List, [], ◌∷◌, Memᴰ, Eq, ◌==◌, arith, inl, inr, Bool-cases,
  if◌then◌else◌, is_some, LawfulEq, lawful, beq_congr_right,
}
use mathlib.Core.Option
use mathlib.Core.List.Memᴰ
use unleash_edge.Dict.{Dict, retain, get, contains_key, insert, remove, alter, upsert, contains}

module _ {ℓ κ} {K : Type ℓ} {V : Type κ} ⦃e : Eq K⦄ where
  pub get-insert :
      (j k : K) (v : V) (m : Dict K V) → get j (insert k v m) ≡ (if k == j then some v else get j m)
  unfolding get insert
  get-insert j k v [] = refl
  get-insert j k v ((i, w) ∷ m) =
      ground (arith, e.beq_congr i k j, beq_congr_right i k j, get-insert j k v m)

  pub get-remove :
      (j k : K) (m : Dict K V) → get j (remove k m) ≡ (if k == j then none else get j m)
  unfolding get remove
  get-remove j k [] = ground arith
  get-remove j k ((i, w) ∷ m) =
      ground (arith, e.beq_congr i k j, beq_congr_right i k j, get-remove j k m)

  pub get-alter :
      (j k : K) (f : V → V) (m : Dict K V)
      → get j (alter k f m) ≡ (if k == j then Option.map f (get j m) else get j m)
  unfolding get alter
  get-alter j k f [] = ground arith
  get-alter j k f ((i, w) ∷ m) =
      ground (arith, e.beq_congr i k j, beq_congr_right i k j, get-alter j k f m)

  pub get-upsert :
      (j k : K) (f : V → V) (v : V) (m : Dict K V)
      → get j (upsert k f v m)
        ≡ (if k == j then elim (get j m) [ none ↦ some v | some w ↦ some (f w) ] else get j m)
  unfolding get upsert
  get-upsert j k f v [] = ground arith
  get-upsert j k f v ((i, w) ∷ m) =
      ground (arith, e.beq_congr i k j, beq_congr_right i k j, get-upsert j k f v m)

  pub contains_key-get : (k : K) (m : Dict K V) → contains_key k m ≡ is_some (get k m)
  unfolding contains_key get
  contains_key-get k [] = refl
  contains_key-get k ((j, v) ∷ m) = ground (arith, contains_key-get k m)

  -- A test that does not tell equal keys apart.
  pub get-retain :
      (k : K) (p : K → Bool) (m : Dict K V)
      → ((i : K) → i == k ≡ true → p i ≡ p k)
      → get k (retain p m) ≡ (if p k then get k m else none)
  unfolding get retain
  get-retain k p [] h = ground arith
  get-retain k p ((j, v) ∷ m) h = ground (arith, h j, get-retain k p m h)

module _ {ℓ} {A : Type ℓ} (l : LawfulEq A) where
  pub mem_of_contains : (xs : List A) (a : A) → contains ⦃e = lawful l⦄ xs a ≡ true → Memᴰ a xs
  unfolding contains
  mem_of_contains [] a h = absurd (ground arith)
  mem_of_contains (x ∷ xs) a h = elim (Bool-cases (l.beq x a)) [
    | inl t ↦ Memᴰ.head (ground (arith, l.beq_iff x a))
    | inr f ↦ Memᴰ.tail (mem_of_contains xs a (ground arith))
  ]

  pub contains_of_mem : (xs : List A) (a : A) → Memᴰ a xs → contains ⦃e = lawful l⦄ xs a ≡ true
  unfolding contains
  contains_of_mem [] a m = absurd (Memᴰ.not-nil m)
  contains_of_mem (x ∷ xs) a (Memᴰ.head h) = ground (arith, l.beq_iff x a)
  contains_of_mem (x ∷ xs) a (Memᴰ.tail m) = ground (arith, contains_of_mem xs a m)

  pub mem_of_get {κ} :
      {V : Type κ} (k : A) (m : Dict A V) {v : V} → get ⦃e = lawful l⦄ k m ≡ some v → Memᴰ (k, v) m
  unfolding get
  mem_of_get k [] h = absurd (ground arith)
  mem_of_get k ((j, w) ∷ m) h = elim (Bool-cases (l.beq j k)) [
    | inl t ↦ Memᴰ.head (ground (arith, l.beq_iff j k))
    | inr f ↦ Memᴰ.tail (mem_of_get k m (ground arith))
  ]

pub ruleset dict_laws = (get-insert, get-remove, get-alter, get-upsert)
