-- ===== src/Dict.antt =====
-- `DashMap` and `HashMap`, over keys with an `Eq`, and `HashSet` as a list without duplicates.
-- A table is a list of entries; the order of the list stands for the order of an iteration.
pub mod Laws
pub mod Unique
use mathlib.Core.List.{append_assoc}
use unleash_edge.Prelude.{
  Bool, true, false, Option, none, some, List, [], ◌∷◌, ◌++◌, map, Eq, ◌==◌, if◌then◌else◌,
}

abbrev pub Dict {ℓ κ} : Type ℓ → Type κ → Type (ℓ ⊔ κ)
Dict K V = List (K × V)

module _ {ℓ κ} {K : Type ℓ} {V : Type κ} where
  -- the values, in the order of the iteration
  abbrev pub values : Dict K V → List V
  values = map (λ e. e.1)

  abbrev pub keys : Dict K V → List K
  keys = map (λ e. e.0)

  -- `retain` with a test on the key
  unfoldable pub retain : (K → Bool) → Dict K V → Dict K V
  retain p [] = []
  retain p ((k, v) ∷ m) = let rest = retain p m in if p k then (k, v) ∷ rest else rest

module _ {ℓ κ} {K : Type ℓ} {V : Type κ} ⦃e : Eq K⦄ where
  unfoldable pub get : K → Dict K V → Option V
  get k [] = none
  get k ((j, v) ∷ m) = if j == k then some v else get k m

  unfoldable pub contains_key : K → Dict K V → Bool
  contains_key k [] = false
  contains_key k ((j, v) ∷ m) = if j == k then true else contains_key k m

  -- `insert`: the key that is in the table already is kept
  unfoldable pub insert : K → V → Dict K V → Dict K V
  insert k v [] = (k, v) ∷ []
  insert k v ((j, w) ∷ m) = if j == k then (j, v) ∷ m else (j, w) ∷ insert k v m

  unfoldable pub remove : K → Dict K V → Dict K V
  remove k [] = []
  remove k ((j, v) ∷ m) = let rest = remove k m in if j == k then rest else (j, v) ∷ rest

  -- `alter`, and `entry(k).and_modify(f)`: nothing happens where the key is missing
  unfoldable pub alter : K → (V → V) → Dict K V → Dict K V
  alter k f [] = []
  alter k f ((j, v) ∷ m) = if j == k then (j, f v) ∷ m else (j, v) ∷ alter k f m

  -- `entry(k).and_modify(f).or_insert(v)`
  unfoldable pub upsert : K → (V → V) → V → Dict K V → Dict K V
  upsert k f v [] = (k, v) ∷ []
  upsert k f v ((j, w) ∷ m) = if j == k then (j, f w) ∷ m else (j, w) ∷ upsert k f v m

  -- `extend`
  unfoldable pub extend : Dict K V → Dict K V → Dict K V
  extend m [] = m
  extend m ((k, v) ∷ rest) = extend (insert k v m) rest

module _ {ℓ} {A : Type ℓ} ⦃e : Eq A⦄ where
  -- `contains`
  unfoldable pub contains : List A → A → Bool
  contains [] a = false
  contains (x ∷ xs) a = if x == a then true else contains xs a
