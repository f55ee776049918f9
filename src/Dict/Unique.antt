-- ===== src/Dict/Unique.antt =====
-- Tables in which no key has two entries, as in `DashMap` and `HashMap`.
use unleash_edge.Prelude.{
  ◌≡◌, refl, ◌∙◌, ap, Bool, or_option, if◌then◌else◌, true, false, Option, none, some, [], ◌∷◌, map,
  Memᴰ, Eq, ◌==◌, arith, Bool-cases, inl, inr, beq_congr_right,
}
use mathlib.Core.List.Memᴰ
use unleash_edge.Dict.{Dict, get, contains_key, insert, upsert, extend}
use unleash_edge.Dict.Laws.{contains_key-get, get-insert}

module _ {K V : Type 0} ⦃e : Eq K⦄ where
  abbrev pub IsUnique : Dict K V → Type 0
  IsUnique [] = Unit
  IsUnique ((k, _) ∷ m) = (contains_key k m ≡ false) × IsUnique m

  upsert-absent :
      (j k : K) (f : V → V) (v : V) (m : Dict K V)
      → contains_key j m ≡ false
      → k == j ≡ false
      → contains_key j (upsert k f v m) ≡ false
  unfolding upsert contains_key
  upsert-absent j k f v [] h n = ground (arith, n)
  upsert-absent j k f v ((i, w) ∷ m) h n = ground (arith, h, n, upsert-absent j k f v m)

  pub upsert-IsUnique :
      (k : K) (f : V → V) (v : V) (m : Dict K V) → IsUnique m → IsUnique (upsert k f v m)
  unfolding upsert contains_key
  upsert-IsUnique k f v [] h = (refl, tt)
  upsert-IsUnique k f v ((j, w) ∷ m) (fresh, rest) = elim (Bool-cases (j == k)) [
    | inl y ↦ rw y (fresh, rest)
    | inr n ↦
        rw n (upsert-absent j k f v m fresh (e.beq_comm k j ∙ n), upsert-IsUnique k f v m rest)
  ]

  pub same_key : (i k : K) (m : Dict K V) → k == i ≡ true → contains_key i m ≡ contains_key k m
  unfolding contains_key
  same_key i k [] h = refl
  same_key i k ((j, v) ∷ m) h = ground (arith, same_key i k m h, beq_congr_right j k i h)

  -- an entry of the rest is still found, and one at the head is not in the rest
  pub get-tail :
      (i k : K) (v w : V) (m : Dict K V)
      → contains_key k m ≡ false
      → get i m ≡ some w
      → get i ((k, v) ∷ m) ≡ some w
  unfolding get contains_key
  get-tail i k v w m fresh h = elim (Bool-cases (k == i)) [
    | inl y ↦ absurd (ground (arith, y, fresh, h, contains_key-get i m, same_key i k m y))
    | inr n ↦ rw n h
  ]

  pub get-absent :
      (i k : K) (m : Dict K V) → contains_key k m ≡ false → k == i ≡ true → get i m ≡ none
  get-absent i k m fresh y = ground (arith, fresh, contains_key-get i m, same_key i k m y)

  -- every entry is found under its key
  pub get_of_mem : (k : K) (v : V) (m : Dict K V) → IsUnique m → Memᴰ (k, v) m → get k m ≡ some v
  unfolding get
  get_of_mem k v [] h n = absurd (Memᴰ.not-nil n)
  get_of_mem k v ((j, w) ∷ m) (fresh, rest) n = elim (Memᴰ.cases_cons n) [
    | inl same ↦ ground (arith, e.beq_refl k, same)
    | inr o ↦ get-tail k j w v m fresh (get_of_mem k v m rest o)
  ]

  insert-upsert : (k : K) (v : V) (m : Dict K V) → insert k v m ≡ upsert k (λ _. v) v m
  unfolding insert upsert
  insert-upsert k v [] = refl
  insert-upsert k v ((j, w) ∷ m) = ground (arith, insert-upsert k v m)

  pub extend-IsUnique : (m l : Dict K V) → IsUnique m → IsUnique (extend m l)
  unfolding extend
  extend-IsUnique m [] h = h
  extend-IsUnique m ((k, v) ∷ l) h =
      extend-IsUnique (insert k v m) l (rw (insert-upsert k v m) (upsert-IsUnique k (λ _. v) v m h))

module _ {K V W : Type 0} ⦃e : Eq K⦄ where
  mapped-absent :
      (f : V → W) (k : K) (m : Dict K V)
      → contains_key k m ≡ false
      → contains_key k (map (λ g. (g.0, f g.1)) m) ≡ false
  unfolding contains_key
  mapped-absent f k [] h = refl
  mapped-absent f k ((j, v) ∷ m) h = ground (arith, mapped-absent f k m)

  pub mapped-IsUnique :
      (f : V → W) (m : Dict K V) → IsUnique m → IsUnique (map (λ g. (g.0, f g.1)) m)
  mapped-IsUnique f [] h = tt
  mapped-IsUnique f ((k, v) ∷ m) (fresh, rest) =
      (mapped-absent f k m fresh, mapped-IsUnique f m rest)

entry :
    {V : Type 0} (b : Bool) (v : V) (o m : Option V)
    → (b ≡ true → o ≡ none)
    → or_option o (if b then some v else m) ≡ or_option (if b then some v else o) m
entry true v none m h = refl
entry true v (some w) m h = absurd (ground (arith, h refl))
entry false v none m h = refl
entry false v (some w) m h = refl

pub or_none : {A : Type 0} (o : Option A) → or_option o none ≡ o
or_none none = refl
or_none (some a) = refl

module _ {K V : Type 0} ⦃e : Eq K⦄ where
  -- what a table has after another was added to it: the entries added win
  pub get-extend :
      (k : K) (m l : Dict K V) → IsUnique l → get k (extend m l) ≡ or_option (get k l) (get k m)
  unfolding extend get
  get-extend k m [] h = refl
  get-extend k m ((j, v) ∷ l) (fresh, rest) =
      get-extend k (insert j v m) l rest
      ∙ (ap (or_option (get k l)) (get-insert k j v m)
          ∙ entry (j == k) v (get k l) (get k m) (get-absent k j l fresh))
