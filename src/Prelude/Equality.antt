-- ===== src/Prelude/Equality.antt =====
-- Rust's `PartialEq` with `Eq`: an equivalence, which need not be equality of all the fields.
use Prim.Native.String.{String}
use mathlib.Core.Path.{◌≡◌, refl, sym, ◌∙◌}
use mathlib.Core.Bool.{Bool, true, false, ◌&&◌}
use mathlib.Core.Logic.{◌↔◌}
use mathlib.Core.Option.{Option, none, some}
use mathlib.Core.List.{List, [], ◌∷◌}
use native.Mathlib.Omega.{arith}
use text.Mathlib.Text.{◌==◌ as str_eq}
use text.Mathlib.TextEquality.{eq_iff}

pub record Eq {ℓ} (A : Type ℓ) : Type ℓ where
  pub beq : A → A → Bool
  pub beq_refl : (a : A) → beq a a ≡ true
  pub beq_comm : (a b : A) → beq a b ≡ beq b a
  pub beq_congr : (a b c : A) → beq a b ≡ true → beq a c ≡ beq b c

infix 50 ◌==◌
abbrev pub ◌==◌ {ℓ} : {A : Type ℓ} ⦃e : Eq A⦄ → A → A → Bool
◌==◌ ⦃e⦄ = e.beq

pub beq_congr_right {ℓ} :
    {A : Type ℓ} ⦃e : Eq A⦄ (a b c : A) → e.beq b c ≡ true → e.beq a b ≡ e.beq a c
beq_congr_right ⦃e⦄ a b c h = e.beq_comm a b ∙ (e.beq_congr b c a h ∙ e.beq_comm c a)

-- Where the test decides equality, as the derived `PartialEq` of plain data does.
pub record LawfulEq {ℓ} (A : Type ℓ) : Type ℓ where
  pub beq : A → A → Bool
  pub beq_iff : (a b : A) → (beq a b ≡ true) ↔ (a ≡ b)

pub bool_ext : (b c : Bool) → (b ≡ true → c ≡ true) → (c ≡ true → b ≡ true) → b ≡ c
bool_ext true c f g = sym (f refl)
bool_ext false true f g = g refl
bool_ext false false f g = refl

module _ {ℓ} {A : Type ℓ} (l : LawfulEq A) where
  pub lawful_refl : (a : A) → l.beq a a ≡ true
  lawful_refl a = (l.beq_iff a a).1 refl

  pub lawful_comm : (a b : A) → l.beq a b ≡ l.beq b a
  lawful_comm a b =
      bool_ext _ _ (λ h. (l.beq_iff b a).1 (sym ((l.beq_iff a b).0 h)))
        (λ h. (l.beq_iff a b).1 (sym ((l.beq_iff b a).0 h)))

  pub lawful_congr : (a b c : A) → l.beq a b ≡ true → l.beq a c ≡ l.beq b c
  lawful_congr a b c h =
      let e : a ≡ b = (l.beq_iff a b).0 h in
      bool_ext _ _ (λ k. (l.beq_iff b c).1 (sym e ∙ (l.beq_iff a c).0 k))
        (λ k. (l.beq_iff a c).1 (e ∙ (l.beq_iff b c).0 k))

  abbrev pub lawful : Eq A
  lawful = record {
    beq = l.beq;
    beq_refl = lawful_refl;
    beq_comm = lawful_comm;
    beq_congr = lawful_congr;
  }

abbrev pub string_lawful : LawfulEq String
string_lawful = record { beq = str_eq; beq_iff = eq_iff }

instance abbrev pub string_eq : Eq String
string_eq = lawful string_lawful

-- `Option<T>: PartialEq`
module _ {ℓ} {A : Type ℓ} (l : LawfulEq A) where
  abbrev pub option_beq : Option A → Option A → Bool
  option_beq none none = true
  option_beq (some a) (some b) = l.beq a b
  option_beq none (some b) = false
  option_beq (some a) none = false

  pub option_beq_iff : (a b : Option A) → (option_beq a b ≡ true) ↔ (a ≡ b)
  option_beq_iff none none = (λ _. refl, λ _. refl)
  option_beq_iff (some a) (some b) =
      (λ h. ground (arith, (l.beq_iff a b).0 h), λ h. (l.beq_iff a b).1 (cc))
  option_beq_iff none (some b) = (λ h. cc, λ h. cc)
  option_beq_iff (some a) none = (λ h. cc, λ h. cc)

  abbrev pub option_lawful : LawfulEq (Option A)
  option_lawful = record { beq = option_beq; beq_iff = option_beq_iff }

  -- `Vec<T>: PartialEq`
  abbrev pub list_beq : List A → List A → Bool
  list_beq [] [] = true
  list_beq (x ∷ xs) (y ∷ ys) = l.beq x y && list_beq xs ys
  list_beq [] (y ∷ ys) = false
  list_beq (x ∷ xs) [] = false

  pub list_beq_iff : (a b : List A) → (list_beq a b ≡ true) ↔ (a ≡ b)
  list_beq_iff [] [] = (λ _. refl, λ _. refl)
  list_beq_iff (x ∷ xs) (y ∷ ys) = (
    λ h. ground (arith, l.beq_iff x y, list_beq_iff xs ys),
    λ h. ground (arith, l.beq_iff x y, list_beq_iff xs ys),
  )
  list_beq_iff [] (y ∷ ys) = (λ h. cc, λ h. cc)
  list_beq_iff (x ∷ xs) [] = (λ h. cc, λ h. cc)

  abbrev pub list_lawful : LawfulEq (List A)
  list_lawful = record { beq = list_beq; beq_iff = list_beq_iff }

-- tuples
module _ {ℓ κ} {A : Type ℓ} {B : Type κ} (l : LawfulEq A) (m : LawfulEq B) where
  abbrev pub pair_beq : A × B → A × B → Bool
  pair_beq a b = l.beq a.0 b.0 && m.beq a.1 b.1

  pub pair_beq_iff : (a b : A × B) → (pair_beq a b ≡ true) ↔ (a ≡ b)
  pair_beq_iff a b = (
    λ h. ground (arith, l.beq_iff a.0 b.0, m.beq_iff a.1 b.1),
    λ h. ground (arith, l.beq_iff a.0 b.0, m.beq_iff a.1 b.1),
  )

  abbrev pub pair_lawful : LawfulEq (A × B)
  pair_lawful = record { beq = pair_beq; beq_iff = pair_beq_iff }

-- a test on what `f` reads
module _ {ℓ κ} {A : Type ℓ} {B : Type κ} (f : A → B) (l : LawfulEq B) where
  abbrev pub eq_by : Eq A
  eq_by = record {
    beq = λ a b. l.beq (f a) (f b);
    beq_refl = λ a. lawful_refl l (f a);
    beq_comm = λ a b. lawful_comm l (f a) (f b);
    beq_congr = λ a b c. lawful_congr l (f a) (f b) (f c);
  }
