-- ===== src/Tokens/Climb.antt =====
-- The climb from a token to one that nothing else of a list subsumes.
use mathlib.Core.List.Memᴰ
use unleash_edge.Prelude.{
  ◌≡◌, refl, ap, false, List, [], ◌∷◌, if◌then◌else◌, inl, inr, Bool-cases, Memᴰ, string_eq,
}
use unleash_edge.Types.{TokenRefresh}
use unleash_edge.Tokens.{subsumes}
use unleash_edge.Tokens.Coverage.{Subsumes, Subsumes-refl, Subsumes-trans}

-- one step of the climb from a token to one that nothing else subsumes
pub climb : TokenRefresh → List TokenRefresh → TokenRefresh
climb t [] = t
climb t (u ∷ us) = climb (if subsumes u.token t.token then u else t) us

climb_up :
    (t u : TokenRefresh) (us : List TokenRefresh)
    → Subsumes u.token t.token
    → climb t (u ∷ us) ≡ climb u us
unfolding climb
climb_up t u us s = rw s

climb_stay :
    (t u : TokenRefresh) (us : List TokenRefresh)
    → subsumes u.token t.token ≡ false
    → climb t (u ∷ us) ≡ climb t us
unfolding climb
climb_stay t u us s = rw s

pub climb-Subsumes : (t : TokenRefresh) (l : List TokenRefresh) → Subsumes (climb t l).token t.token
climb-Subsumes t [] = unfold climb in Subsumes-refl t.token
climb-Subsumes t (u ∷ us) = elim (Bool-cases (subsumes u.token t.token)) [
  | inl s ↦
      rw (climb_up t u us s)
        (Subsumes-trans (climb u us).token u.token t.token (climb-Subsumes u us) s)
  | inr n ↦ rw (climb_stay t u us n) (climb-Subsumes t us)
]

pub climb-mem :
    (t : TokenRefresh) (l k : List TokenRefresh)
    → Memᴰ t k
    → ((u : TokenRefresh) → Memᴰ u l → Memᴰ u k)
    → Memᴰ (climb t l) k
climb-mem t [] k m h = unfold climb in m
climb-mem t (u ∷ us) k m h = elim (Bool-cases (subsumes u.token t.token)) [
  | inl s ↦
      rw (climb_up t u us s) (climb-mem u us k (h u (Memᴰ.head refl)) (λ v n. h v (Memᴰ.tail n)))
  | inr n ↦ rw (climb_stay t u us n) (climb-mem t us k m (λ v n. h v (Memᴰ.tail n)))
]

-- What subsumes the end of the climb is subsumed by it.
pub climb_top :
    (t : TokenRefresh) (l : List TokenRefresh) {v : TokenRefresh}
    → Memᴰ v l
    → Subsumes v.token (climb t l).token
    → Subsumes (climb t l).token v.token
climb_top t [] m s = absurd (Memᴰ.not-nil m)
climb_top t (u ∷ us) {v} m s = elim (Bool-cases (subsumes u.token t.token)) [
  | inl y ↦ rw (climb_up t u us y) (elim (Memᴰ.cases_cons m) [
    | inl e ↦ rw e (climb-Subsumes u us)
    | inr r ↦ climb_top u us r (rw (climb_up t u us y) at s)
  ])
  | inr n ↦
      let s' : Subsumes v.token (climb t us).token = rw (climb_stay t u us n) at s in
      rw (climb_stay t u us n) (elim (Memᴰ.cases_cons m) [
        | inl e ↦ absurd (
            cc (
              n,
              ap (λ (x : TokenRefresh). subsumes x.token t.token) e,
              Subsumes-trans v.token (climb t us).token t.token s' (climb-Subsumes t us),
            ))
        | inr r ↦ climb_top t us r s'
      ])
]
