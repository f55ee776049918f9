-- ===== src/TokenValidator/Register.antt =====
-- Registering tokens: what the cache holds of each afterwards.
use mathlib.Core.List.Memᴰ
use unleash_edge.Prelude.{
  ◌≡◌, ◌≢◌, ◌⊎◌, inl, inr, refl, sym, ◌∙◌, ap, subst, String, some, List, [], ◌∷◌, map, Memᴰ,
  string_eq, ◌==◌, find, find_sound, find-none, Option-cases, Bool-cases, arith, eq_iff,
}
use unleash_edge.Dict
use unleash_edge.Dict.{Dict}
use unleash_edge.Dict.Laws.{get-insert}
use unleash_edge.Error.{EdgeError, Result, ok, err}
use unleash_edge.Types.{EdgeToken, TokenType, TokenValidationStatus}
use unleash_edge.TokenValidator.{
  TokenValidator, get_unknown_and_known_tokens, sink_token, insert_tokens, register_unknown,
  register_tokens,
}

-- What upstream's answer `r` makes of the secret of `t`: the answered token, validated, or an invalid
-- one if the answer has no such secret.
abbrev pub Decided : List EdgeToken → String → EdgeToken → Type 0
Decided r secret s =
    ((w : EdgeToken) × Memᴰ w r
      × (w.token ≡ secret)
      × (s ≡ record w { status = TokenValidationStatus.validated }))
    ⊎ (((w : EdgeToken) → Memᴰ w r → w.token ≢ secret)
        × (s.token ≡ secret)
        × (s.status ≡ TokenValidationStatus.invalid)
        × (s.token_type ≡ some TokenType.invalid))

sink_token-Decided : (r : List EdgeToken) (t : EdgeToken) → Decided r t.token (sink_token r t)
unfolding sink_token
sink_token-Decided r t = elim (Option-cases (find (λ v. t.token == v.token) r)) [
  | inl miss ↦
      rw (miss, sink_token)
        (inr (
          λ w m e.
              cc (find-none (λ v. t.token == v.token) r miss m, (eq_iff t.token w.token).1 (sym e)),
          refl,
          refl,
          refl,
        ))
  | inr (w, hit) ↦
      let (m, same) = find_sound (λ v. t.token == v.token) r hit in
      rw (hit, sink_token) (inl (w, m, sym ((eq_iff t.token w.token).0 same), refl))
]

pub Decided-secret : (r : List EdgeToken) (k : String) (s : EdgeToken) → Decided r k s → s.token ≡ k
Decided-secret r k s (inl (w, m, e, d)) = ap (λ (t : EdgeToken). t.token) d ∙ e
Decided-secret r k s (inr (no_one, e, st, ty)) = e

insert_tokens_other :
    (l : List EdgeToken) (c : Dict String EdgeToken) (k : String)
    → ((t : EdgeToken) → Memᴰ t l → t.token ≢ k)
    → Dict.get k (insert_tokens l c) ≡ Dict.get k c
unfolding insert_tokens
insert_tokens_other [] c k h = refl
insert_tokens_other (x ∷ xs) c k h =
    insert_tokens_other xs (Dict.insert x.token x c) k (λ t m. h t (Memᴰ.tail m))
    ∙ ground (arith, get-insert k x.token x c, h x (Memᴰ.head refl), eq_iff x.token k)

-- A lookup after the insertions: what was there, or one of the inserted tokens.
pub insert_tokens_kept :
    (l : List EdgeToken) (c : Dict String EdgeToken) (k : String) {s : EdgeToken}
    (P : EdgeToken → Type 0)
    → Dict.get k c ≡ some s
    → P s
    → ((t : EdgeToken) → Memᴰ t l → t.token ≡ k → P t)
    → (s' : EdgeToken) × (Dict.get k (insert_tokens l c) ≡ some s') × P s'
unfolding insert_tokens
insert_tokens_kept [] c k {s} P g p h = (s, g, p)
insert_tokens_kept (x ∷ xs) c k {s} P g p h = elim (Bool-cases (x.token == k)) [
  | inl t ↦
      insert_tokens_kept xs (Dict.insert x.token x c) k P (ground (arith, get-insert k x.token x c))
        (h x (Memᴰ.head refl) ((eq_iff x.token k).0 t)) (λ y m. h y (Memᴰ.tail m))
  | inr f ↦
      insert_tokens_kept xs (Dict.insert x.token x c) k P (ground (arith, get-insert k x.token x c))
        p (λ y m. h y (Memᴰ.tail m))
]

pub insert_tokens_added :
    (l : List EdgeToken) (c : Dict String EdgeToken) (P : EdgeToken → Type 0) {t : EdgeToken}
    → Memᴰ t l
    → ((u : EdgeToken) → Memᴰ u l → u.token ≡ t.token → P u)
    → (s : EdgeToken) × (Dict.get t.token (insert_tokens l c) ≡ some s) × P s
unfolding insert_tokens
insert_tokens_added [] c P m h = absurd (Memᴰ.not-nil m)
insert_tokens_added (x ∷ xs) c P {t} m h = elim (Memᴰ.cases_cons m) [
  | inl e ↦
      insert_tokens_kept xs (Dict.insert x.token x c) t.token P
        (ground (
          arith,
          get-insert t.token x.token x c,
          eq_iff x.token t.token,
          ap (λ (y : EdgeToken). y.token) e,
        ))
        (h x (Memᴰ.head refl) (ap (λ (y : EdgeToken). y.token) (sym e))) (λ y n. h y (Memᴰ.tail n))
  | inr n ↦ insert_tokens_added xs (Dict.insert x.token x c) P n (λ u k. h u (Memᴰ.tail k))
]

cache_after :
    (upsert : List EdgeToken → List EdgeToken → List EdgeToken)
    (validate : List String → Result (List EdgeToken)) (unknown known r : List EdgeToken)
    (v : TokenValidator)
    → validate (map (λ t. t.token) unknown) ≡ ok r
    → (register_unknown upsert validate unknown known v).0.token_cache
      ≡ insert_tokens (map (sink_token r) unknown) v.token_cache
unfolding register_unknown
cache_after upsert validate [] known r v e = unfold insert_tokens in refl
cache_after upsert validate (t ∷ ts) known r v e = rw (e, register_unknown) (ground arith)

register_unknown_failure :
    (upsert : List EdgeToken → List EdgeToken → List EdgeToken)
    (validate : List String → Result (List EdgeToken)) (unknown known : List EdgeToken)
    (v : TokenValidator) (x : EdgeError)
    → (register_unknown upsert validate unknown known v).1 ≡ err x
    → ((register_unknown upsert validate unknown known v).0 ≡ v)
      × (validate (map (λ t. t.token) unknown) ≡ err x)
unfolding register_unknown
register_unknown_failure upsert validate [] known v x h = absurd (ground arith)
register_unknown_failure upsert validate (t ∷ ts) known v x h = (ground arith, ground arith)

-- what was inserted under a secret is decided
sinks-Decided :
    (r l : List EdgeToken) (k : String) (u : EdgeToken)
    → Memᴰ u (map (sink_token r) l)
    → u.token ≡ k
    → Decided r k u
sinks-Decided r l k u m e =
    let (t, n, same) = Memᴰ.of_map (sink_token r) l m in
    let d : Decided r t.token u = subst (Decided r t.token) same (sink_token-Decided r t) in
    subst (λ s. Decided r s u) (sym (Decided-secret r t.token u d) ∙ e) d

module _ (upsert : List EdgeToken → List EdgeToken → List EdgeToken)
    (validate : List String → Result (List EdgeToken)) (tokens : List String)
    (v : TokenValidator) where
  abbrev pub unknown_tokens : List EdgeToken
  unknown_tokens = (get_unknown_and_known_tokens v.token_cache tokens).0

  -- When a registration succeeds with tokens that were not known, upstream was asked for exactly the
  -- secrets of those tokens, and the cache then holds upstream's decision on each of them; every other
  -- entry of the cache is as it was.
  pub register_tokens_decides :
      (r : List EdgeToken)
      → validate (map (λ t. t.token) unknown_tokens) ≡ ok r
      → ((t : EdgeToken)
          → Memᴰ t unknown_tokens
          → (s : EdgeToken) × (Dict.get t.token
                (register_tokens upsert validate tokens v).0.token_cache
              ≡ some s)
            × Decided r t.token s)
        × ((k : String)
            → ((t : EdgeToken) → Memᴰ t unknown_tokens → t.token ≢ k)
            → Dict.get k (register_tokens upsert validate tokens v).0.token_cache
              ≡ Dict.get k v.token_cache)
  unfolding register_tokens
  register_tokens_decides r e =
      let cache =
        cache_after upsert validate unknown_tokens
          (get_unknown_and_known_tokens v.token_cache tokens).1 r v e in
      let sinks = map (sink_token r) unknown_tokens in
      (
        λ t m.
            let d = sink_token-Decided r t in
            let secret = Decided-secret r t.token (sink_token r t) d in
            let (s, g, p) =
              insert_tokens_added sinks v.token_cache (Decided r t.token)
                (Memᴰ.map (sink_token r) m)
                (λ u n q. sinks-Decided r unknown_tokens t.token u n (q ∙ secret)) in
            (
              s,
              rw cache
                  (subst (λ k. Dict.get k (insert_tokens sinks v.token_cache) ≡ some s) secret g),
              p,
            ),
        λ k other. rw cache (
            insert_tokens_other sinks v.token_cache k (λ t m q.
              let (w, n, same) = Memᴰ.of_map (sink_token r) unknown_tokens m in
              other w n (
                sym (Decided-secret r w.token (sink_token r w) (sink_token-Decided r w))
                ∙ (ap (λ (y : EdgeToken). y.token) same ∙ q)))),
      )

  -- A registration that fails has changed nothing, and has passed on upstream's error.
  pub register_tokens_failure :
      (x : EdgeError)
      → (register_tokens upsert validate tokens v).1 ≡ err x
      → ((register_tokens upsert validate tokens v).0 ≡ v)
        × (validate (map (λ t. t.token) unknown_tokens) ≡ err x)
  unfolding register_tokens
  register_tokens_failure x h =
      register_unknown_failure upsert validate unknown_tokens
        (get_unknown_and_known_tokens v.token_cache tokens).1 v x h
