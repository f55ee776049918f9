-- ===== src/Tokens/Parsing.antt =====
-- Reading a token: what a well-formed text gives, and what every parsed token satisfies.
use Prim.Native.Char.{Char, code}
use Prim.Native.String.{◌++◌ as append_text}
use Prim.Native.String.append
use text.Mathlib.TextLemmas.{append-nil}
use unleash_edge.Prelude.{
  ℕ, ◌≡◌, refl, sym, ap, ◌∙◌, String, true, false, none, some, List, [], ◌∷◌, arith, ◌==◌,
  if◌then◌else◌, string_eq, is_some, length, ◌≤◌, take, ◌=ℕ◌, ◌||◌, inl, inr, Bool-cases,
}
use unleash_edge.Text.{contains_char, split, add_to_first}
use unleash_edge.Error.{ok}
use unleash_edge.Types.{TokenValidationStatus, EdgeToken}
use unleash_edge.Tokens.{from_trimmed_str, read_parts}

contains_char-append :
    (c : ℕ) (s t : String)
    → contains_char c (append_text s t) ≡ (contains_char c s || contains_char c t)
unfolding contains_char
contains_char-append c String.[] t = rw append.nil
contains_char-append c (String.◌∷◌ d s) t =
    let ih = contains_char-append c s t in rw append.cons (ground arith)

split-append :
    (c : ℕ) (s t : String) {w : String} {ws : List String}
    → contains_char c s ≡ false
    → split c t ≡ w ∷ ws
    → split c (append_text s t) ≡ append_text s w ∷ ws
unfolding contains_char split
split-append c String.[] t {w} {ws} n h = rw append.nil (h ∙ ap (λ v. v ∷ ws) (sym (append.nil w)))
split-append c (String.◌∷◌ d s) t {w} {ws} n h =
    let ih : split c (append_text s t) ≡ append_text s w ∷ ws =
      split-append c s t (ground arith) h in
    rw (append.cons, append.cons) (rw (ih, add_to_first) (ground arith))

split-cons : (c : ℕ) (s : String) → (w : String) × (ws : List String) × (split c s ≡ w ∷ ws)
unfolding split
split-cons c String.[] = (String.[], [], refl)
split-cons c (String.◌∷◌ d s) =
    let (w, ws, e) = split-cons c s in
    elim (Bool-cases (code d =ℕ c)) [
      | inl t ↦ (String.[], w ∷ ws, rw (t, e))
      | inr f ↦ (String.◌∷◌ d w, ws, rw (f, e))
    ]

split_here :
    (d : Char) (p t : String) {w : String} {ws : List String}
    → contains_char (code d) p ≡ false
    → split (code d) t ≡ w ∷ ws
    → split (code d) (append_text p (String.◌∷◌ d t)) ≡ p ∷ w ∷ ws
unfolding split
split_here d p t {w} {ws} n h =
    let here : split (code d) (String.◌∷◌ d t) ≡ String.[] ∷ w ∷ ws = ground arith in
    split-append (code d) p (String.◌∷◌ d t) n here ∙ ap (λ v. v ∷ w ∷ ws) (append-nil p)

-- The text of a token: project, environment and key.
abbrev pub format_token : String → String → String → String
format_token project environment key =
    append_text project (String.◌∷◌ ":" (append_text environment (String.◌∷◌ "." key)))

-- A token text whose project has no colon, and whose environment has neither colon nor dot, is read
-- back as that project (none for `[]`) and that environment, whatever the key, with its own text as
-- the secret, no type and an unknown status.
pub from_trimmed_str-format_token :
    (project environment key : String)
    → contains_char b':' project ≡ false
    → contains_char b':' environment ≡ false
    → contains_char b'.' environment ≡ false
    → from_trimmed_str (format_token project environment key)
      ≡ ok (record {
        token = format_token project environment key;
        token_type = none;
        environment = some environment;
        projects = if project == "[]" then [] else project ∷ [];
        status = TokenValidationStatus.unknown;
      })
unfolding from_trimmed_str take
from_trimmed_str-format_token p e k hp he hd =
    let (w, ws, ek) = split-cons b':' k in
    let (v, vs, ev) = split-cons b'.' w in
    let after = append_text e (String.◌∷◌ "." w) in
    let pieces : split b':' (append_text e (String.◌∷◌ "." k)) ≡ after ∷ ws =
      split-append b':' e (String.◌∷◌ "." k) he (unfold split in rw ek) in
    let colon = split_here ":" p (append_text e (String.◌∷◌ "." k)) hp pieces in
    let dot = split_here "." e w hd ev in
    let has_colon : contains_char b':' (format_token p e k) ≡ true =
      rw (contains_char-append b':' p _) (unfold contains_char in ground arith) in
    let has_dot : contains_char b'.' (format_token p e k) ≡ true =
      rw (contains_char-append b'.' p _)
        (unfold contains_char in rw (contains_char-append b'.' e _) (ground arith)) in
    rw (has_colon, has_dot, colon) (rw dot)

read_parts_sound :
    (s : String) (parts : List String) (t : EdgeToken)
    → read_parts s parts ≡ ok t
    → (t.token ≡ s)
      × (t.token_type ≡ none)
      × (t.status ≡ TokenValidationStatus.unknown)
      × (is_some t.environment ≡ true)
      × (length t.projects ≤ 1)
unfolding read_parts
read_parts_sound s parts t h = ground arith

-- A text is read only where it has a colon and a dot, and the token that is read has that text as its
-- secret, no type, an unknown status, an environment, and one project at most.
pub from_trimmed_str_sound :
    (s : String) (t : EdgeToken)
    → from_trimmed_str s ≡ ok t
    → (contains_char b':' s ≡ true)
      × (contains_char b'.' s ≡ true)
      × (t.token ≡ s)
      × (t.token_type ≡ none)
      × (t.status ≡ TokenValidationStatus.unknown)
      × (is_some t.environment ≡ true)
      × (length t.projects ≤ 1)
unfolding from_trimmed_str
from_trimmed_str_sound s t h = ground (arith, read_parts_sound s (take 2 (split b':' s)) t)
