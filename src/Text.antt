-- ===== src/Text.antt =====
-- What the program asks of `str`: whether it contains a character or a text, the pieces of a split, trimming.
-- Characters are code points, as in Rust.
use Prim.Native.Char.{Char, code}
use Prim.Native.String.{String}
use text.Mathlib.Text.{starts_with}
use unleash_edge.Prelude.{
  ℕ, ◌≡◌, refl, Bool, true, false, ◌&&◌, ◌||◌, List, [], ◌∷◌, leb, ◌=ℕ◌, if◌then◌else◌,
}

-- `s.contains(c)` for a character
unfoldable pub contains_char : ℕ → String → Bool
contains_char c String.[] = false
contains_char c (String.◌∷◌ d s) = code d =ℕ c || contains_char c s

-- `s.contains(t)` for a text
unfoldable pub contains_text : String → String → Bool
contains_text t String.[] = starts_with "" t
contains_text t (String.◌∷◌ c s) = starts_with (String.◌∷◌ c s) t || contains_text t s

unfoldable pub add_to_first : Char → List String → List String
add_to_first d [] = String.◌∷◌ d String.[] ∷ []
add_to_first d (w ∷ ws) = String.◌∷◌ d w ∷ ws

-- `s.split(c)`: never empty, and with empty pieces
unfoldable pub split : ℕ → String → List String
unfolding add_to_first
split c String.[] = String.[] ∷ []
split c (String.◌∷◌ d s) =
    let rest = split c s in if code d =ℕ c then String.[] ∷ rest else add_to_first d rest

-- `char::is_whitespace`: the property White_Space of Unicode
unfoldable pub is_whitespace : ℕ → Bool
is_whitespace c =
    (leb 0x9 c && leb c 0xd)
    || c =ℕ 0x20
    || c =ℕ 0x85
    || c =ℕ 0xa0
    || c =ℕ 0x1680
    || (leb 0x2000 c && leb c 0x200a)
    || c =ℕ 0x2028
    || c =ℕ 0x2029
    || c =ℕ 0x202f
    || c =ℕ 0x205f
    || c =ℕ 0x3000

trim_start : String → String
unfolding is_whitespace
trim_start String.[] = String.[]
trim_start (String.◌∷◌ c s) = if is_whitespace (code c) then trim_start s else String.◌∷◌ c s

is_blank : String → Bool
unfolding is_whitespace
is_blank String.[] = true
is_blank (String.◌∷◌ c s) = is_whitespace (code c) && is_blank s

trim_end : String → String
unfolding is_blank
trim_end String.[] = String.[]
trim_end (String.◌∷◌ c s) =
    let rest = trim_end s in
    if is_whitespace (code c) && is_blank s then String.[] else String.◌∷◌ c rest

-- `s.trim()`
unfoldable pub trim : String → String
unfolding trim_start trim_end
trim s = trim_end (trim_start s)

split_test : split b':' "a::b" ≡ "a" ∷ "" ∷ "b" ∷ []
unfolding split
split_test = refl

trim_test : trim "  a b  " ≡ "a b"
unfolding trim
trim_test = refl

contains_test : contains_text "/api" "x/api/y" ≡ true
unfolding contains_text
contains_test = refl
