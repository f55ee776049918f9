-- ===== src/Cli/Headers.antt =====
-- Reading a custom header of the command line.
use Prim.Native.String.{◌++◌ as append_text}
use Prim.Native.String.append
use unleash_edge.Prelude.{◌≡◌, refl, String, true, false, some, arith, inl}
use unleash_edge.Text.{contains_char, trim}
use unleash_edge.Cli.{split_once, string_to_header_tuple}

-- the text of a header: its name, a colon and its value
abbrev pub header_text : String → String → String
header_text name value = append_text name (String.◌∷◌ ":" value)

split_once-header_text :
    (name value : String)
    → contains_char b':' name ≡ false
    → (split_once b':' (header_text name value) ≡ some (name, value))
      × (contains_char b':' (header_text name value) ≡ true)
unfolding split_once contains_char
split_once-header_text String.[] value h = rw append.nil (refl, refl)
split_once-header_text (String.◌∷◌ d name) value h =
    let (cut, there) = split_once-header_text name value (ground arith) in
    rw append.cons (rw cut (ground (arith, h)), rw there (ground (arith, h)))

-- A header that is written as its name, a colon and its value is read as these two without the blanks
-- around them, in case the name has no colon; the value may have some.
pub string_to_header_tuple-header_text :
    (name value : String)
    → contains_char b':' name ≡ false
    → string_to_header_tuple (header_text name value) ≡ inl (trim name, trim value)
unfolding string_to_header_tuple
string_to_header_tuple-header_text name value h =
    let (cut, there) = split_once-header_text name value h in rw (there, cut) refl
