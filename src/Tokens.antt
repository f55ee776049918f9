-- ===== src/Tokens.antt =====
-- server/src/tokens.rs: reading a token, which tokens cover which, and the least set of tokens to fetch with.
pub mod Parsing
pub mod Coverage
pub mod Climb
pub mod Simplified
pub mod Request
pub mod Issued
use Prim.Native.String
use Prim.Native.String.{◌++◌ as append_text, len}
use text.Mathlib.Text.{get?}
use mathlib.Core.Option
use unleash_edge.Prelude.{
  ℕ, ◌-◌, ◌≡◌, refl, String, Bool, true, false, not, ◌&&◌, ◌||◌, Option, none, some, List, [], ◌∷◌,
  leb, ltb, ◌=ℕ◌, if◌then◌else◌, ◌==◌, Eq, LawfulEq, lawful, string_lawful, string_eq,
  option_lawful, list_lawful, pair_lawful, unwrap_or, length, take, all, any, filter_map, try_fold,
}
use unleash_edge.Dict.{contains}
use unleash_edge.Text.{contains_char, split, trim}
use unleash_edge.Error.{EdgeError, Result, ok, err, or_else}
use unleash_edge.Types.{
  token_type_lawful, TokenType, TokenValidationStatus, EdgeToken, TokenRefresh,
}

-- `EdgeToken::no_project_or_environment`
unfoldable pub no_project_or_environment : String → EdgeToken
no_project_or_environment s = record {
  token = s;
  token_type = none;
  environment = none;
  projects = [];
  status = TokenValidationStatus.unknown;
}

-- `self.projects.contains(&"*")`
abbrev pub has_all_projects : List String → Bool
has_all_projects projects = contains projects "*"

unfoldable pub broader_or_equal_projects : List String → List String → Bool
broader_or_equal_projects self other =
    has_all_projects self || (leb (length other) (length self) && all (λ p. contains self p) other)

-- `EdgeToken::same_environment_and_broader_or_equal_project_access`
unfoldable pub same_environment_and_broader_or_equal_project_access : EdgeToken → EdgeToken → Bool
same_environment_and_broader_or_equal_project_access self other =
    (option_lawful string_lawful).beq self.environment other.environment
    && broader_or_equal_projects self.projects other.projects

-- `EdgeToken::subsumes`
unfoldable pub subsumes : EdgeToken → EdgeToken → Bool
subsumes self other =
    (option_lawful token_type_lawful).beq self.token_type other.token_type
    && same_environment_and_broader_or_equal_project_access self other

-- the key of `unique_keys`
abbrev pub unique_key : TokenRefresh → List String × Option String
unique_key t = (t.token.projects, t.token.environment)

abbrev pub unique_key_lawful : LawfulEq (List String × Option String)
unique_key_lawful = pair_lawful (list_lawful string_lawful) (option_lawful string_lawful)

-- the loop of `filter_unique_tokens`, with the keys that it has seen
unfoldable pub filter_unique_from :
    List (List String × Option String) → List TokenRefresh → List TokenRefresh
filter_unique_from seen [] = []
filter_unique_from seen (t ∷ ts) =
    let kept = t ∷ filter_unique_from (unique_key t ∷ seen) ts in
    let rest = filter_unique_from seen ts in
    if contains ⦃e = lawful unique_key_lawful⦄ seen (unique_key t) then rest else kept

unfoldable pub filter_unique_tokens : List TokenRefresh → List TokenRefresh
filter_unique_tokens tokens = filter_unique_from [] tokens

-- the closure of `try_fold`: stop where another token subsumes `acc`
unfoldable pub keep_unless_subsumed : TokenRefresh → TokenRefresh → Option TokenRefresh
keep_unless_subsumed acc current =
    if not (current.token.token == acc.token.token) && subsumes current.token acc.token
    then none
    else some acc

unfoldable pub simplify : List TokenRefresh → List TokenRefresh
simplify tokens =
    let uniques = filter_unique_tokens tokens in
    filter_map (λ token. try_fold keep_unless_subsumed token uniques) uniques

-- `&hash[..6]` and `&hash[hash.len() - 6..]`; `none` is a panic: a hash of fewer than 6 bytes, or an
-- end inside a character
unfoldable pub clean_hash : String → Option String
clean_hash hash =
    if ltb (len hash) 6
    then none
    else Option.bind (get? hash 0 6) (λ start.
      Option.map (λ end. append_text start (append_text "****" end))
        (get? hash (len hash - 6) (len hash)))

-- the first two pieces of `split('.')`; `none` is a panic
unfoldable pub anonymize_token : EdgeToken → Option EdgeToken
anonymize_token edge_token = elim (split b'.' edge_token.token) [
  | [] ↦ some edge_token
  | p_and_e ∷ rest ↦ elim rest [
    | [] ↦ some edge_token
    | hash ∷ _ ↦
        Option.map
          (λ safe_hash. record edge_token {
            token = append_text p_and_e (append_text "." safe_hash);
          })
          (clean_hash hash)
  ]
]

unfoldable pub cache_key : EdgeToken → String
cache_key token = unwrap_or token.environment token.token

-- the environment and the key, of the second piece
unfoldable pub read_env_and_key : String → List String → List String → Result EdgeToken
read_env_and_key s projects (env ∷ _ ∷ _) = ok (record {
  token = s;
  token_type = none;
  environment = some env;
  projects = projects;
  status = TokenValidationStatus.unknown;
})
read_env_and_key s projects _ = err (EdgeError.token_parse_error s)

-- the pieces of `s.split(':').take(2)`
unfoldable pub read_parts : String → List String → Result EdgeToken
unfolding read_env_and_key
read_parts s (projects ∷ env_and_key ∷ _) =
    read_env_and_key s (if projects == "[]" then [] else projects ∷ [])
      (take 2 (split b'.' env_and_key))
read_parts s _ = err (EdgeError.token_parse_error s)

-- `EdgeToken::from_trimmed_str`
unfoldable pub from_trimmed_str : String → Result EdgeToken
unfolding read_parts
from_trimmed_str s =
    if contains_char b':' s && contains_char b'.' s
    then read_parts s (take 2 (split b':' s))
    else err (EdgeError.token_parse_error s)

-- `EdgeToken::from_str`, and `try_from` of a text
unfoldable pub from_str : String → Result EdgeToken
from_str s = from_trimmed_str (trim s)

-- `EdgeToken::offline_token`
unfoldable pub offline_token : String → EdgeToken
offline_token s = record (or_else (from_str s) (no_project_or_environment s)) {
  status = TokenValidationStatus.validated;
}

from_str_test :
    from_str " demo:dev.abc "
    ≡ ok (record {
      token = "demo:dev.abc";
      token_type = none;
      environment = some "dev";
      projects = "demo" ∷ [];
      status = TokenValidationStatus.unknown;
    })
unfolding from_str from_trimmed_str trim split contains_char take
from_str_test = refl

clean_hash_test : clean_hash "0123456789abcdef" ≡ some "012345****abcdef"
unfolding clean_hash Option.bind
clean_hash_test = refl
