-- ===== src/Examples/Tokens.antt =====
-- The theorems on tokens and their refresh records at concrete inputs.

use mathlib.Core.Bool.{true≢false}
use unleash_edge.Prelude.{
  Option, String, ◌≤◌, ◌≡◌, ◌≢◌, refl, false, none, some, [], ◌∷◌, Memᴰ, map, arith, ap, subst, sym,
  ◌==◌, string_eq, if◌then◌else◌, take, filter_map, try_fold, any, all,
}
use unleash_edge.Text.{contains_char, split}
use unleash_edge.Dict.{contains}
use unleash_edge.Error.{ok}
use unleash_edge.UnleashClient.{HeaderValue}
use unleash_edge.Tokens.Request.{EdgeMode, from_request, IsOffline, from_request_sound}
use unleash_edge.Types.{EdgeToken, TokenRefresh, TokenValidationStatus}
use unleash_edge.Types.Schedule.{Attempt, attempts, failure_count_bounded}
use unleash_edge.Tokens.{
  unique_key, broader_or_equal_projects, subsumes,
  same_environment_and_broader_or_equal_project_access, simplify, offline_token, from_trimmed_str,
  filter_unique_tokens, filter_unique_from, keep_unless_subsumed,
}
use unleash_edge.Tokens.Parsing.{from_trimmed_str-format_token}
use unleash_edge.Tokens.Coverage.{Covers}
use unleash_edge.Tokens.Simplified.{simplify-Covers, simplify_mutual}
use unleash_edge.Examples.Samples.{
  pair-IsAntisymmetric, wildcard_refresh, project_refresh, client_token,
}

failure_count_bounded_example :
    (attempts 1000 wildcard_refresh (map Attempt.failed (5 ∷ 9 ∷ []))).failure_count ≤ 10
failure_count_bounded_example =
    failure_count_bounded 1000 wildcard_refresh (map Attempt.failed (5 ∷ 9 ∷ [])) (omega arith)

from_trimmed_str-format_token_example :
    from_trimmed_str "demo:dev.abc"
    ≡ ok (record {
      token = "demo:dev.abc";
      token_type = none;
      environment = some "dev";
      projects = "demo" ∷ [];
      status = TokenValidationStatus.unknown;
    })
unfolding contains_char
from_trimmed_str-format_token_example =
    from_trimmed_str-format_token "demo" "dev" "abc" refl refl refl

abbrev demo_token : EdgeToken
demo_token = record {
  token = "demo:dev.abc";
  token_type = none;
  environment = some "dev";
  projects = "demo" ∷ [];
  status = TokenValidationStatus.unknown;
}

read_demo : from_trimmed_str "demo:dev.abc" ≡ ok demo_token
unfolding from_trimmed_str split contains_char take
read_demo = refl

simplified : simplify (wildcard_refresh ∷ project_refresh ∷ []) ≡ wildcard_refresh ∷ []
unfolding simplify filter_unique_tokens filter_unique_from keep_unless_subsumed try_fold filter_map
    contains subsumes same_environment_and_broader_or_equal_project_access broader_or_equal_projects
    any all
simplified = refl

in_simplified : Memᴰ wildcard_refresh (simplify (wildcard_refresh ∷ project_refresh ∷ []))
in_simplified = subst (Memᴰ wildcard_refresh) (sym simplified) (Memᴰ.head refl)

not_subsumed : subsumes project_refresh.token wildcard_refresh.token ≡ false
unfolding subsumes same_environment_and_broader_or_equal_project_access broader_or_equal_projects
    contains any all
not_subsumed = refl

simplify-Covers_example :
    (u : TokenRefresh) × Memᴰ u (simplify (project_refresh ∷ wildcard_refresh ∷ []))
    × Covers u.token project_refresh.token
simplify-Covers_example =
    simplify-Covers (project_refresh ∷ wildcard_refresh ∷ [])
      (pair-IsAntisymmetric project_refresh wildcard_refresh not_subsumed) (Memᴰ.head refl)

abbrev mutual_a : TokenRefresh
mutual_a = record wildcard_refresh {
  token = client_token "[]:development.3333333" ("a" ∷ "b" ∷ []);
}

abbrev mutual_b : TokenRefresh
mutual_b = record wildcard_refresh {
  token = client_token "[]:development.4444444" ("b" ∷ "a" ∷ []);
}

differ : mutual_a.token.token ≢ mutual_b.token.token
differ h = true≢false (ap (λ k. k == "[]:development.3333333") h)

swapped : unique_key mutual_a ≢ unique_key mutual_b
unfolding contains any take
swapped h = true≢false (ap (λ k. contains (take 1 k.0) "a") h)

simplify_mutual_example : simplify (mutual_a ∷ mutual_b ∷ []) ≡ []
unfolding subsumes same_environment_and_broader_or_equal_project_access broader_or_equal_projects
    contains any all
simplify_mutual_example = simplify_mutual mutual_a mutual_b differ swapped refl refl

abbrev offline_token_text : String → Option HeaderValue
offline_token_text name =
    if name == "Authorization" then some (HeaderValue.text " secret") else none

abbrev own_secret : EdgeToken
own_secret = offline_token " secret"

requested : from_request offline_token_text none (some EdgeMode.offline) ≡ some (ok own_secret)
unfolding from_request
requested = refl

from_request_sound_example :
    (t : String) × (offline_token_text "Authorization" ≡ some (HeaderValue.text t))
    × IsOffline own_secret t
from_request_sound_example =
    from_request_sound offline_token_text none (some EdgeMode.offline) own_secret requested
