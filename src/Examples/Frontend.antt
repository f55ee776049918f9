-- ===== src/Examples/Frontend.antt =====
-- The theorems on the frontend API at concrete inputs.
use mathlib.Core.Option
use unleash_edge.Prelude.{
  ℕ, ◌≡◌, refl, String, true, false, none, some, List, [], ◌∷◌, Memᴰ, inr, string_eq, filter, find,
  subst, arith,
}
use unleash_edge.Dict
use unleash_edge.Dict.{Dict, contains}
use unleash_edge.Dict.Unique.{IsUnique}
use unleash_edge.Error.{ok}
use unleash_edge.Types.{EdgeToken}
use unleash_edge.Tokens.{cache_key}
use unleash_edge.FeatureCache
use unleash_edge.Refresher.State.{Refresher}
use unleash_edge.Contexts.{Context, PostContext, from_post}
use unleash_edge.Contexts.Precedence.{property, from_post_fields}
use unleash_edge.FrontendApi.{
  ResolvedToggle, EvaluatedToggle, Variant, Evaluator, frontend_from_yggdrasil, get_all_features,
  post_all_features, evaluate_feature, evaluated,
}
use unleash_edge.FrontendApi.Listed.{
  EvaluatorLaws, Lists, frontend_from_yggdrasil_iff, get_all_features_answer, lists_agree,
}
use unleash_edge.FrontendApi.Single.{evaluate_feature_lem}
use unleash_edge.Examples.Samples.{
  sample_types, sample_engine, SampleFeature, features_of, toggle, banner, project_token,
  project_refresh,
}

abbrev request : PostContext ℕ
request = record {
  context = none;
  flattened_context =
      some (record { properties = some (("region", "eu") ∷ []); remote_address = none; other = 7 });
  extra_properties = ("region", "us") ∷ ("plan", "pro") ∷ [];
}

abbrev default : Context ℕ
default = record { properties = none; remote_address = none; other = 0 }

from_post_fields_example :
    (property "region" (from_post ℕ default request) ≡ some "eu")
    × ((from_post ℕ default request).remote_address ≡ none)
    × ((from_post ℕ default request).other ≡ 7)
unfolding Dict.get Dict.contains_key
from_post_fields_example = from_post_fields default request "region" (refl, tt)

abbrev variant : Variant ℕ
variant = record { name = "blue"; enabled = true; payload = some 3 }

abbrev resolved_of : SampleFeature → ResolvedToggle ℕ
resolved_of f = record {
  enabled = true;
  impression_data = false;
  project = elim f.project [ none ↦ "default" | some p ↦ p ];
  variant = variant;
}

-- an engine that resolves its first feature
abbrev first_resolved : List SampleFeature → Dict String (ResolvedToggle ℕ)
first_resolved [] = []
first_resolved (f ∷ _) = (f.name, resolved_of f) ∷ []

abbrev evaluator : Evaluator sample_types sample_engine
evaluator = record {
  Other = ℕ;
  Payload = ℕ;
  resolve_all = λ s _. some (first_resolved s.features);
  resolve = λ s name _. Dict.get name (first_resolved s.features);
}

first_once : (l : List SampleFeature) → IsUnique (first_resolved l)
unfolding Dict.contains_key
first_once [] = tt
first_once (f ∷ _) = (refl, tt)

laws : EvaluatorLaws sample_types sample_engine evaluator
unfolding Dict.get Option.bind
laws = record {
  resolve_one = λ s name context. refl;
  resolved_once = λ s context res h.
      let same : first_resolved s.features ≡ res = ground (arith, h) in
      subst IsUnique same (first_once s.features);
  hydrated = λ f context. refl;
}

abbrev resolved : Dict String (ResolvedToggle ℕ)
resolved = ("toggle", resolved_of toggle) ∷ ("banner", resolved_of banner) ∷ []

abbrev shown : EvaluatedToggle ℕ
shown = evaluated sample_types sample_engine evaluator "toggle" (resolved_of toggle)

frontend_from_yggdrasil_iff_example :
    Memᴰ shown
      (frontend_from_yggdrasil sample_types sample_engine evaluator resolved false project_token)
unfolding contains
frontend_from_yggdrasil_iff_example =
    (frontend_from_yggdrasil_iff sample_types sample_engine evaluator resolved false project_token
        shown).1
      ("toggle", resolved_of toggle, Memᴰ.head refl, inr refl, inr (inr refl), refl)

abbrev tokens : Dict String EdgeToken
tokens = ("a:development.2222222", project_token) ∷ []

abbrev loaded : Refresher sample_types sample_engine
loaded = record {
  tokens_to_refresh = ("a:development.2222222", project_refresh) ∷ [];
  features_cache = record {
    features = ("development", features_of (toggle ∷ banner ∷ [])) ∷ [];
    sent = [];
  };
  engine_cache = ("development", features_of (toggle ∷ banner ∷ [])) ∷ [];
  refresh_interval = 1000;
  strict = false;
  streaming = false;
  delta = false;
}

get_all_features_answer_example :
    (l : List (EvaluatedToggle ℕ)) × (get_all_features sample_types sample_engine evaluator
        project_token loaded.engine_cache tokens default
        (some "10.0.0.1")
      ≡ ok l)
    × Lists sample_types sample_engine evaluator
        (("toggle", resolved_of toggle) ∷ [])
        project_token
        l
unfolding Dict.get FeatureCache.get
get_all_features_answer_example =
    (get_all_features_answer sample_types sample_engine evaluator laws loaded project_token tokens
        default (some "10.0.0.1") (λ k. ground (arith))).0
      (features_of (toggle ∷ banner ∷ [])) refl

lists_agree_example :
    (post_all_features sample_types sample_engine evaluator project_token loaded.engine_cache tokens
        default none
      ≡ get_all_features sample_types sample_engine evaluator project_token loaded.engine_cache
          tokens default none)
lists_agree_example =
    (lists_agree sample_types sample_engine evaluator project_token loaded.engine_cache tokens
      default none).0

listed :
    get_all_features sample_types sample_engine evaluator project_token loaded.engine_cache tokens
      default none
    ≡ ok (shown ∷ [])
unfolding get_all_features frontend_from_yggdrasil Dict.get cache_key contains filter
listed = refl

evaluate_feature_lem_example :
    evaluate_feature sample_types sample_engine evaluator project_token "toggle" default tokens
      loaded.engine_cache none
    ≡ ok shown
unfolding Dict.get find
evaluate_feature_lem_example =
    evaluate_feature_lem sample_types sample_engine evaluator laws project_token project_token
      "toggle" default tokens loaded.engine_cache none (shown ∷ []) refl refl listed
