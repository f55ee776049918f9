-- ===== src/Examples/Samples.antt =====
-- Sample tokens, features and engines.
use mathlib.Core.List.Memᴰ
use mathlib.Core.Bool.{true≢false}
use unleash_edge.Prelude.{
  ℕ, ◌≡◌, String, true, false, Option, none, some, List, [], ◌∷◌, ◌++◌, leb, ◌∙◌, ap, sym, subst,
  Memᴰ, inl, inr,
}
use unleash_edge.Types.{EdgeToken, TokenRefresh, TokenType, TokenValidationStatus}
use unleash_edge.Tokens.{subsumes}
use unleash_edge.Tokens.Coverage.{Subsumes}
use unleash_edge.Tokens.Simplified.{IsAntisymmetric}
use unleash_edge.Features.{UnleashTypes, ClientFeatures, Engine}

pub record SampleFeature : Type 0 where
  pub name : String
  pub project : Option String
  pub rank : ℕ

abbrev pub sample_types : UnleashTypes
sample_types = record {
  Feature = SampleFeature;
  Segment = ℕ;
  Tags = ℕ;
  Meta = String;
  name = λ f. f.name;
  project = λ f. f.project;
  feature_le = λ a b. leb a.rank b.rank;
  segment_le = leb;
  deduplicate = λ l. l;
}

abbrev pub toggle : SampleFeature
toggle = record { name = "toggle"; project = some "a"; rank = 1 }

abbrev pub banner : SampleFeature
banner = record { name = "banner"; project = some "b"; rank = 2 }

abbrev pub features_of : List SampleFeature → ClientFeatures sample_types
features_of l = record { version = 2; features = l; segments = none; query = none; meta = none }

abbrev pub no_features : ClientFeatures sample_types
no_features = record { version = 0; features = []; segments = none; query = none; meta = none }

-- An engine that keeps the features, with deltas that add features.
abbrev pub sample_engine : Engine sample_types
sample_engine = record {
  Delta = List SampleFeature;
  apply_delta = λ f d. record f { features = f.features ++ d };
  create_from_delta = λ d. record no_features { features = d };
  State = ClientFeatures sample_types;
  default = no_features;
  take_state = λ _ f. f;
  state_apply_delta = λ f d. record f { features = f.features ++ d };
}

abbrev pub client_token : String → List String → EdgeToken
client_token secret projects = record {
  token = secret;
  token_type = some TokenType.client;
  environment = some "development";
  projects = projects;
  status = TokenValidationStatus.validated;
}

abbrev pub wildcard_token : EdgeToken
wildcard_token = client_token "*:development.1111111" ("*" ∷ [])

abbrev pub project_token : EdgeToken
project_token = client_token "a:development.2222222" ("a" ∷ [])

abbrev pub wildcard_refresh : TokenRefresh
wildcard_refresh = record {
  token = wildcard_token;
  etag = none;
  next_refresh = none;
  last_refreshed = none;
  last_feature_count = none;
  last_check = none;
  failure_count = 3;
}

abbrev pub project_refresh : TokenRefresh
project_refresh = record wildcard_refresh { token = project_token }

-- two tokens of which the first does not subsume the second
module _ (a b : TokenRefresh) (apart : subsumes a.token b.token ≡ false) where
  clash : (x y : TokenRefresh) → x ≡ a → y ≡ b → Subsumes x.token y.token → ⊥
  clash x y e f s = true≢false (
      sym (
        subst (λ z. subsumes z.token b.token ≡ true) e
          (subst (λ z. subsumes x.token z.token ≡ true) f s))
      ∙ apart)

  only : (x : TokenRefresh) → Memᴰ x (b ∷ []) → x ≡ b
  only x (Memᴰ.head e) = e
  only x (Memᴰ.tail m) = absurd (Memᴰ.not-nil m)

  pub pair-IsAntisymmetric : IsAntisymmetric (a ∷ b ∷ [])
  pair-IsAntisymmetric = record {
    same = λ x y m n s t. elim (Memᴰ.cases_cons m) [
      | inl e ↦ elim (Memᴰ.cases_cons n) [
        | inl f ↦ ap (λ r. r.token.token) (e ∙ sym f)
        | inr n' ↦ absurd (clash x y e (only y n') s)
      ]
      | inr m' ↦ elim (Memᴰ.cases_cons n) [
        | inl f ↦ absurd (clash y x f (only x m') t)
        | inr n' ↦ ap (λ r. r.token.token) (only x m' ∙ sym (only y n'))
      ]
    ];
  }
