-- ===== src/Examples/Persisting.antt =====
-- The theorems on the backups at concrete inputs.
use mathlib.Core.Option
use unleash_edge.Prelude.{
  ◌≡◌, refl, String, true, Option, none, some, List, [], ◌∷◌, string_eq, arith,
}
use unleash_edge.Dict
use unleash_edge.Dict.{Dict, extend}
use unleash_edge.Error.{EdgeError, ok, err}
use unleash_edge.Types.{EdgeToken, TokenType, TokenValidationStatus}
use unleash_edge.FeatureCache
use unleash_edge.FeatureCache.{FeatureCache}
use unleash_edge.Refresher.Fetch.{compiled}
use unleash_edge.Builder.{Caches}
use unleash_edge.Persistence.{Json, FeatureList, EdgePersistence, persist_turn, restored}
use unleash_edge.Persistence.File
use unleash_edge.Persistence.File.{FileSystem, file_persister, save, write_all}
use unleash_edge.Persistence.Redis.{RedisServer, redis_persister}
use unleash_edge.Persistence.S3.{Service, s3_persister}
use unleash_edge.Persistence.Durable.{IsDurable, RoundTrips, persisters-IsDurable}
use unleash_edge.Persistence.Failures.{failed_save}
use unleash_edge.Persistence.Restart.{if_validated, restart_restores}
use unleash_edge.Examples.Samples.{sample_types, sample_engine, features_of, toggle, project_token}

-- JSON of which only the text of an empty list is written
abbrev empty_only : {A : Type 0} → Json (List A)
empty_only = record {
  to_text = λ l. elim l [ [] ↦ some "[]" | _ ∷ _ ↦ none ];
  of_text = λ _. some [];
  write_error = "not written";
  parse_error = "not read";
}

empty_round : {A : Type 0} → RoundTrips {A = List A} empty_only
empty_round [] t h = refl
empty_round (x ∷ xs) t h = absurd (ground (arith))

-- JSON of a list with one token, which has a secret only
abbrev unknown_token : String → EdgeToken
unknown_token secret = record {
  token = secret;
  token_type = none;
  environment = none;
  projects = [];
  status = TokenValidationStatus.unknown;
}

abbrev text_of_one :
    String → Option TokenType → Option String → List String → TokenValidationStatus → Option String
text_of_one secret none none [] TokenValidationStatus.unknown = some secret
text_of_one secret _ _ _ _ = none

abbrev text_of : List EdgeToken → Option String
text_of (t ∷ []) = text_of_one t.token t.token_type t.environment t.projects t.status
text_of _ = none

abbrev one_token : Json (List EdgeToken)
one_token = record {
  to_text = text_of;
  of_text = λ secret. some (unknown_token secret ∷ []);
  write_error = "not written";
  parse_error = "not read";
}

one_round :
    (secret : String) (k : Option TokenType) (e : Option String) (p : List String)
    (s : TokenValidationStatus) (t : String)
    → text_of_one secret k e p s ≡ some t
    → some (unknown_token t ∷ [])
      ≡ some (
          record { token = secret; token_type = k; environment = e; projects = p; status = s } ∷ [])
one_round secret none none [] TokenValidationStatus.unknown t h = ground (arith)
one_round secret (some _) e p s t h = absurd (ground arith)
one_round secret none (some _) p s t h = absurd (ground arith)
one_round secret none none (_ ∷ _) s t h = absurd (ground arith)
one_round secret none none [] TokenValidationStatus.invalid t h = absurd (ground arith)
one_round secret none none [] TokenValidationStatus.validated t h = absurd (ground arith)

tokens_round : RoundTrips one_token
tokens_round [] t h = absurd (ground arith)
tokens_round (x ∷ []) t h = one_round x.token x.token_type x.environment x.projects x.status t h
tokens_round (x ∷ y ∷ l) t h = absurd (ground arith)

abbrev disk : FileSystem
disk = record {
  opens = λ _. true;
  reads = λ _. true;
  creates = λ _. true;
  fails = λ _. none;
  fails_late = λ _. none;
}

abbrev server : RedisServer
server = record { connects = none; gets = λ _. none; sets = λ _. none; no_value = "nil" }

abbrev service : Service
service = record {
  get_fails = λ _. none;
  collects = λ _. true;
  puts = λ _. true;
  no_such_key = "NoSuchKey";
}

abbrev folder : EdgePersistence sample_types
folder = file_persister disk sample_types one_token empty_only

saved_in_folder : (folder.save_tokens (unknown_token "s" ∷ []) []).1 ≡ ok tt
unfolding File.save_tokens save write_all
saved_in_folder = refl

abbrev redis : EdgePersistence sample_types
redis = redis_persister server sample_types one_token empty_only

abbrev bucket : EdgePersistence sample_types
bucket = s3_persister service sample_types one_token empty_only

persisters-IsDurable_example :
    IsDurable sample_types folder × IsDurable sample_types redis × IsDurable sample_types bucket
persisters-IsDurable_example =
    persisters-IsDurable sample_types one_token empty_only tokens_round empty_round disk server
      service (λ _. (refl, refl, refl)) refl (λ _. refl) (λ _. (refl, refl))

abbrev old : Dict String String
old = ("unleash_tokens.json", "[1]") ∷ []

abbrev full_disk : FileSystem
full_disk = record disk { fails = λ _. some "" }

abbrev secret : List EdgeToken
secret = unknown_token "s" ∷ []

failed_save_example :
    (Dict.get "unleash_tokens.json"
        (save full_disk one_token "unleash_tokens.json" EdgeError.tls_error EdgeError.tls_error
          EdgeError.edge_token_error secret old).0
      ≡ some "")
    × ((save full_disk one_token "unleash_tokens.json" EdgeError.tls_error EdgeError.tls_error
          EdgeError.edge_token_error secret old).1
        ≡ err EdgeError.edge_token_error)
failed_save_example =
    ((failed_save one_token "unleash_tokens.json" secret old server service full_disk
          EdgeError.tls_error EdgeError.tls_error EdgeError.edge_token_error).2.2
        "s" "" refl refl).0
      refl

-- a backup in memory
abbrev memory : EdgePersistence sample_types
memory = record {
  Store = List EdgeToken × FeatureList sample_types;
  load_tokens = λ s. some (ok s.0);
  save_tokens = λ l s. ((l, s.1), ok tt);
  load_features = λ s. some (ok (extend [] s.1));
  save_features = λ l s. ((s.0, l), ok tt);
}

memory-IsDurable : IsDurable sample_types memory
memory-IsDurable = record {
  tokens_kept = λ l s done. refl;
  features_kept = λ l s done. refl;
  tokens_apart = λ l s. refl;
}

abbrev tokens : Dict String EdgeToken
tokens = ("a:development.2222222", project_token) ∷ []

abbrev cache : FeatureCache sample_types
cache = record { features = ("development", features_of (toggle ∷ [])) ∷ []; sent = [] }

abbrev after : Option (Caches sample_types sample_engine)
after =
    restored sample_types memory sample_engine
      (persist_turn sample_types memory tokens cache ([], []))

restart_restores_example :
    (c : Caches sample_types sample_engine) × (after ≡ some c)
    × ((k : String)
        → (Dict.get k c.token_cache ≡ Option.bind (Dict.get k tokens) if_validated)
          × (FeatureCache.get sample_types k c.features_cache
              ≡ FeatureCache.get sample_types k cache)
          × (Dict.get k c.engine_cache
              ≡ Option.map
                  (compiled sample_types sample_engine)
                  (FeatureCache.get sample_types k cache)))
unfolding FeatureCache.is_empty Dict.contains_key
restart_restores_example =
    restart_restores sample_types sample_engine memory memory-IsDurable tokens cache ([], []) refl
      refl (refl, tt) (refl, tt) (refl, tt) refl refl
