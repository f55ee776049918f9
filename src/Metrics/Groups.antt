-- ===== src/Metrics/Groups.antt =====
-- `get_metrics_by_environment`: a batch for each environment, with just its metrics.
use mathlib.Core.List.{append-nil, append_assoc}
use unleash_edge.Prelude.{
  ℕ, ◌≡◌, refl, sym, ◌∙◌, ap, String, Bool, true, false, Option, none, some, List, [], ◌∷◌, ◌++◌,
  map, arith, string_eq, ◌==◌, filter, if◌then◌else◌,
}
use mathlib.Core.Option
use unleash_edge.Dict
use unleash_edge.Dict.{Dict, values}
use unleash_edge.Dict.Laws.{get-upsert}
use unleash_edge.Metrics.Data.{MetricsTypes, ClientMetricsEnv, MetricsBatch}
use unleash_edge.Metrics.Cache.{MetricsCache}
use unleash_edge.Metrics.Batches.{group_by_environment, get_metrics_by_environment}

module _ (t : MetricsTypes) where
  abbrev pub of_environment : String → List (ClientMetricsEnv t) → List (ClientMetricsEnv t)
  of_environment env l = filter (λ m. m.environment == env) l

  -- no group is empty
  abbrev pub not_empty : List (ClientMetricsEnv t) → Option (List (ClientMetricsEnv t))
  not_empty [] = none
  not_empty (x ∷ xs) = some (x ∷ xs)

  -- a group with more metrics at its end
  abbrev extended :
      Option (List (ClientMetricsEnv t))
      → List (ClientMetricsEnv t)
      → Option (List (ClientMetricsEnv t))
  extended none more = not_empty more
  extended (some group) more = some (group ++ more)

  extend_step :
      (o : Option (List (ClientMetricsEnv t))) (m : ClientMetricsEnv t)
      (more : List (ClientMetricsEnv t))
      → extended (elim o [ none ↦ some (m ∷ []) | some group ↦ some (group ++ m ∷ []) ]) more
        ≡ extended o (m ∷ more)
  extend_step none m more = refl
  extend_step (some group) m more = ap some (append_assoc group (m ∷ []) more)

  either_group :
      (b : Bool) (o : Option (List (ClientMetricsEnv t))) (m : ClientMetricsEnv t)
      (more : List (ClientMetricsEnv t))
      → extended
          (if b then elim o [ none ↦ some (m ∷ []) | some group ↦ some (group ++ m ∷ []) ] else o)
          more
        ≡ extended o (if b then m ∷ more else more)
  either_group true o m more = extend_step o m more
  either_group false o m more = refl

  extend_none : (o : Option (List (ClientMetricsEnv t))) → extended o [] ≡ o
  extend_none none = refl
  extend_none (some group) = ap some (append-nil group)

  get-group :
      (l : List (ClientMetricsEnv t)) (groups : Dict String (List (ClientMetricsEnv t)))
      (env : String)
      → Dict.get env (group_by_environment t l groups)
        ≡ extended (Dict.get env groups) (of_environment env l)
  unfolding group_by_environment filter
  get-group [] groups env = sym (extend_none (Dict.get env groups))
  get-group (m ∷ l) groups env =
      get-group l (Dict.upsert m.environment (λ group. group ++ m ∷ []) (m ∷ []) groups) env
      ∙ (ap (λ o. extended o (of_environment env l))
            (get-upsert env m.environment (λ group. group ++ m ∷ []) (m ∷ []) groups)
          ∙ either_group (m.environment == env) (Dict.get env groups) m (of_environment env l))

  get-mapped :
      (f : List (ClientMetricsEnv t) → MetricsBatch t)
      (groups : Dict String (List (ClientMetricsEnv t))) (env : String)
      → Dict.get env (map (λ g. (g.0, f g.1)) groups) ≡ Option.map f (Dict.get env groups)
  unfolding Dict.get
  get-mapped f [] env = refl
  get-mapped f ((k, g) ∷ groups) env = ground (arith, get-mapped f groups env)

  -- The batch of an environment has all the applications, and exactly the metrics of that environment,
  -- in their order; an environment without metrics has no batch.
  pub environment_batch :
      (size_of_batch : MetricsBatch t → ℕ) (self : MetricsCache t) (env : String)
      → Dict.get env (get_metrics_by_environment t size_of_batch self)
        ≡ Option.map
            (λ metrics. record { applications = values self.applications; metrics = metrics })
            (not_empty (of_environment env (values self.metrics)))
  unfolding get_metrics_by_environment Dict.get
  environment_batch size_of_batch self env =
      let f : List (ClientMetricsEnv t) → MetricsBatch t =
        λ metrics. record { applications = values self.applications; metrics = metrics } in
      get-mapped f (group_by_environment t (values self.metrics) []) env
      ∙ ap (Option.map f) (get-group (values self.metrics) [] env)
