-- ===== src/FeatureCache/Notify.antt =====
-- What each operation of the cache changes, and what it tells the subscribers.
use unleash_edge.Prelude.{
  ◌≡◌, refl, String, Option, none, some, [], ◌∷◌, ◌++◌, arith, ◌==◌, if◌then◌else◌, string_eq,
}
use unleash_edge.Dict.Laws.{get-insert, get-remove, get-upsert}
use unleash_edge.Features.{UnleashTypes, ClientFeatures, Engine}
use unleash_edge.Types.{EdgeToken}
use unleash_edge.FeatureCache.{
  FeatureCache, full, update_client_features, send_full_update, get, insert, remove, modify,
  apply_delta,
}

-- The operations that change the cache.
pub data CacheOp (u : UnleashTypes) (e : Engine u) : Type 0 where
  insert_features : String → ClientFeatures u → CacheOp u e
  remove_features : String → CacheOp u e
  modify_features : String → EdgeToken → ClientFeatures u → CacheOp u e
  delta_features : String → e.Delta → CacheOp u e

module _ (u : UnleashTypes) (e : Engine u) where
  unfoldable pub run : CacheOp u e → FeatureCache u → FeatureCache u
  run (CacheOp.insert_features k f) c = (insert u k f c).0
  run (CacheOp.remove_features k) c = (remove u k c).0
  run (CacheOp.modify_features k t f) c = modify u k t f c
  run (CacheOp.delta_features k d) c = apply_delta u e k d c

  abbrev pub op_key : CacheOp u e → String
  op_key (CacheOp.insert_features k f) = k
  op_key (CacheOp.remove_features k) = k
  op_key (CacheOp.modify_features k t f) = k
  op_key (CacheOp.delta_features k d) = k

  -- what the operation leaves at its key, from what was there
  abbrev pub new_value : CacheOp u e → Option (ClientFeatures u) → Option (ClientFeatures u)
  new_value (CacheOp.insert_features k f) _ = some f
  new_value (CacheOp.remove_features k) _ = none
  new_value (CacheOp.modify_features k t f) none = some f
  new_value (CacheOp.modify_features k t f) (some old) = some (update_client_features u t old f)
  new_value (CacheOp.delta_features k d) none = some (e.create_from_delta d)
  new_value (CacheOp.delta_features k d) (some old) = some (e.apply_delta old d)

  -- Each operation leaves its value at its key, changes no other key, and sends one full update, of
  -- its key.
  pub run_effect :
      (op : CacheOp u e) (c : FeatureCache u) (j : String)
      → (get u j (run op c) ≡ (if op_key op == j then new_value op (get u j c) else get u j c))
        × ((run op c).sent ≡ c.sent ++ full (op_key op) ∷ [])
  unfolding run get insert remove modify apply_delta send_full_update
  run_effect (CacheOp.insert_features k f) c j = (get-insert j k f c.features, refl)
  run_effect (CacheOp.remove_features k) c j = (get-remove j k c.features, refl)
  run_effect (CacheOp.modify_features k t f) c j =
      (ground (arith, get-upsert j k (λ o. update_client_features u t o f) f c.features), refl)
  run_effect (CacheOp.delta_features k d) c j = (
    ground (arith, get-upsert j k (λ o. e.apply_delta o d) (e.create_from_delta d) c.features),
    refl,
  )
