-- ===== src/Metrics/Cutting.antt =====
-- What is left of the metrics when a batch is cut: all of them, up to where the last batch ends.
use native.Mathlib.Numerals.{unary_clauses}
use native.Mathlib.Nat.{div-add-mod'}
use mathlib.Core.List.{append-nil}
use unleash_edge.Prelude.{
  length_of_take, ◌⊎◌, ◌↔◌, ℕ, zero, suc, ◌+◌, ◌*◌, ◌/◌, ◌%◌, ◌≤◌, ◌≡◌, refl, sym, ◌∙◌, ap, true,
  false, List, [], ◌∷◌, ◌++◌, map, arith, ◌=ℕ◌, length, nil_of_is_empty, filter, take, skip,
  take-skip, skip-skip, take-all, take_enough, flatten, range_from, if◌then◌else◌, Bool-cases, inl,
  inr,
}
use unleash_edge.Metrics.Data.{MetricsTypes, ClientMetricsEnv, MetricsBatch}
use unleash_edge.Metrics.Batches.{chunk, batch_count, cut, has_content, cut_into_sendable_batches}

module _ {A : Type 0} (items : List A) where
  chunk_full :
      (per_batch counter : ℕ)
      → per_batch =ℕ 0 ≡ false
      → chunk per_batch items counter ≡ take per_batch (skip (counter * per_batch) items)
  unfolding chunk
  chunk_full per_batch counter h = ground arith

  -- counting on from a batch
  next_start : (start per_batch : ℕ) → suc start * per_batch ≡ start * per_batch + per_batch
  next_start start per_batch = omega arith

  chunks_after :
      (per_batch start count : ℕ)
      → per_batch =ℕ 0 ≡ false
      → flatten (map (chunk per_batch items) (range_from start count))
        ≡ take (count * per_batch) (skip (start * per_batch) items)
  unfolding flatten range_from take
  chunks_after per_batch start zero h =
      let e : 0 ≡ 0 * per_batch = omega arith in ap (λ k. take k (skip (start * per_batch) items)) e
  chunks_after per_batch start (suc count) h =
      let first = chunk per_batch items start in
      let from_here = skip (start * per_batch) items in
      let e : per_batch + count * per_batch ≡ suc count * per_batch = omega arith in
      ap (λ l. first ++ l) (chunks_after per_batch (suc start) count h)
      ∙ (ap (λ k. first ++ take (count * per_batch) (skip k items)) (next_start start per_batch)
          ∙ (ap (λ l. first ++ take (count * per_batch) l)
                (skip-skip (start * per_batch) per_batch items)
              ∙ (ap (λ l. l ++ take (count * per_batch) (skip per_batch from_here))
                    (chunk_full per_batch start h)
                  ∙ (take-skip per_batch (count * per_batch) from_here
                      ∙ ap (λ k. take k from_here) e))))

  no_chunk : (counter : ℕ) → chunk 0 items (suc counter) ≡ []
  unfolding chunk take
  no_chunk counter = ground arith

  no_chunks : (start count : ℕ) → flatten (map (chunk 0 items) (range_from (suc start) count)) ≡ []
  unfolding flatten range_from
  no_chunks start zero = refl
  no_chunks start (suc count) = rw (no_chunk start) (no_chunks (suc start) count)

  first_has_all : (count : ℕ) → flatten (map (chunk 0 items) (range_from 0 (count + 1))) ≡ items
  unfolding flatten range_from chunk skip
  first_has_all count =
      simp unary_clauses
        (rw (no_chunks 0 count) (append-nil (take (length items) items) ∙ take-all items))

  -- the parts of a list that the batches have, in a row
  abbrev parts : ℕ → ℕ → List (List A)
  parts per_batch count = map (chunk per_batch items) (range_from 0 (count + 1))

  -- what the parts hold together
  abbrev pub covered : ℕ → ℕ → List A
  covered per_batch count = if per_batch =ℕ 0 then items else take ((count + 1) * per_batch) items

  covered_pos :
      (per_batch count : ℕ)
      → per_batch =ℕ 0 ≡ false
      → covered per_batch count ≡ take ((count + 1) * per_batch) items
  covered_pos per_batch count h = rw h refl

  covered_zero : (per_batch count : ℕ) → per_batch =ℕ 0 ≡ true → covered per_batch count ≡ items
  covered_zero per_batch count h = rw h refl

  parts-covered : (per_batch count : ℕ) → flatten (parts per_batch count) ≡ covered per_batch count
  unfolding skip
  parts-covered zero count = first_has_all count
  parts-covered (suc p) count =
      let e : 0 * suc p ≡ 0 = omega arith in
      let positive : suc p =ℕ 0 ≡ false = ground arith in
      chunks_after (suc p) 0 (count + 1) positive
      ∙ (ap (λ k. take ((count + 1) * suc p) (skip k items)) e
          ∙ sym (covered_pos (suc p) count positive))

  rest_fits :
      (count : ℕ)
      → let per = length items / (count + 1) in
        per =ℕ 0 ≡ false
        → (per ≡ 0) ⊎ (length items % (count + 1) ≤ per)
        → length items ≤ (count + 1 + 1) * per
  rest_fits count positive (inl none) = absurd (ground arith)
  rest_fits count positive (inr fits) =
      let per = length items / (count + 1) in
      let whole = div-add-mod' (length items) (count + 1) in
      let bound : (count + 1 + 1) * per ≡ per * (count + 1) + per = omega arith in omega arith

  -- nothing is lost if the rest of the division fits into the one batch more
  covered_iff :
      (count : ℕ)
      → (covered (length items / (count + 1)) (count + 1) ≡ items) ↔ (
          (length items / (count + 1) ≡ 0)
          ⊎ (length items % (count + 1) ≤ length items / (count + 1)))
  covered_iff count =
      let whole = div-add-mod' (length items) (count + 1) in
      let per = length items / (count + 1) in
      let bound : (count + 1 + 1) * per ≡ per * (count + 1) + per = omega arith in
      elim (Bool-cases (per =ℕ 0)) [
        | inl none ↦ (λ h. inl (ground arith), λ h. covered_zero per (count + 1) none)
        | inr some ↦ (
          λ h.
              let enough =
                length_of_take ((count + 1 + 1) * per) items
                  (sym (covered_pos per (count + 1) some) ∙ h) in
              inr (omega arith),
          λ fits.
              covered_pos per (count + 1) some
              ∙ take_enough ((count + 1 + 1) * per) items (rest_fits count some fits),
        )
      ]

module _ (t : MetricsTypes) (size_of_batch : MetricsBatch t → ℕ) where
  flatten-filter :
      (f : MetricsBatch t → List (ClientMetricsEnv t)) (bs : List (MetricsBatch t))
      → ((b : MetricsBatch t) → has_content t size_of_batch b ≡ false → f b ≡ [])
      → flatten (map f (filter (has_content t size_of_batch) bs)) ≡ flatten (map f bs)
  unfolding flatten filter
  flatten-filter f [] h = refl
  flatten-filter f (b ∷ bs) h = elim (Bool-cases (has_content t size_of_batch b)) [
    | inl y ↦ rw y (ap (λ l. f b ++ l) (flatten-filter f bs h))
    | inr n ↦ rw (n, h b n) (flatten-filter f bs h)
  ]

  map-cut :
      (batch : MetricsBatch t) (l : List ℕ)
      → map (λ b. b.metrics) (map (cut t size_of_batch batch) l)
        ≡ map (chunk (length batch.metrics / batch_count t size_of_batch batch) batch.metrics) l
  unfolding cut
  map-cut batch [] = refl
  map-cut batch (c ∷ cs) =
      ap (λ l. chunk (length batch.metrics / batch_count t size_of_batch batch) batch.metrics c ∷ l)
        (map-cut batch cs)

  -- The batches hold, in order and each once, the metrics that they were cut from up to a bound: with
  -- `n` batches of `k` metrics each planned, the first `(n + 1) * k`, or all if `k` is 0.
  pub cut_metrics :
      (batch : MetricsBatch t)
      → let count = batch_count t size_of_batch batch in
        flatten (map (λ b. b.metrics) (cut_into_sendable_batches t size_of_batch batch))
        ≡ covered batch.metrics (length batch.metrics / count) count
  unfolding cut_into_sendable_batches
  cut_metrics batch =
      let count = batch_count t size_of_batch batch in
      flatten-filter (λ b. b.metrics) (map (cut t size_of_batch batch) (range_from 0 (count + 1)))
        (λ b h. nil_of_is_empty b.metrics (ground arith))
      ∙ (ap flatten (map-cut batch (range_from 0 (count + 1)))
          ∙ parts-covered batch.metrics (length batch.metrics / count) count)

  -- Cutting loses no metric exactly if fewer metrics than batches are planned, or the rest of their
  -- division among the batches fits into one batch more; else the last metrics are in no batch.
  pub cut_lossless_iff :
      (batch : MetricsBatch t)
      → let count = batch_count t size_of_batch batch in
        (flatten (map (λ b. b.metrics) (cut_into_sendable_batches t size_of_batch batch))
          ≡ batch.metrics)
        ↔ ((length batch.metrics / count ≡ 0)
            ⊎ (length batch.metrics % count ≤ length batch.metrics / count))
  cut_lossless_iff batch =
      let (to, from) = covered_iff batch.metrics (size_of_batch batch / 97280) in
      (λ h. to (sym (cut_metrics batch) ∙ h), λ h. cut_metrics batch ∙ from h)
