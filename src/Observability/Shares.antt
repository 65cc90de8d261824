-- ===== src/Observability/Shares.antt =====
-- worker.go and promadapter.go: what each emission of a job does to the gauge of the jobs in flight and to
-- the counter of the processed jobs.
use mkq.Prelude.{
  ℕ, ◌+◌, ◌&&◌, List, [], ◌∷◌, ◌++◌, Option, none, some, Bytes, codes, StringMap, get, eq_bytes,
  eq_bytes_refl, Bool-cases, inl, inr, ℤ, pos, negsuc, ◌≡◌, refl, ◌∙◌, arith, if◌then◌else◌, ltb_ℤ,
}
use mkq.Decimal.{parse_int64}
use mkq.Redis.{World, History, Result, ok, err}
use mkq.Worker.Finish.{Worker, Prefetched}
use mkq.Worker.Finalise.Defs.{Status, completed, failed, Finalised}
use mkq.Observability.{Attrs, Emission, Collector, jobs_processed, jobs_in_flight, prom, prom_all}
use mkq.Observability.Emitted.{
  in_flight, processed, waited, dispatch_wait_emits, by_status, of_finalised, finalised,
  process_job_emits, stalled_failed, run_job_emits,
}
use mkq.Observability.Readings.{
  ups, downs, ups-cons, downs-cons, ups_nil, downs_nil, append_sum, raised, lowered,
}

-- One job that a dispatch loop ran.
pub record JobRun : Type 0 where
  pub token : Bytes
  pub job_id : Bytes
  pub job_map : StringMap
  pub begun : History

-- The word for a status that ends a job.
abbrev pub word : Status → Option Bytes
word completed = some (codes "completed")
word failed = some (codes "failed")
word _ = none

module _ (w : World) (k : Worker) (elapsed : History → ℕ) where
  abbrev pub emits : JobRun → List Emission
  emits r = run_job_emits w k elapsed r.token r.job_id r.job_map r.begun

  -- How a run ended its job: what `finalise` did, or for a job that stalled too often moveToFinished.
  abbrev pub of_result : Result Finalised → Option Bytes
  of_result (ok f) = word f.status
  of_result (err e) = none

  abbrev pub of_moved : Result (Option Prefetched) → Option Bytes
  of_moved (ok p) = some (codes "failed")
  of_moved (err e) = none

  abbrev pub settled_with : JobRun → Bytes → Option Bytes
  settled_with r [] = of_result (finalised w k elapsed r.token r.job_id r.job_map r.begun)
  settled_with r (c ∷ s) =
      of_moved (stalled_failed w k elapsed r.token r.job_id r.job_map (c ∷ s) r.begun)

  abbrev pub settled : JobRun → Option Bytes
  settled r = settled_with r (get r.job_map (codes "defa"))

  abbrev pub queue_labels : Attrs
  queue_labels = (codes "queue", k.keys.queue) ∷ []

  abbrev pub job_labels : Bytes → Bytes → Attrs
  job_labels name status =
      (codes "queue", k.keys.queue) ∷ (codes "name", name) ∷ (codes "status", status) ∷ []

  abbrev pub matches : Bytes → Bytes → Bytes → Option Bytes → ℕ
  matches name status n none = 0
  matches name status n (some t) = if eq_bytes name n && eq_bytes status t then 1 else 0

  waited-quiet :
      (c : Collector) (ls : Attrs) (x : ℕ)
      → (ups c ls (waited w k elapsed x) ≡ 0) × (downs c ls (waited w k elapsed x) ≡ 0)
  unfolding prom_all prom
  waited-quiet c ls x = elim (Bool-cases (w.floats.le (w.floats.of_int64 (pos 0)) x)) [
    | inl e ↦ rw (e) (refl, refl)
    | inr e ↦ rw (e) (refl, refl)
  ]

  dispatch_wait_emits-quiet :
      (c : Collector) (ls : Attrs) (m : StringMap) (h : History)
      → (ups c ls (dispatch_wait_emits w k elapsed m h) ≡ 0)
        × (downs c ls (dispatch_wait_emits w k elapsed m h) ≡ 0)
  unfolding dispatch_wait_emits prom_all
  dispatch_wait_emits-quiet c ls m h =
      elim (Bool-cases (
        (parse_int64 (get m (codes "timestamp"))).1
        && ltb_ℤ (pos 0) (parse_int64 (get m (codes "timestamp"))).0)) [
          | inl e ↦ rw (e) (waited-quiet c ls _)
          | inr e ↦ rw (e) (refl, refl)
        ]

  pub gauge-status :
      (n : Bytes) (s : Status)
      → (ups jobs_in_flight queue_labels (by_status w k elapsed n s) ≡ 0)
        × (downs jobs_in_flight queue_labels (by_status w k elapsed n s) ≡ 0)
  unfolding prom_all prom
  gauge-status n completed = (refl, refl)
  gauge-status n failed = (refl, refl)
  gauge-status n _ = (refl, refl)

  pub counter-processed :
      (name status n t : Bytes)
      → (ups jobs_processed (job_labels name status) (processed w k elapsed n t ∷ [])
          ≡ matches name status n (some t))
        × (downs jobs_processed (job_labels name status) (processed w k elapsed n t ∷ []) ≡ 0)
  unfolding prom_all prom
  counter-processed name status n t =
      rw (eq_bytes_refl k.keys.queue) (elim (Bool-cases (eq_bytes name n)) [
        | inl a ↦ elim (Bool-cases (eq_bytes status t)) [
          | inl b ↦ rw (a, b) (refl, refl)
          | inr b ↦ rw (a, b) (refl, refl)
        ]
        | inr a ↦ rw (a) (refl, refl)
      ])

  pub plus_up :
      (c : Collector) (ls : Attrs) (es fs : List Emission)
      → ups c ls (es ++ fs) ≡ ups c ls es + ups c ls fs
  plus_up c ls = append_sum (ups c ls) (λ e. raised c ls (prom e)) (ups_nil c ls) (ups-cons c ls)

  pub plus_down :
      (c : Collector) (ls : Attrs) (es fs : List Emission)
      → downs c ls (es ++ fs) ≡ downs c ls es + downs c ls fs
  plus_down c ls =
      append_sum (downs c ls) (λ e. lowered c ls (prom e)) (downs_nil c ls) (downs-cons c ls)

  -- Histograms change neither the gauge nor a counter.
  pub process_sums :
      (c : Collector) (ls : Attrs) (token job_id : Bytes) (m : StringMap) (h : History)
      → let rest =
          of_finalised w k elapsed
            (get m (codes "name"))
            (finalised w k elapsed token job_id m h) in
        (ups c ls (process_job_emits w k elapsed token job_id m h) ≡ ups c ls rest)
        × (downs c ls (process_job_emits w k elapsed token job_id m h) ≡ downs c ls rest)
  unfolding process_job_emits prom
  process_sums c ls token job_id m h =
      let (up, down) = dispatch_wait_emits-quiet c ls m h in
      (
        plus_up c ls (dispatch_wait_emits w k elapsed m h) _ ∙ omega (arith, up, ups-cons c ls _ _),
        plus_down c ls (dispatch_wait_emits w k elapsed m h) _
            ∙ omega (arith, down, downs-cons c ls _ _),
      )

  pub gauge-start :
      (ups jobs_in_flight queue_labels (in_flight w k elapsed (pos 1) ∷ []) ≡ 1)
      × (downs jobs_in_flight queue_labels (in_flight w k elapsed (pos 1) ∷ []) ≡ 0)
  unfolding prom_all prom
  gauge-start = rw (eq_bytes_refl k.keys.queue) (refl, refl)

  pub gauge-end :
      (ups jobs_in_flight queue_labels (in_flight w k elapsed (negsuc 0) ∷ []) ≡ 0)
      × (downs jobs_in_flight queue_labels (in_flight w k elapsed (negsuc 0) ∷ []) ≡ 1)
  unfolding prom_all prom
  gauge-end = rw (eq_bytes_refl k.keys.queue) (refl, refl)

  pub counter-ends :
      (name status : Bytes) (d : ℤ)
      → (ups jobs_processed (job_labels name status) (in_flight w k elapsed d ∷ []) ≡ 0)
        × (downs jobs_processed (job_labels name status) (in_flight w k elapsed d ∷ []) ≡ 0)
  unfolding prom_all prom
  counter-ends name status d = (refl, refl)
