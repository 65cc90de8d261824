-- ===== src/Observability/Balance.antt =====
-- worker.go and promadapter.go: the metrics of any number of dispatch loops.
use mkq.Prelude.{ℕ, ◌+◌, List, [], ◌∷◌, ◌++◌, Bytes, codes, get, map, ◌≡◌, refl, ◌∙◌, arith}
use mkq.Redis.{World, History}
use mkq.Worker.Finish.{Worker}
use mkq.Observability.{Emission, jobs_processed, jobs_in_flight, prom}
use mkq.Observability.Readings.{
  ups, downs, ups-cons, downs-cons, ups_nil, downs_nil, raised, lowered, append_sum, Merge-sum,
  Interleaves, nobody, somebody,
}
use mkq.Observability.Shares.{JobRun, emits, settled, queue_labels, job_labels, matches}
use mkq.Observability.Runs.{gauge-run, counter-run}

abbrev pub total {ℓ} : {A : Type ℓ} → (A → ℕ) → List A → ℕ
total f [] = 0
total f (a ∷ l) = f a + total f l

total_zero {ℓ} : {A : Type ℓ} (l : List A) → total (λ a. 0) l ≡ 0
total_zero [] = refl
total_zero (a ∷ l) = omega (arith, total_zero l)

total_zeros {ℓ} : {A : Type ℓ} (ls : List (List A)) → total (total (λ a. 0)) ls ≡ 0
total_zeros [] = refl
total_zeros (l ∷ ls) = omega (arith, total_zero l, total_zeros ls)

module _ (w : World) (k : Worker) (elapsed : History → ℕ) where
  -- What a loop emits that runs one job after another.
  abbrev pub loop_emits : List JobRun → List Emission
  loop_emits [] = []
  loop_emits (r ∷ rs) = emits w k elapsed r ++ loop_emits rs

  -- How many runs of jobs of a name ended them with a status.
  abbrev pub ended_with : Bytes → Bytes → List JobRun → ℕ
  ended_with name status =
      total (λ r.
        matches w k elapsed name status (get r.job_map (codes "name")) (settled w k elapsed r))

  abbrev pub how_many : List JobRun → ℕ
  how_many = total (λ r. 1)

  -- A count that adds up, of which each run gives its share, over interleaved loops.
  module _ (f : List Emission → ℕ) (g : Emission → ℕ) (nil : f [] ≡ 0)
      (cons : (e : Emission) (es : List Emission) → f (e ∷ es) ≡ g e + f es) (share : JobRun → ℕ)
      (each : (r : JobRun) → f (emits w k elapsed r) ≡ share r) where
    loop_sum : (rs : List JobRun) → f (loop_emits rs) ≡ total share rs
    loop_sum [] = nil
    loop_sum (r ∷ rs) =
        append_sum f g nil cons (emits w k elapsed r) (loop_emits rs)
        ∙ omega (arith, each r, loop_sum rs)

    loops_sum :
        (slots : List (List JobRun)) (all : List Emission)
        → Interleaves (map loop_emits slots) all
        → f all ≡ total (total share) slots
    loops_sum [] all nobody = nil
    loops_sum (rs ∷ slots) all (somebody _ _ ys _ inner m) =
        Merge-sum f g nil cons m ∙ omega (arith, loop_sum rs, loops_sum slots ys inner)

  -- Any number of dispatch loops of a worker, each of which runs one job after another, whatever becomes
  -- of the jobs, with their emissions in any order that keeps each loop's own: behind the Prometheus adapter
  -- the gauge of the jobs in flight has been raised once and lowered once for every run, and the counter of
  -- processed jobs of a name and a status has been raised by the number of runs that ended a job of that
  -- name with that status, a run that handed its job back or whose last call failed not counted.
  pub emissions-balance :
      (slots : List (List JobRun)) (all : List Emission) (name status : Bytes)
      → Interleaves (map loop_emits slots) all
      → (ups jobs_in_flight (queue_labels w k elapsed) all ≡ total how_many slots)
        × (downs jobs_in_flight (queue_labels w k elapsed) all ≡ total how_many slots)
        × (ups jobs_processed (job_labels w k elapsed name status) all
            ≡ total (ended_with name status) slots)
        × (downs jobs_processed (job_labels w k elapsed name status) all ≡ 0)
  emissions-balance slots all name status i =
      let gauge = queue_labels w k elapsed in
      let counter = job_labels w k elapsed name status in
      (
        loops_sum (ups jobs_in_flight gauge) (λ e. raised jobs_in_flight gauge (prom e))
            (ups_nil jobs_in_flight gauge) (ups-cons jobs_in_flight gauge) (λ r. 1)
            (λ r. (gauge-run w k elapsed r).0) slots all i,
        loops_sum (downs jobs_in_flight gauge) (λ e. lowered jobs_in_flight gauge (prom e))
            (downs_nil jobs_in_flight gauge) (downs-cons jobs_in_flight gauge) (λ r. 1)
            (λ r. (gauge-run w k elapsed r).1) slots all i,
        loops_sum (ups jobs_processed counter) (λ e. raised jobs_processed counter (prom e))
            (ups_nil jobs_processed counter) (ups-cons jobs_processed counter)
            (λ r.
              matches w k elapsed name status (get r.job_map (codes "name"))
                (settled w k elapsed r))
            (λ r. (counter-run w k elapsed r name status).0) slots all i,
        loops_sum (downs jobs_processed counter) (λ e. lowered jobs_processed counter (prom e))
              (downs_nil jobs_processed counter) (downs-cons jobs_processed counter) (λ r. 0)
              (λ r. (counter-run w k elapsed r name status).1) slots all i
            ∙ total_zeros slots,
      )
