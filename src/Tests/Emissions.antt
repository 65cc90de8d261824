-- ===== src/Tests/Emissions.antt =====
-- Two dispatch loops, one of which runs a job.
use mkq.Prelude.{ℕ, List, [], ◌∷◌, codes, ◌≡◌, map}
use mkq.Redis.{History}
use mkq.Observability.{Emission, jobs_processed, jobs_in_flight}
use mkq.Observability.Readings.{ups, downs, Interleaves, nobody, somebody, Merge, neither, left}
use mkq.Observability.Shares.{JobRun, queue_labels, job_labels}
use mkq.Observability.Balance.{total, loop_emits, ended_with, emissions-balance}
use mkq.Tests.Setup.{open_world, worker, job_map, job_id, token}

abbrev one_run : JobRun
one_run = record { token = token; job_id = job_id; job_map = job_map; begun = [] }

alone : {A : Type 0} (xs : List A) → Merge xs [] xs
alone [] = neither
alone (x ∷ xs) = left x xs [] xs (alone xs)

abbrev elapsed : History → ℕ
elapsed h = 7

abbrev loops : List (List JobRun)
loops = (one_run ∷ one_run ∷ []) ∷ [] ∷ []

abbrev merged : List Emission
merged = loop_emits open_world worker elapsed (one_run ∷ one_run ∷ [])

one_busy : Interleaves (map (loop_emits open_world worker elapsed) loops) merged
one_busy = somebody merged ([] ∷ []) [] merged (somebody [] [] [] [] nobody neither) (alone merged)

emissions-balance_example :
    let gauge = queue_labels open_world worker elapsed in
    let counter = job_labels open_world worker elapsed (codes "send") (codes "completed") in
    (ups jobs_in_flight gauge merged ≡ 2)
    × (downs jobs_in_flight gauge merged ≡ 2)
    × (ups jobs_processed counter merged
        ≡ total (ended_with open_world worker elapsed (codes "send") (codes "completed")) loops)
    × (downs jobs_processed counter merged ≡ 0)
emissions-balance_example =
    emissions-balance open_world worker elapsed loops merged (codes "send") (codes "completed")
      one_busy
