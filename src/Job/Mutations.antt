-- ===== src/Job/Mutations.antt =====
-- job.go and job_mutation.go: progress, payload and log lines of a job. Values are encoded by the caller.
pub mod Answers
use mkq.Prelude.{
  [], ◌∷◌, ◌++◌, ◌==◌, Option, none, some, List, Bytes, codes, ℤ, pos, negsuc, if◌then◌else◌,
}
use mkq.Failure.{Failure, coded, sentinel, job_not_found, job_detached, is_redis_nil, wrap}
use mkq.Keys
use mkq.Keys.{Builder}
use mkq.Redis.{
  Value, int, text, Call, eval, lrange, llen, World, M, Result, ok, err, ask, and_then,
  with_context,
}
use mkq.Redis.Scripts.{update_progress, update_data, add_log}
use mkq.Inspector.Admin.{empty_id}

-- The codes of updateProgress and updateData; a reply that is no int64 is a success.
abbrev pub mutation_code : ℤ → Result (Unit {0})
mutation_code (pos n) = ok tt
mutation_code (negsuc n) =
    if n == 0
    then err (sentinel job_not_found)
    else err (coded (codes "mkq: mutation lua returned error code") (negsuc n))

unfoldable pub classify_mutation_result : Value → Result (Unit {0})
classify_mutation_result (int n) = mutation_code n
classify_mutation_result _ = ok tt

-- addLog gives the length of the list.
abbrev pub log_code : Value → Result (Unit {0})
log_code (int (negsuc n)) = err (sentinel job_not_found)
log_code _ = ok tt

module _ (w : World) (b : Builder) where
  abbrev pub progress_call : Bytes → Bytes → Call
  progress_call job_id body =
      eval update_progress
        (Keys.job b job_id ∷ Keys.slot b Keys.events ∷ Keys.slot b Keys.meta ∷ [])
        (text job_id ∷ text body ∷ [])

  abbrev pub data_call : Bytes → Bytes → Call
  data_call job_id body = eval update_data (Keys.job b job_id ∷ []) (text body ∷ [])

  abbrev pub log_call : Bytes → Bytes → Call
  log_call job_id line =
      eval add_log (Keys.job b job_id ∷ Keys.job_logs b job_id ∷ [])
        (text job_id ∷ text line ∷ text [] ∷ [])

  -- A value that json.Marshal was given, and what is done with its text.
  abbrev pub marshalled : Bytes → Result Bytes → (Bytes → M (Unit {0})) → M (Unit {0})
  marshalled context (err e) f h = (err (wrap context e), h)
  marshalled context (ok s) f h = f s h

  unfoldable pub update_job_progress : Bytes → Result Bytes → M (Unit {0})
  unfolding classify_mutation_result
  update_job_progress [] progress h = (err empty_id, h)
  update_job_progress (c ∷ s) progress h =
      marshalled (codes "mkq: marshal progress") progress
        (λ body.
          and_then (with_context (codes "mkq: updateProgress") (ask w (progress_call (c ∷ s) body)))
            classify_mutation_result)
        h

  unfoldable pub update_job_data : Bytes → Result Bytes → M (Unit {0})
  unfolding classify_mutation_result
  update_job_data [] payload h = (err empty_id, h)
  update_job_data (c ∷ s) payload h =
      marshalled (codes "mkq: marshal data") payload
        (λ body.
          and_then (with_context (codes "mkq: updateData") (ask w (data_call (c ∷ s) body)))
            classify_mutation_result)
        h

  unfoldable pub append_job_log : Bytes → Bytes → M (Unit {0})
  append_job_log [] line h = (err empty_id, h)
  append_job_log (c ∷ s) line h =
      and_then (with_context (codes "mkq: addLog") (ask w (log_call (c ∷ s) line))) log_code h

-- A job made by hand has no queue.
abbrev pub detached : Option Builder → (Builder → M (Unit {0})) → M (Unit {0})
detached none f h = (err (sentinel job_detached), h)
detached (some b) f h = f b h

module _ (w : World) (queue : Option Builder) (job_id : Bytes) where
  unfoldable pub job_update_progress : Result Bytes → M (Unit {0})
  unfolding update_job_progress
  job_update_progress progress = detached queue (λ b. update_job_progress w b job_id progress)

  unfoldable pub job_update_data : Result Bytes → M (Unit {0})
  unfolding update_job_data
  job_update_data payload = detached queue (λ b. update_job_data w b job_id payload)

  unfoldable pub job_log : Bytes → M (Unit {0})
  unfolding append_job_log
  job_log line = detached queue (λ b. append_job_log w b job_id line)

pub record JobLogs : Type 0 where
  pub logs : List Bytes
  pub count : ℤ

-- What go-redis makes of the replies of LRANGE and LLEN is a parameter.
module _ (w : World) (b : Builder) (lines_of : Value → List Bytes) (size_of : Value → ℤ) where
  abbrev logs_error : Bytes → Failure → Failure
  logs_error job_id e = wrap (codes "mkq: getJobLogs " ++ job_id) e

  abbrev nil_or {ℓ} : {A : Type ℓ} → Bytes → A → Failure → Result A
  nil_or job_id a e = if is_redis_nil e then ok a else err (logs_error job_id e)

  abbrev lines_or_error : Bytes → Result Value → Result (List Bytes)
  lines_or_error job_id (ok v) = ok (lines_of v)
  lines_or_error job_id (err e) = nil_or job_id [] e

  abbrev size_or_error : Bytes → Result Value → Result ℤ
  size_or_error job_id (ok v) = ok (size_of v)
  size_or_error job_id (err e) = nil_or job_id (pos 0) e

  -- The first error, Exec's, is the first of the two commands' that is not redis.Nil.
  abbrev both : Result (List Bytes) → Result ℤ → Result JobLogs
  both (err e) r = err e
  both (ok l) (err e) = err e
  both (ok l) (ok n) = ok (record { logs = l; count = n })

  unfoldable pub get_job_logs : Bytes → ℤ → ℤ → M JobLogs
  get_job_logs [] start stop h = (err empty_id, h)
  get_job_logs (c ∷ s) start stop h =
      let key = Keys.job_logs b (c ∷ s) in
      let first = lrange key start stop in
      let second = llen key in
      (
        both (lines_or_error (c ∷ s) (w.redis h first))
            (size_or_error (c ∷ s) (w.redis (first ∷ h) second)),
        second ∷ first ∷ h,
      )
