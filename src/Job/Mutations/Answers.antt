-- ===== src/Job/Mutations/Answers.antt =====
-- job_mutation.go: what the caller of a mutation is told, against what the script answered.
use mkq.Prelude.{
  false, [], ◌∷◌, none, some, Bytes, is_empty, ◌≡◌, ◌↔◌, refl, pos, negsuc, zero, suc, arith,
}
use mkq.Failure.{sentinel, job_not_found, job_detached}
use mkq.Keys.{Builder}
use mkq.Redis.{
  Value, nil, str, int, float, other, arr, World, History, Result, ok, err, wrapped, checked,
}
use mkq.Job.Mutations.{
  classify_mutation_result, log_code, progress_call, data_call, log_call, update_job_progress,
  update_job_data, append_job_log, job_update_progress, job_update_data, job_log,
}

-- The script ran, and its answer is not a negative number.
abbrev pub Accepted : Result Value → Type 0
Accepted (ok (int (negsuc n))) = ⊥
Accepted (ok v) = Unit
Accepted (err e) = ⊥

-- The answer is a negative number.
abbrev pub Negative : Result Value → Type 0
Negative (ok (int (negsuc n))) = Unit
Negative _ = ⊥

module _ (name : Bytes) where
  accepted :
      (r : Result Value) → (checked (wrapped name r) classify_mutation_result ≡ ok tt) ↔ Accepted r
  unfolding classify_mutation_result
  accepted (ok (int (pos n))) = (λ e. tt, λ a. refl)
  accepted (ok (int (negsuc zero))) = (λ e. cc e, λ a. elim a [ ])
  accepted (ok (int (negsuc (suc n)))) = (λ e. ground arith, λ a. elim a [ ])
  accepted (ok nil) = (λ e. tt, λ a. refl)
  accepted (ok (str s)) = (λ e. tt, λ a. refl)
  accepted (ok (float x)) = (λ e. tt, λ a. refl)
  accepted (ok other) = (λ e. tt, λ a. refl)
  accepted (ok (arr vs)) = (λ e. tt, λ a. refl)
  accepted (err x) = (λ e. cc e, λ a. elim a [ ])

  missing :
      (r : Result Value)
      → (checked (wrapped name r) classify_mutation_result ≡ err (sentinel job_not_found))
        ↔ (r ≡ ok (int (negsuc 0)))
  unfolding classify_mutation_result
  missing (ok (int (pos n))) = (λ e. cc, λ e. cc)
  missing (ok (int (negsuc n))) = ground arith
  missing (ok nil) = (λ e. cc, λ e. cc)
  missing (ok (str s)) = (λ e. cc, λ e. cc)
  missing (ok (float x)) = (λ e. cc, λ e. cc)
  missing (ok other) = (λ e. cc, λ e. cc)
  missing (ok (arr vs)) = (λ e. cc, λ e. cc)
  missing (err x) = (λ e. cc, λ e. cc)

  logged : (r : Result Value) → (checked (wrapped name r) log_code ≡ ok tt) ↔ Accepted r
  logged (ok (int (pos n))) = (λ e. tt, λ a. refl)
  logged (ok (int (negsuc n))) = (λ e. cc e, λ a. elim a [ ])
  logged (ok nil) = (λ e. tt, λ a. refl)
  logged (ok (str s)) = (λ e. tt, λ a. refl)
  logged (ok (float x)) = (λ e. tt, λ a. refl)
  logged (ok other) = (λ e. tt, λ a. refl)
  logged (ok (arr vs)) = (λ e. tt, λ a. refl)
  logged (err x) = (λ e. cc e, λ a. elim a [ ])

  not_logged :
      (r : Result Value)
      → (checked (wrapped name r) log_code ≡ err (sentinel job_not_found)) ↔ Negative r
  not_logged (ok (int (pos n))) = (λ e. cc e, λ a. elim a [ ])
  not_logged (ok (int (negsuc n))) = (λ e. tt, λ a. refl)
  not_logged (ok nil) = (λ e. cc e, λ a. elim a [ ])
  not_logged (ok (str s)) = (λ e. cc e, λ a. elim a [ ])
  not_logged (ok (float x)) = (λ e. cc e, λ a. elim a [ ])
  not_logged (ok other) = (λ e. cc e, λ a. elim a [ ])
  not_logged (ok (arr vs)) = (λ e. cc e, λ a. elim a [ ])
  not_logged (err x) = (λ e. cc e, λ a. elim a [ ])

module _ (w : World) (b : Builder) (h : History) where
  -- For a job of a queue with an id that is not empty, and a value that json.Marshal encodes:
  -- UpdateProgress, UpdateData and Log succeed just when their script ran and did not answer a negative
  -- number. UpdateProgress and UpdateData give ErrJobNotFound just when it answered -1, Log just when it
  -- answered any negative number. Each makes that one call. On a job without a queue they give
  -- ErrJobDetached and make no call.
  pub mutations-Answer :
      (job_id body line : Bytes)
      → is_empty job_id ≡ false
      → let progress = job_update_progress w (some b) job_id (ok body) h in
        let data' = job_update_data w (some b) job_id (ok body) h in
        let log = job_log w (some b) job_id line h in
        let told = w.redis h (progress_call w b job_id body) in
        let stored = w.redis h (data_call w b job_id body) in
        let added = w.redis h (log_call w b job_id line) in
        ((progress.0 ≡ ok tt) ↔ Accepted told)
        × ((progress.0 ≡ err (sentinel job_not_found)) ↔ (told ≡ ok (int (negsuc 0))))
        × ((data'.0 ≡ ok tt) ↔ Accepted stored)
        × ((data'.0 ≡ err (sentinel job_not_found)) ↔ (stored ≡ ok (int (negsuc 0))))
        × ((log.0 ≡ ok tt) ↔ Accepted added)
        × ((log.0 ≡ err (sentinel job_not_found)) ↔ Negative added)
        × (progress.1 ≡ progress_call w b job_id body ∷ h)
        × (data'.1 ≡ data_call w b job_id body ∷ h)
        × (log.1 ≡ log_call w b job_id line ∷ h)
        × (job_update_progress w none job_id (ok body) h ≡ (err (sentinel job_detached), h))
        × (job_update_data w none job_id (ok body) h ≡ (err (sentinel job_detached), h))
        × (job_log w none job_id line h ≡ (err (sentinel job_detached), h))
  unfolding job_update_progress job_update_data job_log update_job_progress update_job_data
      append_job_log
  mutations-Answer [] body line some_id = cc
  mutations-Answer (x ∷ xs) body line some_id = (
    accepted _ _,
    missing _ _,
    accepted _ _,
    missing _ _,
    logged _ _,
    not_logged _ _,
    refl,
    refl,
    refl,
    refl,
    refl,
    refl,
  )
