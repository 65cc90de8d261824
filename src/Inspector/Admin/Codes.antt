-- ===== src/Inspector/Admin/Codes.antt =====
-- inspector_admin.go: what an operator is told, against what the script answered.
use mkq.Prelude.{
  true, false, [], ◌∷◌, Bytes, codes, eq_bytes, is_empty, ◌≡◌, ◌↔◌, ap, ℤ, pos, negsuc, arith,
}
use mkq.Failure.{
  Sentinel, sentinel, job_active, job_is_scheduler, job_not_in_delayed, job_not_found,
  job_not_in_expected_state,
}
use mkq.Keys
use mkq.Keys.{Builder}
use mkq.Redis.{
  Value, nil, str, int, float, other, arr, World, History, Result, ok, err, wrapped, checked,
}
use mkq.Inspector.Admin.{
  by_code, remove_code, promote_code, reprocess_code, remove_call, remove_job, promote_call,
  promote_job, reprocess_call, RetryConfig, retry_with,
}

module _ (name : Bytes) (f : ℤ → Result (Unit {0})) (n : ℤ) where
  -- An operation whose reply is a code succeeds just at the code for success.
  succeeds_iff :
      ((k : ℤ) → (f k ≡ ok tt) ↔ (k ≡ n))
      → (r : Result Value) → (checked (wrapped name r) (by_code name f) ≡ ok tt) ↔ (r ≡ ok (int n))
  succeeds_iff only (ok (int k)) = (λ e. ap (λ m. ok (int m)) ((only k).0 e), λ e. (only k).1 cc)
  succeeds_iff only (ok nil) = (λ e. cc, λ e. cc)
  succeeds_iff only (ok (str s)) = (λ e. cc, λ e. cc)
  succeeds_iff only (ok (float x)) = (λ e. cc, λ e. cc)
  succeeds_iff only (ok other) = (λ e. cc, λ e. cc)
  succeeds_iff only (ok (arr vs)) = (λ e. cc, λ e. cc)
  succeeds_iff only (err x) = (λ e. cc, λ e. cc)

  -- It gives one of the package's own errors just at the code for that error.
  fails_iff :
      (s : Sentinel)
      → ((k : ℤ) → (f k ≡ err (sentinel s)) ↔ (k ≡ n))
      → (r : Result Value)
      → (checked (wrapped name r) (by_code name f) ≡ err (sentinel s)) ↔ (r ≡ ok (int n))
  fails_iff s only (ok (int k)) = (λ e. ap (λ m. ok (int m)) ((only k).0 e), λ e. (only k).1 cc)
  fails_iff s only (ok nil) = (λ e. cc, λ e. cc)
  fails_iff s only (ok (str t)) = (λ e. cc, λ e. cc)
  fails_iff s only (ok (float x)) = (λ e. cc, λ e. cc)
  fails_iff s only (ok other) = (λ e. cc, λ e. cc)
  fails_iff s only (ok (arr vs)) = (λ e. cc, λ e. cc)
  fails_iff s only (err x) = (λ e. cc, λ e. cc)

removed : (k : ℤ) → (remove_code k ≡ ok tt) ↔ (k ≡ pos 1)
removed (pos n) = ground arith
removed (negsuc n) = ground arith

kept_active : (k : ℤ) → (remove_code k ≡ err (sentinel job_active)) ↔ (k ≡ pos 0)
kept_active (pos n) = ground arith
kept_active (negsuc n) = ground arith

kept_scheduler : (k : ℤ) → (remove_code k ≡ err (sentinel job_is_scheduler)) ↔ (k ≡ negsuc 7)
kept_scheduler (pos n) = ground arith
kept_scheduler (negsuc n) = ground arith

promoted : (k : ℤ) → (promote_code k ≡ ok tt) ↔ (k ≡ pos 0)
promoted (pos n) = ground arith
promoted (negsuc n) = ground arith

not_in_delayed : (k : ℤ) → (promote_code k ≡ err (sentinel job_not_in_delayed)) ↔ (k ≡ negsuc 2)
not_in_delayed (pos n) = ground arith
not_in_delayed (negsuc n) = ground arith

retried : (k : ℤ) → (reprocess_code k ≡ ok tt) ↔ (k ≡ pos 1)
retried (pos n) = ground arith
retried (negsuc n) = ground arith

not_found : (k : ℤ) → (reprocess_code k ≡ err (sentinel job_not_found)) ↔ (k ≡ negsuc 0)
not_found (pos n) = ground arith
not_found (negsuc n) = ground arith

not_in_state :
    (k : ℤ) → (reprocess_code k ≡ err (sentinel job_not_in_expected_state)) ↔ (k ≡ negsuc 2)
not_in_state (pos n) = ground arith
not_in_state (negsuc n) = ground arith

module _ (w : World) (b : Builder) (h : History) where
  -- The script answered with this code.
  abbrev pub Answers : mkq.Redis.Call → ℤ → Type 0
  Answers c n = w.redis h c ≡ ok (int n)

  -- For a job id that is not empty, RemoveJob and PromoteJob, and RetryJob from the failed state,
  -- succeed just when the script answered with its code for success (1, 0 and 1). ErrJobActive,
  -- ErrJobIsScheduler, ErrJobNotInDelayed, ErrJobNotFound and ErrJobNotInExpectedState come back just
  -- when it answered 0, -8, -3, -1 and -3.
  pub operators-Answers :
      (job_id : Bytes) (c : RetryConfig)
      → is_empty job_id ≡ false
      → eq_bytes c.from_state (codes "failed") ≡ true
      → let removing = (remove_job w b job_id h).0 in
        let promoting = (promote_job w b job_id h).0 in
        let retrying = (retry_with w b job_id c h).0 in
        let retry_call =
          reprocess_call w b job_id c Keys.failed (codes "failedReason") (codes "failed") in
        ((removing ≡ ok tt) ↔ Answers (remove_call w b job_id) (pos 1))
        × ((removing ≡ err (sentinel job_active)) ↔ Answers (remove_call w b job_id) (pos 0))
        × ((removing ≡ err (sentinel job_is_scheduler))
            ↔ Answers (remove_call w b job_id) (negsuc 7))
        × ((promoting ≡ ok tt) ↔ Answers (promote_call w b job_id) (pos 0))
        × ((promoting ≡ err (sentinel job_not_in_delayed))
            ↔ Answers (promote_call w b job_id) (negsuc 2))
        × ((retrying ≡ ok tt) ↔ Answers retry_call (pos 1))
        × ((retrying ≡ err (sentinel job_not_found)) ↔ Answers retry_call (negsuc 0))
        × ((retrying ≡ err (sentinel job_not_in_expected_state)) ↔ Answers retry_call (negsuc 2))
  unfolding remove_job promote_job retry_with
  operators-Answers [] c some_id state = cc
  operators-Answers (x ∷ xs) c some_id state = rw state (
    succeeds_iff _ _ (pos 1) removed _,
    fails_iff _ _ (pos 0) job_active kept_active _,
    fails_iff _ _ (negsuc 7) job_is_scheduler kept_scheduler _,
    succeeds_iff _ _ (pos 0) promoted _,
    fails_iff _ _ (negsuc 2) job_not_in_delayed not_in_delayed _,
    succeeds_iff _ _ (pos 1) retried _,
    fails_iff _ _ (negsuc 0) job_not_found not_found _,
    fails_iff _ _ (negsuc 2) job_not_in_expected_state not_in_state _,
  )
