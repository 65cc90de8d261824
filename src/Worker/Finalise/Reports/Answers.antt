-- ===== src/Worker/Finalise/Reports/Answers.antt =====
-- worker.go: what the answer to the call that settles a job has to lead to, and does.
use mkq.Prelude.{
  Bool, List, [], ◌∷◌, Option, none, some, Bytes, codes, ◌≡◌, refl, ◌⊎◌, inl, inr, ℤ, pos, negsuc,
}
use mkq.Failure.{Failure}
use mkq.Keys
use mkq.Keys.{Target}
use mkq.JobOpts.{JobOpts, RetentionLimit}
use mkq.Proto.{encode_job_fields, items}
use mkq.Reply.{Acquired, got_job, no_job, parse_move_to_active_result}
use mkq.Redis.{
  Value, Values, nil, str, int, float, other, arr, Packed, Call, World, Result, ok, err, History,
  encoded, wrapped, checked, M, ◌>>=◌, and_then, with_context, ask, pack_str, pack_list,
}
use mkq.Worker.Finish.{
  Worker, Prefetched, check_code, interpret_finished, send_finished, run_move_to_finished,
  finish_completed, finish_failed, retry_immediate, retry_delayed, move_to_delayed_keeping_attempts,
}
use mkq.Worker.Failures.{FailureHistory, attempt_history_field}
use mkq.Worker.Finalise.Defs.{
  Status, completed, failed, retrying, delayed, error, Finalised, finished, handed_back,
}
use mkq.Worker.Finalise.Calls.{Effect, finish, postpone, again_after, again_now}

-- The status that goes with an effect.
abbrev pub status_of : Effect → Status
status_of (finish Keys.to_completed) = completed
status_of (finish Keys.to_failed) = failed
status_of (postpone ms) = delayed
status_of (again_after ms) = retrying
status_of (again_now lifo) = retrying

-- An error is reported, and no next job is handed on.
abbrev pub IsError : Finalised → Type 0
IsError f = (f.status ≡ error) × (f.prefetched ≡ none) × (x : Failure) × (f.error ≡ some x)

abbrev pub IsDone : Effect → Option Prefetched → Finalised → Type 0
IsDone e next f = (f.status ≡ status_of e) × (f.prefetched ≡ next) × (f.error ≡ none)

module _ (w : World) (token : Bytes) where
  -- The next job, that a reply of moveToFinished may hold.
  abbrev pub next_job : Acquired → Option Prefetched
  next_job (got_job m i) = some (record { job_map = m; job_id = i; token = token })
  next_job (no_job a b) = none

  abbrev pub Hands : Effect → Result Acquired → Finalised → Type 0
  Hands e (ok a) f = IsDone e (next_job a) f
  Hands e (err x) f = IsError f

  abbrev pub Takes : Effect → Value → Finalised → Type 0
  Takes (finish t) v f = Hands (finish t) (parse_move_to_active_result w.floats v) f
  Takes e v f = IsDone e none f

  -- What the answer to the deciding call has to lead to: an error of the call and a negative number are
  -- errors; a reply of moveToFinished may hold the next job, and is an error when it is malformed.
  abbrev pub Settles : Effect → Result Value → Finalised → Type 0
  Settles e (err x) f = IsError f
  Settles e (ok (int (negsuc n))) f = IsError f
  Settles e (ok v) f = Takes e v f

  -- Either the encoder has failed, and no call was made, or one call was made and answered.
  abbrev pub Reports : Effect → History → Result Finalised → History → Type 0
  Reports e h (ok f) h' =
      ((h' ≡ h) × IsError f × (p : Packed) × (x : Failure) × (w.pack p ≡ err x))
      ⊎ ((c : Call) × (h' ≡ c ∷ h) × Settles e (w.redis h c) f)
  Reports e h (err x) h' = ⊥

module _ (w : World) (k : Worker) (token : Bytes) where
  taken-Hands :
      (e : Effect) (r : Result Acquired)
      → Hands w token e r (finished (status_of e) (checked r (λ a. ok (next_job w token a))))
  taken-Hands e (ok a) = (refl, refl, refl)
  taken-Hands e (err x) = (refl, refl, _, refl)

  list-Hands :
      (e : Effect) (vs : Values)
      → Hands w token e
          (parse_move_to_active_result w.floats (arr vs))
          (finished (status_of e) (interpret_finished w k token (arr vs)))
  unfolding interpret_finished
  list-Hands e vs = taken-Hands e (parse_move_to_active_result w.floats (arr vs))

  answered-Settles :
      (c : Bytes) (t : Target) (r : Result Value)
      → Settles w token
          (finish t)
          r
          (finished (status_of (finish t)) (checked (wrapped c r) (interpret_finished w k token)))
  unfolding interpret_finished parse_move_to_active_result
  answered-Settles c t (err x) = (refl, refl, _, refl)
  answered-Settles c t (ok (int (negsuc n))) = (refl, refl, _, refl)
  answered-Settles c t (ok (int (pos n))) = (refl, refl, refl)
  answered-Settles c t (ok nil) = (refl, refl, refl)
  answered-Settles c t (ok (str s)) = (refl, refl, refl)
  answered-Settles c t (ok (float x)) = (refl, refl, refl)
  answered-Settles c t (ok other) = (refl, refl, refl)
  answered-Settles c t (ok (arr vs)) = list-Hands (finish t) vs

  coded-Settles :
      (c c' : Bytes) (e : Effect) (r : Result Value)
      → ((v : Value) → Takes w token e v (handed_back (status_of e) (ok tt)))
      → Settles w token e r (handed_back (status_of e) (checked (wrapped c r) (check_code c')))
  coded-Settles c c' e (err x) plain = (refl, refl, _, refl)
  coded-Settles c c' e (ok (int (negsuc n))) plain = (refl, refl, _, refl)
  coded-Settles c c' e (ok (int (pos n))) plain = plain (int (pos n))
  coded-Settles c c' e (ok nil) plain = plain nil
  coded-Settles c c' e (ok (str s)) plain = plain (str s)
  coded-Settles c c' e (ok (float x)) plain = plain (float x)
  coded-Settles c c' e (ok other) plain = plain other
  coded-Settles c c' e (ok (arr vs)) plain = plain (arr vs)

-- If an encoding fails, the encoder has failed.
abbrev pub Blames : World → Result Bytes → Type 0
Blames w (ok b) = Unit
Blames w (err x) = (p : Packed) × (y : Failure) × (w.pack p ≡ err y)

module _ (w : World) (k : Worker) (job_id token : Bytes) (h : History) where
  pack-Blames : (p : Packed) (r : Result Bytes) → w.pack p ≡ r → Blames w r
  pack-Blames p (ok b) e = tt
  pack-Blames p (err x) e = (p, x, e)

  encoded-Reports :
      (c c' : Bytes) (t : Target) (a b : Result Bytes) (go : Bytes → Bytes → M (Option Prefetched))
      → Blames w a
      → Blames w b
      → ((x y : Bytes)
          → Reports w token
              (finish t)
              h
              (ok (finished (status_of (finish t)) (go x y h).0))
              (go x y h).1)
      → Reports w token
          (finish t)
          h
          (ok (finished (status_of (finish t)) (encoded (wrapped c a) (wrapped c' b) go h).0))
          (encoded (wrapped c a) (wrapped c' b) go h).1
  encoded-Reports c c' t (ok a) (ok b) go p q sent = sent a b
  encoded-Reports c c' t (ok a) (err x) go p q sent =
      inl (refl, (refl, refl, _, refl), q.0, q.1, q.2)
  encoded-Reports c c' t (err x) b go p q sent = inl (refl, (refl, refl, _, refl), p.0, p.1, p.2)

  sent-Reports :
      (t : Target) (property value opts fields : Bytes)
      → let q = send_finished w k job_id token t property value opts fields h in
        Reports w token (finish t) h (ok (finished (status_of (finish t)) q.0)) q.1
  unfolding send_finished
  sent-Reports t property value opts fields = inr (_, refl, answered-Settles w k token _ t _)

  finish-Reports :
      (attempts : ℤ) (keep : Option RetentionLimit) (t : Target) (property value : Bytes)
      (extra : List Packed)
      → Blames w (encode_job_fields w extra)
      → let q = run_move_to_finished w k job_id token attempts keep t property value extra h in
        Reports w token (finish t) h (ok (finished (status_of (finish t)) q.0)) q.1
  unfolding run_move_to_finished
  finish-Reports attempts keep t property value extra blames =
      encoded-Reports _ _ t _ _ _ (pack-Blames _ _ refl) blames (sent-Reports t property value)

  pub finish_completed-Reports :
      (o : JobOpts) (v : Bytes)
      → let q = finish_completed w k job_id token o v h in
        Reports w token (finish Keys.to_completed) h (ok (finished completed q.0)) q.1
  unfolding finish_completed encode_job_fields
  finish_completed-Reports o v =
      finish-Reports o.attempts o.remove_on_complete Keys.to_completed _ v [] tt

  pub finish_failed-Reports :
      (o : JobOpts) (reason : Bytes) (hist : FailureHistory)
      → let q = finish_failed w k job_id token o reason hist h in
        Reports w token (finish Keys.to_failed) h (ok (finished failed q.0)) q.1
  unfolding finish_failed encode_job_fields
  finish_failed-Reports o reason hist =
      finish-Reports o.attempts o.remove_on_fail Keys.to_failed (codes "failedReason") reason
        (pack_str (codes "stacktrace")
          ∷ pack_str hist.stacktrace
          ∷ pack_str attempt_history_field
          ∷ pack_str hist.attempts_at
          ∷ [])
        (pack-Blames
          (pack_list (
            items (
              pack_str (codes "stacktrace")
              ∷ pack_str hist.stacktrace
              ∷ pack_str attempt_history_field
              ∷ pack_str hist.attempts_at
              ∷ [])))
          _ refl)

  -- Encode, then make one call whose answer is checked.
  back-Reports :
      (c c' c'' : Bytes) (e : Effect) (r : Result Bytes) (call : Bytes → Call)
      → Blames w r
      → ((v : Value) → Takes w token e v (handed_back (status_of e) (ok tt)))
      → let q =
          ((λ h'. (wrapped c r, h')) >>= λ b.
          and_then (with_context c' (ask w (call b))) (check_code c''))
            h in
        Reports w token e h (ok (handed_back (status_of e) q.0)) q.1
  back-Reports c c' c'' e (ok b) call blames plain =
      inr (call b, refl, coded-Settles w k token c' c'' e _ plain)
  back-Reports c c' c'' e (err x) call blames plain =
      inl (refl, (refl, refl, _, refl), blames.0, blames.1, blames.2)

  pub retry_immediate-Reports :
      (lifo : Bool) (reason : Bytes) (hist : FailureHistory)
      → let q = retry_immediate w k job_id token lifo reason hist h in
        Reports w token (again_now lifo) h (ok (handed_back retrying q.0)) q.1
  unfolding retry_immediate encode_job_fields
  retry_immediate-Reports lifo reason hist =
      back-Reports _ _ _ (again_now lifo) _ _ (pack-Blames _ _ refl) (λ v. (refl, refl, refl))

  pub retry_delayed-Reports :
      (d ms : ℤ) (reason : Bytes) (hist : FailureHistory)
      → let q = retry_delayed w k job_id token d reason hist h in
        Reports w token (again_after ms) h (ok (handed_back retrying q.0)) q.1
  unfolding retry_delayed encode_job_fields
  retry_delayed-Reports d ms reason hist =
      back-Reports _ _ _ (again_after ms) _ _ (pack-Blames _ _ refl) (λ v. (refl, refl, refl))

  pub move_to_delayed_keeping_attempts-Reports :
      (d : ℤ) (ms : ℤ)
      → let q = move_to_delayed_keeping_attempts w k job_id token d h in
        Reports w token (postpone ms) h (ok (handed_back delayed q.0)) q.1
  unfolding move_to_delayed_keeping_attempts
  move_to_delayed_keeping_attempts-Reports d ms =
      inr (_, refl, coded-Settles w k token _ _ (postpone ms) _ (λ v. (refl, refl, refl)))
