-- ===== src/Worker/Finalise/Calls.antt =====
-- The calls that the finishing operations of worker.go make, when the encoder does not fail.
use mkq.Prelude.{Bool, ◌∷◌, some, Bytes, codes, ◌≡◌, refl, ℤ, pos, max_ℤ, get_elem?, if◌then◌else◌}
use mkq.Keys
use mkq.Keys.{Target, target_name, target_slot}
use mkq.JobOpts.{JobOpts}
use mkq.Proto.{encode_job_fields}
use mkq.Redis.{World, Packed, Call, eval, text, number, ok, History}
use mkq.Redis.Scripts.{move_to_finished, retry_job, move_to_delayed}
use mkq.Worker.Failures.{FailureHistory}
use mkq.Worker.Finish.{
  Worker, in_ms, finish_completed, finish_failed, retry_immediate, retry_delayed,
  move_to_delayed_keeping_attempts,
}

-- What an outcome does to a job.
pub data Effect : Type 0 where
  finish : Target → Effect
  postpone : ℤ → Effect
  again_after : ℤ → Effect
  again_now : Bool → Effect

-- The msgpack encoder encodes trees of texts, numbers and Booleans without an error.
pub record Packs (w : World) : Type 0 where
  pub bytes : Packed → Bytes
  pub packs : (p : Packed) → w.pack p ≡ ok (bytes p)

-- The call that makes an effect: the script, the job's key among its KEYS, and the ARGV that decide.
module _ (k : Worker) (job_id token : Bytes) where
  abbrev Delays : ℤ → Bytes → Call → Type 0
  Delays ms skip (eval s keys args) =
      (s ≡ move_to_delayed)
      × (get_elem? keys 4 ≡ some (Keys.job k.keys job_id))
      × (get_elem? args 3 ≡ some (text token))
      × (get_elem? args 4 ≡ some (number ms))
      × (get_elem? args 5 ≡ some (text skip))
  Delays ms skip _ = ⊥

  abbrev pub Makes : Effect → Call → Type 0
  Makes (finish t) (eval s keys args) =
      (s ≡ move_to_finished)
      × (get_elem? keys 10 ≡ some (Keys.slot k.keys (target_slot t)))
      × (get_elem? keys 11 ≡ some (Keys.job k.keys job_id))
      × (get_elem? args 4 ≡ some (text (target_name t)))
  Makes (postpone ms) c = Delays ms (codes "1") c
  Makes (again_after ms) c = Delays ms (codes "0") c
  Makes (again_now lifo) (eval s keys args) =
      (s ≡ retry_job)
      × (get_elem? keys 3 ≡ some (Keys.job k.keys job_id))
      × (get_elem? args 2 ≡ some (text (if lifo then codes "RPUSH" else codes "LPUSH")))
      × (get_elem? args 4 ≡ some (text token))
  Makes _ _ = ⊥

  -- A history that has grown by one call, which makes the effect.
  abbrev pub Adds : Effect → History → History → Type 0
  Adds e h h' = (c : Call) × (h' ≡ c ∷ h) × Makes e c

module _ (w : World) (k : Worker) (job_id token : Bytes) (p : Packs w) (h : History) where
  pub finish_completed-Adds :
      (o : JobOpts) (v : Bytes)
      → Adds k job_id token (finish Keys.to_completed) h (finish_completed w k job_id token o v h).1
  unfolding finish_completed Keys.move_to_finished_keys encode_job_fields
  finish_completed-Adds o v = rw p.packs (_, refl, (refl, refl, refl, refl))

  pub finish_failed-Adds :
      (o : JobOpts) (reason : Bytes) (hist : FailureHistory)
      → Adds k job_id token
          (finish Keys.to_failed)
          h
          (finish_failed w k job_id token o reason hist h).1
  unfolding finish_failed Keys.move_to_finished_keys encode_job_fields
  finish_failed-Adds o reason hist = rw (p.packs, p.packs) (_, refl, (refl, refl, refl, refl))

  pub retry_immediate-Adds :
      (lifo : Bool) (reason : Bytes) (hist : FailureHistory)
      → Adds k job_id token
          (again_now lifo)
          h
          (retry_immediate w k job_id token lifo reason hist h).1
  unfolding retry_immediate Keys.retry_job_keys encode_job_fields
  retry_immediate-Adds lifo reason hist = rw p.packs (_, refl, (refl, refl, refl, refl))

  pub retry_delayed-Adds :
      (d : ℤ) (reason : Bytes) (hist : FailureHistory)
      → Adds k job_id token
          (again_after (max_ℤ (in_ms d) (pos 1)))
          h
          (retry_delayed w k job_id token d reason hist h).1
  unfolding retry_delayed Keys.move_to_delayed_keys encode_job_fields
  retry_delayed-Adds d reason hist = rw p.packs (_, refl, (refl, refl, refl, refl, refl))

  pub move_to_delayed_keeping_attempts-Adds :
      (d : ℤ)
      → Adds k job_id token
          (postpone (max_ℤ (in_ms d) (pos 1)))
          h
          (move_to_delayed_keeping_attempts w k job_id token d h).1
  unfolding move_to_delayed_keeping_attempts Keys.move_to_delayed_keys
  move_to_delayed_keeping_attempts-Adds d = (_, refl, (refl, refl, refl, refl, refl))
