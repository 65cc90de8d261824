-- ===== src/Queue/Add/Sends.antt =====
-- queue.go: what `Queue.Add` sends, and what it makes of the answer.
use mkq.Prelude.{
  ℕ, arith, ◌≤◌, ◌≤ℤ◌, ◌⊎◌, Bool, true, false, List, [], ◌∷◌, none, some, Bytes, Bool-cases, inl,
  inr, ℤ, pos, length, ◌≡◌, ◌↔◌, refl, sym, ap, eq_bytes_refl, eq_bytes_sound, ◌&&◌, eq_bytes,
  is_empty, not, ltb, ltb_ℤ, floor_div, ◌++◌, codes,
}
use mkq.Failure.{Failure}
use mkq.Backoff.{float_zero}
use mkq.Keys
use mkq.Keys.{Builder}
use mkq.Proto.{encode_add_args, encode_add_opts}
use mkq.Redis.{
  Value, nil, str, int, float, other, arr, World, History, Result, ok, err, get_key, eval, text,
}
use mkq.Redis.Scripts.{ScriptName, arity, add_standard_job, add_delayed_job, add_prioritized_job}
use mkq.Worker.Finalise.Calls.{Packs}
use mkq.Queue.Options.{AddConfig, AddOption, no_config, set_options, to_proto_opts}
use mkq.Queue.Add.{
  Queue, Added, delay_ms, refusal, dispatch, parse_add_result, add_args, add_call, dedup_key,
  held_id, held_id_reads, text_of, send, add_config, add,
}

-- The jobs that `Add` does not take: a delay of a millisecond or more and a priority, an empty
-- deduplication id, or an empty name.
abbrev pub IsRefused : AddConfig → Type 0
IsRefused c =
    ((pos 1 ≤ℤ delay_ms c) × (1 ≤ c.priority))
    ⊎ (((c.dedup_set ≡ true) × (c.dedup_id ≡ [])) ⊎ ((c.job_name_set ≡ true) × (c.job_name ≡ [])))

-- The script for a delayed job, for one with a priority, and for any other.
abbrev pub IsPicked : AddConfig → ScriptName → Type 0
IsPicked c s =
    (pos 1 ≤ℤ delay_ms c → s ≡ add_delayed_job)
    × (delay_ms c ≤ℤ pos 0 → 1 ≤ c.priority → s ≡ add_prioritized_job)
    × (delay_ms c ≤ℤ pos 0 → c.priority ≡ 0 → s ≡ add_standard_job)

is_empty-nil : (s : Bytes) → is_empty s ≡ true → s ≡ []
is_empty-nil [] h = refl
is_empty-nil (c ∷ s) h = cc

none_of : (b : Bool) → (b ≡ true → ⊥) → b ≡ false
none_of true h = absurd (h refl)
none_of false h = refl

delayed_priority : (d : ℤ) (n : ℕ) → ltb_ℤ (pos 0) d && ltb 0 n ≡ true → (pos 1 ≤ℤ d) × (1 ≤ n)
delayed_priority d n h = ground arith

both : (d : ℤ) (n : ℕ) → pos 1 ≤ℤ d → 1 ≤ n → ltb_ℤ (pos 0) d && ltb 0 n ≡ true
both d n hd hn = ground arith

set_empty : (b : Bool) (s : Bytes) → b && is_empty s ≡ true → (b ≡ true) × (s ≡ [])
set_empty true s h = (refl, is_empty-nil s h)
set_empty false s h = cc

refusal-none : (c : AddConfig) → (IsRefused c → ⊥) → refusal c ≡ none
unfolding refusal
refusal-none c fine =
    rw
      (
        none_of _ (λ t. fine (inl (delayed_priority (delay_ms c) c.priority t))),
        none_of _ (λ t. fine (inr (inl (set_empty c.dedup_set c.dedup_id t)))),
        none_of _ (λ t. fine (inr (inr (set_empty c.job_name_set c.job_name t)))),
      )
      refl

refusal-some : (c : AddConfig) → IsRefused c → (e : Failure) × (refusal c ≡ some e)
unfolding refusal
refusal-some c (inl (late, first)) = rw (both (delay_ms c) c.priority late first) (_, refl)
refusal-some c (inr (inl (set, empty))) =
    elim (Bool-cases (ltb_ℤ (pos 0) (delay_ms c) && ltb 0 c.priority)) [
      | inl t ↦ rw t (_, refl)
      | inr f ↦ rw (f, set, empty) (_, refl)
    ]
refusal-some c (inr (inr (set, empty))) =
    elim (Bool-cases (ltb_ℤ (pos 0) (delay_ms c) && ltb 0 c.priority)) [
      | inl t ↦ rw t (_, refl)
      | inr f ↦ elim (Bool-cases (c.dedup_set && is_empty c.dedup_id)) [
        | inl t ↦ rw (f, t) (_, refl)
        | inr g ↦ rw (f, g, set, empty) (_, refl)
      ]
    ]

-- The script that is chosen is the right one, and gets as many KEYS as its name promises.
dispatch-IsPicked :
    (b : Builder) (c : AddConfig)
    → let d = dispatch b (delay_ms c) c.priority in IsPicked c d.0 × (length d.1 ≡ arity d.0)
unfolding dispatch
dispatch-IsPicked b c = elim (Bool-cases (ltb_ℤ (pos 0) (delay_ms c))) [
  | inl late ↦ rw late ((λ l. refl, λ z n. ground arith, λ z n. ground arith), refl)
  | inr now ↦ elim (Bool-cases (ltb 0 c.priority)) [
    | inl first ↦ rw (now, first) ((λ l. ground arith, λ z n. refl, λ z n. ground arith), refl)
    | inr last ↦ rw (now, last) ((λ l. ground arith, λ z n. ground arith, λ z n. refl), refl)
  ]
]

module _ (w : World) (q : Queue) (p : Packs w) (body : Bytes) (h : History) where
  abbrev pub packed_args : AddConfig → Bytes
  packed_args c = p.bytes (encode_add_args (add_args w q c (floor_div (w.now h) 1_000_000)))

  abbrev pub packed_opts : AddConfig → Bytes
  packed_opts c =
      p.bytes (encode_add_opts (w.floats.lt float_zero) (to_proto_opts w.floats c (delay_ms c)))

  -- A refused job makes no call; any other makes one, behind the read of the deduplication key.
  abbrev pub Sends : AddConfig → Result Added × History → Type 0
  Sends c r =
      (IsRefused c → (e : Failure) × (r ≡ (err e, h)))
      × ((IsRefused c → ⊥)
          → (s : ScriptName) × (keys : List Bytes) × IsPicked c s
            × (length keys ≡ arity s)
            × (r.1
                ≡ eval s keys (text (packed_args c) ∷ text body ∷ text (packed_opts c) ∷ [])
                  ∷ held_id_reads w q (dedup_key w q c) h))

  sends : (c : AddConfig) → Sends c (add_config w q c (ok body) h)
  unfolding send
  sends c = (
    λ refused. let (e, x) = refusal-some c refused in (e, rw x refl),
    λ fine.
        let (picked, count) = dispatch-IsPicked q.keys c in
        (_, _, picked, count, rw (refusal-none c fine, p.packs, p.packs) refl),
  )

  -- If the encoder does not fail: `Add` refuses a job with a delay of a millisecond or more and a
  -- priority, with an empty deduplication id, or with an empty name, and then makes no call. Any other
  -- job is sent by one call, behind a read of the deduplication key if the job has one: of the script for
  -- delayed jobs, for those with a priority, or for all others, with as many KEYS as its name promises,
  -- the encoded arguments, the payload and the encoded options, whatever Redis answers.
  pub add-Sends : (os : List AddOption) → Sends (set_options os no_config) (add w q (ok body) os h)
  unfolding add
  add-Sends os = sends (set_options os no_config)

is_empty-append : (s : Bytes) (c : ℕ) (t : Bytes) → is_empty (s ++ c ∷ t) ≡ false
is_empty-append [] c t = refl
is_empty-append (x ∷ s) c t = refl

dedup-named : (b : Builder) (i : Bytes) → is_empty (Keys.dedup b i) ≡ false
unfolding Keys.dedup
dedup-named b i = is_empty-append (Keys.base b) b'd' (codes "e:" ++ i)

some_text : {b : Bytes} → [] ≡ b → is_empty b ≡ false → ⊥
some_text e h = cc

same_id :
    (a b : Bytes) → (not (is_empty a) && eq_bytes a b ≡ true) ↔ ((a ≡ b) × (is_empty b ≡ false))
same_id [] b = (λ e. cc, λ h. absurd (some_text h.0 h.1))
same_id (x ∷ xs) b = (
  λ e. let same = eq_bytes_sound (x ∷ xs) b e in (same, ap is_empty (sym same)),
  λ h. rw (sym h.0) (eq_bytes_refl (x ∷ xs)),
)

module _ (w : World) (q : Queue) (h : History) where
  -- The job has a deduplication id, and Redis answers the read of its key with this job's id.
  abbrev pub IsHeld : AddConfig → Bytes → Type 0
  IsHeld c id =
      (is_empty id ≡ false)
      × (is_empty c.dedup_id ≡ false)
      × (w.redis h (get_key (Keys.dedup q.keys c.dedup_id)) ≡ ok (str id))

  read_text :
      (r : Result Value) (id : Bytes)
      → is_empty id ≡ false
      → (text_of w q r ≡ id) ↔ (r ≡ ok (str id))
  read_text (ok (str s)) id n = (λ e. ap (λ t. ok (str t)) e, λ e. cc e)
  read_text (ok nil) id n = (λ e. absurd (some_text e n), λ e. cc e)
  read_text (ok (int i)) id n = (λ e. absurd (some_text e n), λ e. cc e)
  read_text (ok (float x)) id n = (λ e. absurd (some_text e n), λ e. cc e)
  read_text (ok other) id n = (λ e. absurd (some_text e n), λ e. cc e)
  read_text (ok (arr vs)) id n = (λ e. absurd (some_text e n), λ e. cc e)
  read_text (err x) id n = (λ e. absurd (some_text e n), λ e. cc e)

  held_key :
      (key id : Bytes)
      → is_empty key ≡ false
      → is_empty id ≡ false
      → (held_id w q key h ≡ id) ↔ (w.redis h (get_key key) ≡ ok (str id))
  held_key [] id k n = cc k
  held_key (c ∷ s) id k n = read_text (w.redis h (get_key (c ∷ s))) id n

  read-IsHeld :
      (c : AddConfig) (id : Bytes)
      → ((held_id w q (dedup_key w q c) h ≡ id) × (is_empty id ≡ false)) ↔ IsHeld c id
  read-IsHeld c id = elim (Bool-cases (is_empty c.dedup_id)) [
    | inl none_ ↦ rw (none_) (λ p. absurd (some_text p.0 p.1), λ p. cc)
    | inr some_ ↦ rw (some_) (
      λ p. (
        p.1,
        refl,
        (held_key (Keys.dedup q.keys c.dedup_id) id (dedup-named q.keys c.dedup_id) p.1).0 p.0,
      ),
      λ p. (
        (held_key (Keys.dedup q.keys c.dedup_id) id (dedup-named q.keys c.dedup_id) p.0).1 p.2,
        p.0,
      ),
    )
  ]

module _ (w : World) (q : Queue) (p : Packs w) (body : Bytes) (h : History) where
  config-duplicate :
      (c : AddConfig) (id : Bytes)
      → refusal c ≡ none
      → w.redis
          (held_id_reads w q (dedup_key w q c) h)
          (add_call w q c (packed_args w q p body h c) body (packed_opts w q p body h c))
        ≡ ok (str id)
      → (job : Added) × ((add_config w q c (ok body) h).0 ≡ ok job)
        × (job.id ≡ id)
        × ((job.duplicate ≡ true) ↔ IsHeld w q h c id)
  unfolding send parse_add_result
  config-duplicate c id fine answer =
      rw (fine, p.packs, p.packs, answer)
        (
          _,
          refl,
          refl,
          (
            λ d. (read-IsHeld w q h c id).0 ((same_id _ id).0 d),
            λ d. (same_id _ id).1 ((read-IsHeld w q h c id).1 d),
          ),
        )

  -- If the encoder does not fail, the job is not refused and the script answers with an id: `Add` gives
  -- a job with that id, and ErrDuplicateJob with it just when that id is not empty, the job has a
  -- deduplication id, and Redis answered the read of its deduplication key, before the script ran, with
  -- this very id. So a read that fails is no duplicate, whatever the key holds.
  pub add-duplicate :
      (os : List AddOption) (id : Bytes)
      → let c = set_options os no_config in
        refusal c ≡ none
        → w.redis
            (held_id_reads w q (dedup_key w q c) h)
            (add_call w q c (packed_args w q p body h c) body (packed_opts w q p body h c))
          ≡ ok (str id)
        → (job : Added) × ((add w q (ok body) os h).0 ≡ ok job)
          × (job.id ≡ id)
          × ((job.duplicate ≡ true) ↔ IsHeld w q h c id)
  unfolding add
  add-duplicate os = config-duplicate (set_options os no_config)
