-- ===== src/Backoff.antt =====
-- backoff.go: the retry strategies and the built-in delays. A Duration is an int64 of nanoseconds;
-- a float64 is its bit pattern, whose arithmetic is the machine's and so a parameter.
pub mod Bounds
use mkq.Prelude.{
  ℕ, ◌-◌, ◌/◌, ◌^◌, Bool, Option, none, some, Bytes, codes, eq_bytes, leb, ℤ, pos, pos_part, ltb_ℤ,
  ◌*ℤ◌, wrap64, max_int64, if◌then◌else◌,
}
use mkq.Failure.{Failure}

-- The float64 operations that the code uses.
pub record Floats : Type 0 where
  pub of_int64 : ℤ → ℕ
  pub to_int64 : ℕ → ℤ
  pub add : ℕ → ℕ → ℕ
  pub sub : ℕ → ℕ → ℕ
  pub mul : ℕ → ℕ → ℕ
  pub div : ℕ → ℕ → ℕ
  pub lt : ℕ → ℕ → Bool
  pub le : ℕ → ℕ → Bool

abbrev pub float_zero : ℕ
float_zero = 0

abbrev pub float_one : ℕ
float_one = 0x3ff0_0000_0000_0000

pub record BackoffStrategy : Type 0 where
  pub kind : Bytes
  pub delay : ℤ
  pub jitter : ℕ

pub record BackoffContext : Type 0 where
  pub job_id : Bytes
  pub name : Bytes
  pub attempts_made : ℤ
  pub err : Failure
  pub backoff_type : Bytes

-- A user's function: `none` is a panic inside it.
abbrev pub CustomBackoffFunc : Type 0
CustomBackoffFunc = ℤ → Option ℤ

abbrev pub BackoffFunc : Type 0
BackoffFunc = BackoffContext → Option ℤ

abbrev pub RetryDelayFunc : Type 0
RetryDelayFunc = BackoffContext → Option (ℤ × Bool)

abbrev pub fixed : Bytes
fixed = codes "fixed"

abbrev pub exponential : Bytes
exponential = codes "exponential"

abbrev pub custom : Bytes
custom = codes "custom"

unfoldable pub fixed_backoff : ℤ → BackoffStrategy
fixed_backoff d = record { kind = fixed; delay = d; jitter = float_zero }

unfoldable pub fixed_backoff_with_jitter : ℤ → ℕ → BackoffStrategy
fixed_backoff_with_jitter d j = record { kind = fixed; delay = d; jitter = j }

unfoldable pub exponential_backoff : ℤ → BackoffStrategy
exponential_backoff d = record { kind = exponential; delay = d; jitter = float_zero }

unfoldable pub exponential_backoff_with_jitter : ℤ → ℕ → BackoffStrategy
exponential_backoff_with_jitter d j = record { kind = exponential; delay = d; jitter = j }

unfoldable pub custom_backoff : BackoffStrategy
custom_backoff = record { kind = custom; delay = pos 0; jitter = float_zero }

-- The `case "exponential"` of `computeBackoffDelay`; `shift` is `attemptsMade - 1`.
unfoldable pub exponential_delay : ℤ → ℕ → ℤ
exponential_delay d shift =
    if leb 63 shift
    then pos max_int64
    else if ltb_ℤ (pos (max_int64 / 2 ^ shift)) d
    then pos max_int64
    else wrap64 (d *ℤ pos (2 ^ shift))

unfoldable pub compute_backoff_delay : Option BackoffStrategy → ℤ → ℤ
unfolding exponential_delay
compute_backoff_delay none attempts = pos 0
compute_backoff_delay (some b) attempts =
    if ltb_ℤ attempts (pos 1)
    then pos 0
    else if eq_bytes b.kind fixed
    then b.delay
    else if eq_bytes b.kind exponential
    then exponential_delay b.delay (pos_part attempts - 1)
    else pos 0

module _ (fl : Floats) where
  open fl use {of_int64, to_int64, add, sub, mul, lt, le}

  -- `minDelay + r*base*jitter`, with the fraction clamped into (0, 1].
  jittered : ℤ → ℕ → ℕ → ℤ
  jittered base j r =
      to_int64 (add (mul (mul r (of_int64 base)) j) (mul (of_int64 base) (sub float_one j)))

  unfoldable pub apply_jitter : ℤ → ℕ → ℕ → ℤ
  unfolding jittered
  apply_jitter base j r =
      if le j float_zero then base else jittered base (if lt float_one j then float_one else j) r
