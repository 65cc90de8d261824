-- ===== src/Worker/Config/Sound.antt =====
-- worker_options.go: what becomes of the options that a worker is given.
use mkq.Prelude.{
  ◌≡◌, refl, ℤ, ◌++◌, false, List, [], ◌∷◌, some, Bytes, is_empty, arith, pos, ◌≤ℤ◌, Option, none,
  Bool-cases, inl, inr, ◌||◌, leb_ℤ, max_ℤ, ap, ◌∙◌,
}
use mkq.Redis.{Result, ok, err}
use mkq.Worker.Config.{
  Limiter, WorkerConfig, WorkerOption, with_concurrency, with_lock_duration,
  with_idle_poll_interval, with_stalled_interval, with_rate_limit, with_job_metrics, default_config,
  apply_option, apply_options, default_worker_name, normalise, configure, IsSound,
}

abbrev or_before : Option ℤ → ℤ → ℤ
or_before none d = d
or_before (some x) d = x

-- What every option keeps.
record IsKept (c : WorkerConfig) : Type 0 where
  limit_positive : (l : Limiter) → c.limiter ≡ some l → (pos 1 ≤ℤ l.max) × (pos 1 ≤ℤ l.duration)
  points_nonneg : pos 0 ≤ℤ c.max_data_points

apply_option-IsKept : (o : WorkerOption) (c : WorkerConfig) → IsKept c → IsKept (apply_option o c)
unfolding apply_option
apply_option-IsKept (with_rate_limit max duration) c i = record {
  limit_positive = λ l e. ground arith;
  points_nonneg = ground arith;
}
apply_option-IsKept (with_job_metrics n) c i = record {
  limit_positive = i.limit_positive;
  points_nonneg = ground arith;
}
apply_option-IsKept _ c i = record {
  limit_positive = i.limit_positive;
  points_nonneg = i.points_nonneg;
}

apply_options-IsKept :
    (os : List WorkerOption) (c : WorkerConfig) → IsKept c → IsKept (apply_options os c)
unfolding apply_options
apply_options-IsKept [] c i = i
apply_options-IsKept (o ∷ os) c i = apply_options-IsKept os _ (apply_option-IsKept o c i)

normalise-IsSound :
    (name : Bytes) (c : WorkerConfig)
    → is_empty name ≡ false
    → IsKept c
    → IsSound (normalise name c)
unfolding normalise
normalise-IsSound name c h i = record {
  some_slot = ground arith;
  named = ground arith;
  limit_positive = λ l e. i.limit_positive l (ground arith);
  points_nonneg = ground (arith, i.points_nonneg);
}

named_host : (s t : Bytes) → is_empty (s ++ (b'-' ∷ t)) ≡ false
named_host [] t = refl
named_host (c ∷ s) t = refl

default_name-named :
    (host : Result Bytes) (pid : ℤ) (uuid : Bytes)
    → is_empty (default_worker_name host pid uuid) ≡ false
unfolding default_worker_name
default_name-named (ok host) pid uuid = named_host host _
default_name-named (err e) pid uuid = refl

-- What the last option of a kind sets, `d` without one.
abbrev pub last_of : (WorkerOption → Option ℤ) → List WorkerOption → ℤ → ℤ
last_of pick [] d = d
last_of pick (o ∷ os) d = last_of pick os (or_before (pick o) d)

abbrev pub concurrency_of : WorkerOption → Option ℤ
concurrency_of (with_concurrency n) = some n
concurrency_of _ = none

abbrev pub lock_of : WorkerOption → Option ℤ
lock_of (with_lock_duration d) = some d
lock_of _ = none

abbrev pub idle_of : WorkerOption → Option ℤ
idle_of (with_idle_poll_interval d) = some d
idle_of _ = none

abbrev pub stalled_of : WorkerOption → Option ℤ
stalled_of (with_stalled_interval d) = some d
stalled_of _ = none

-- The settings that come from the options. Only the number of dispatchers is corrected.
pub record Follows (os : List WorkerOption) (c : WorkerConfig) : Type 0 where
  pub dispatchers : c.concurrency ≡ max_ℤ (last_of concurrency_of os (pos 1)) (pos 1)
  pub lock : c.lock_duration ≡ last_of lock_of os (pos 30_000_000_000)
  pub idle : c.idle_poll_interval ≡ last_of idle_of os (pos 100_000_000)
  pub stalled : c.stalled_interval ≡ last_of stalled_of os (pos 30_000_000_000)

module _ (pick : WorkerOption → Option ℤ) (field : WorkerConfig → ℤ)
    (one : (o : WorkerOption) (c : WorkerConfig)
      → field (apply_option o c) ≡ or_before (pick o) (field c)) where
  apply_options-last :
      (os : List WorkerOption) (c : WorkerConfig)
      → field (apply_options os c) ≡ last_of pick os (field c)
  unfolding apply_options
  apply_options-last [] c = refl
  apply_options-last (o ∷ os) c =
      apply_options-last os (apply_option o c) ∙ ap (last_of pick os) (one o c)

-- A setting that a rate limit leaves alone.
limited :
    (field : WorkerConfig → ℤ) (max duration : ℤ) (c : WorkerConfig)
    → ((l : Option Limiter) → field (record c { limiter = l }) ≡ field c)
    → field (apply_option (with_rate_limit max duration) c) ≡ field c
unfolding apply_option
limited field max duration c same =
    elim (Bool-cases (leb_ℤ max (pos 0) || leb_ℤ duration (pos 0))) [
      | inl e ↦ rw (e) (same none)
      | inr e ↦ rw (e) (same _)
    ]

concurrency_step :
    (o : WorkerOption) (c : WorkerConfig)
    → (apply_option o c).concurrency ≡ or_before (concurrency_of o) c.concurrency
unfolding apply_option
concurrency_step (with_rate_limit m d) c = limited (λ x. x.concurrency) m d c (λ l. refl)
concurrency_step _ c = refl

lock_step :
    (o : WorkerOption) (c : WorkerConfig)
    → (apply_option o c).lock_duration ≡ or_before (lock_of o) c.lock_duration
unfolding apply_option
lock_step (with_rate_limit m d) c = limited (λ x. x.lock_duration) m d c (λ l. refl)
lock_step _ c = refl

idle_step :
    (o : WorkerOption) (c : WorkerConfig)
    → (apply_option o c).idle_poll_interval ≡ or_before (idle_of o) c.idle_poll_interval
unfolding apply_option
idle_step (with_rate_limit m d) c = limited (λ x. x.idle_poll_interval) m d c (λ l. refl)
idle_step _ c = refl

stalled_step :
    (o : WorkerOption) (c : WorkerConfig)
    → (apply_option o c).stalled_interval ≡ or_before (stalled_of o) c.stalled_interval
unfolding apply_option
stalled_step (with_rate_limit m d) c = limited (λ x. x.stalled_interval) m d c (λ l. refl)
stalled_step _ c = refl

normalise-kept :
    (name : Bytes) (c : WorkerConfig)
    → let c' = normalise name c in
      (c'.concurrency ≡ max_ℤ c.concurrency (pos 1))
      × (c'.lock_duration ≡ c.lock_duration)
      × (c'.idle_poll_interval ≡ c.idle_poll_interval)
      × (c'.stalled_interval ≡ c.stalled_interval)
unfolding normalise
normalise-kept name c = (ground arith, ground arith, ground arith, ground arith)

configure-Follows : (name : Bytes) (os : List WorkerOption) → Follows os (configure name os)
unfolding configure
configure-Follows name os =
    let kept = normalise-kept name (apply_options os default_config) in
    record {
      dispatchers =
          kept.0
          ∙ ap (λ n. max_ℤ n (pos 1))
              (apply_options-last concurrency_of (λ x. x.concurrency) concurrency_step os
                default_config);
      lock = kept.1 ∙ apply_options-last lock_of (λ x. x.lock_duration) lock_step os default_config;
      idle =
          kept.2
          ∙ apply_options-last idle_of (λ x. x.idle_poll_interval) idle_step os default_config;
      stalled =
          kept.3
          ∙ apply_options-last stalled_of (λ x. x.stalled_interval) stalled_step os default_config;
    }

-- For every list of options, and whatever the host is called or if it has no name: the last option of a
-- kind decides, so that the worker has the dispatchers that the last WithConcurrency asks for, one if that
-- is less than one or there is none, and the lock duration, the poll interval and the stalled interval of
-- the last option for them, unchanged, also when they are zero or negative (30 s, 100 ms and 30 s without
-- one). The worker has a name, a rate limit that is set has a positive budget and a positive window, and
-- the number of metric points is not negative.
pub configure-IsSound :
    (host : Result Bytes) (pid : ℤ) (uuid : Bytes) (os : List WorkerOption)
    → let c = configure (default_worker_name host pid uuid) os in Follows os c × IsSound c
unfolding configure
configure-IsSound host pid uuid os = (
  configure-Follows (default_worker_name host pid uuid) os,
  normalise-IsSound _ _ (default_name-named host pid uuid) (
      apply_options-IsKept os default_config
        (record { limit_positive = λ l e. cc; points_nonneg = omega arith })),
)
