-- ===== src/Failure.antt =====
-- errors.go: the errors that the package tells apart, and the walk of `errors.Is` and `errors.As`.
use mkq.Prelude.{Bool, true, false, ◌||◌, Option, none, some, Bytes, ℤ}

pub data Sentinel : Type 0 where
  priority_with_delay : Sentinel
  unrecoverable : Sentinel
  job_not_found : Sentinel
  job_detached : Sentinel
  job_active : Sentinel
  job_is_scheduler : Sentinel
  job_not_in_delayed : Sentinel
  job_not_in_expected_state : Sentinel
  duplicate_job : Sentinel

-- A Go error: a text, a text with a script's code, one of the package's own values, what go-redis and
-- a context return, or an error that wraps others (`%w`, `errors.Join`).
pub data Failure : Type 0 where
  plain : Bytes → Failure
  coded : Bytes → ℤ → Failure
  sentinel : Sentinel → Failure
  delayed_error : ℤ → Failure
  redis_nil : Failure
  canceled : Failure
  deadline_exceeded : Failure
  redis_error : Bytes → Failure
  wrap : Bytes → Failure → Failure
  join : Bytes → Failure → Failure → Failure

abbrev is_unrecoverable_sentinel : Sentinel → Bool
is_unrecoverable_sentinel unrecoverable = true
is_unrecoverable_sentinel _ = false

-- `errors.Is(err, ErrUnrecoverable)`.
unfoldable pub is_unrecoverable : Failure → Bool
is_unrecoverable (sentinel s) = is_unrecoverable_sentinel s
is_unrecoverable (wrap m e) = is_unrecoverable e
is_unrecoverable (join m a b) = is_unrecoverable a || is_unrecoverable b
is_unrecoverable _ = false

abbrev or_else {ℓ} : {A : Type ℓ} → Option A → Option A → Option A
or_else none y = y
or_else (some a) y = some a

-- `errors.As(err, &delayed)`: the first DelayedError in the tree, depth first.
unfoldable pub as_delayed : Failure → Option ℤ
as_delayed (delayed_error d) = some d
as_delayed (wrap m e) = as_delayed e
as_delayed (join m a b) = or_else (as_delayed a) (as_delayed b)
as_delayed _ = none

-- `errors.Is(err, redis.Nil)`.
unfoldable pub is_redis_nil : Failure → Bool
is_redis_nil redis_nil = true
is_redis_nil (wrap m e) = is_redis_nil e
is_redis_nil (join m a b) = is_redis_nil a || is_redis_nil b
is_redis_nil _ = false

-- `errors.Is(err, context.Canceled)`.
unfoldable pub is_canceled : Failure → Bool
is_canceled canceled = true
is_canceled (wrap m e) = is_canceled e
is_canceled (join m a b) = is_canceled a || is_canceled b
is_canceled _ = false

-- `errors.Is(err, context.DeadlineExceeded)`.
unfoldable pub is_deadline_exceeded : Failure → Bool
is_deadline_exceeded deadline_exceeded = true
is_deadline_exceeded (wrap m e) = is_deadline_exceeded e
is_deadline_exceeded (join m a b) = is_deadline_exceeded a || is_deadline_exceeded b
is_deadline_exceeded _ = false

-- `Delay(d)`, the error by which a handler asks to run later.
unfoldable pub delay : ℤ → Failure
delay d = delayed_error d
