-- ===== src/Cron/Cache.antt =====
-- cron.go: `parseCron` with the cache in front of the cron library. The library and the time zones are
-- parameters.
pub mod Sound
use mkq.Prelude.{
  ◌≡◌, Bool, true, false, List, [], ◌∷◌, ◌++◌, Option, none, some, Bytes, codes, is_empty, eq_bytes,
  ℤ, if◌then◌else◌,
}
use mkq.Failure.{plain}
use mkq.Redis.{Result, ok, err, wrapped, checked}
use mkq.Cron.{is_at_every}

-- `parse` is the parser of cron patterns, `load_location` finds a time zone by its name, and `next` is
-- the first firing behind a time, in unix nanoseconds, of a schedule in a zone.
pub record CronLib : Type 1 where
  pub Schedule : Type 0
  pub Location : Type 0
  pub here : Location
  pub load_location : Bytes → Result Location
  pub parse : Bytes → Result Schedule
  pub next : Schedule → Location → ℤ → ℤ

pub record CachedCron (lib : CronLib) : Type 0 where
  pub schedule : lib.Schedule
  pub loc : lib.Location

module _ (lib : CronLib) where
  abbrev pub CronCache : Type 0
  CronCache = List (Bytes × CachedCron lib)

  abbrev pub cached : Bytes → CronCache → Option (CachedCron lib)
  cached key [] = none
  cached key ((k, c) ∷ m) = let rest = cached key m in if eq_bytes k key then some c else rest

  abbrev pub kept_or_new :
      Bytes → CachedCron lib → CronCache → Option (CachedCron lib) → CachedCron lib × CronCache
  kept_or_new key c m none = (c, (key, c) ∷ m)
  kept_or_new key c m (some first) = (first, m)

  -- The entry that is there, or else the new one, which is stored.
  abbrev pub load_or_store : Bytes → CachedCron lib → CronCache → CachedCron lib × CronCache
  load_or_store key c m = kept_or_new key c m (cached key m)

  abbrev pub key_of : Bytes → Bytes → Bytes
  key_of pattern tz = pattern ++ b'|' ∷ tz

  abbrev pub location : Bytes → Result lib.Location
  location [] = ok lib.here
  location (c ∷ tz) = wrapped (codes "mkq: invalid timezone") (lib.load_location (c ∷ tz))

  unfoldable pub compile : Bytes → Bytes → Result (CachedCron lib)
  compile pattern tz = checked (location tz) (λ loc.
      checked (wrapped (codes "mkq: invalid cron pattern") (lib.parse pattern))
        (λ s. ok (record { schedule = s; loc = loc })))

  abbrev pub stored :
      Bytes → Result (CachedCron lib) → CronCache → Result (CachedCron lib) × CronCache
  stored key (ok c) m = let (actual, m') = load_or_store key c m in (ok actual, m')
  stored key (err e) m = (err e, m)

  abbrev pub looked_up :
      Bytes
      → Result (CachedCron lib)
      → Option (CachedCron lib)
      → CronCache
      → Result (CachedCron lib) × CronCache
  looked_up key compiled (some c) m = (ok c, m)
  looked_up key compiled none m = stored key compiled m

  -- `before` is the cache when it is asked, `m` what others have made of it when the pattern has been
  -- compiled.
  unfoldable pub parse_cron :
      CronCache → CronCache → Bytes → Bytes → Result (CachedCron lib) × CronCache
  parse_cron before m pattern tz =
      let key = key_of pattern tz in
      if is_empty pattern
      then (err (plain (codes "mkq: pattern must be non-empty")), m)
      else if is_at_every pattern
      then (err (plain (codes "mkq: @every is not supported as a cron pattern")), m)
      else looked_up key (compile pattern tz) (cached key before) m

  unfoldable pub next_fire : CachedCron lib → ℤ → ℤ
  next_fire c from = lib.next c.schedule c.loc from
