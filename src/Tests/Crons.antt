-- ===== src/Tests/Crons.antt =====
-- A parser that refuses nothing but bars, and a cache that another goroutine has filled.
use mkq.Prelude.{false, [], ◌∷◌, Bytes, codes, ◌≡◌, refl, Bool-cases, inl, inr, if◌then◌else◌}
use mkq.Failure.{plain}
use mkq.Redis.{Result, ok, err}
use mkq.Cron.Cache.{CronLib, CronCache, key_of, compile, parse_cron}
use mkq.Cron.Cache.Sound.{has_bar, uncached, IsSound, parse_cron-uncached}

abbrev barless : Bytes → Result Bytes
barless s = if has_bar s then err (plain (codes "bar")) else ok s

abbrev lib : CronLib
lib = record {
  Schedule = Bytes;
  Location = Bytes;
  here = [];
  load_location = barless;
  parse = barless;
  next = λ s l from. from;
}

barless_clean : (p : Bytes) (s : Bytes) → barless p ≡ ok s → has_bar p ≡ false
barless_clean p s e = elim (Bool-cases (has_bar p)) [
  | inl bar ↦ let bad = rw (bar) at e in cc bad
  | inr clean ↦ clean
]

abbrev at_nine : Bytes
at_nine = codes "0 9 * * *"

abbrev filled : CronCache lib
filled = (key_of lib at_nine (codes "UTC"), record { schedule = at_nine; loc = codes "UTC" }) ∷ []

parse_cron-uncached_example :
    let (r, m) = parse_cron lib [] filled at_nine (codes "UTC") in
    (r ≡ uncached lib at_nine (codes "UTC")) × IsSound lib m
unfolding compile
parse_cron-uncached_example =
    parse_cron-uncached lib barless_clean barless_clean at_nine (codes "UTC") [] filled tt
      ((at_nine, codes "UTC", refl, refl), tt)
