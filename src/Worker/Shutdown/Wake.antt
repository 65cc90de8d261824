-- ===== src/Worker/Shutdown/Wake.antt =====
-- worker.go `wakeDispatchers` and `dropWakeKey`: the key at which the dispatchers of one worker wait.
use mkq.Prelude.{
  ℕ, zero, suc, ◌+◌, ◌≤◌, ◌<◌, true, false, List, [], ◌∷◌, ◌++◌, length, is_empty, Bytes, codes,
  eq_bytes, eq_bytes_sound, ℤ, pos, max_int64, Bool-cases, inl, inr, ◌≡◌, refl, sym, ap, ◌∙◌, arith,
}
use mkq.Decimal.{show_int, parse_int64}
use mkq.Decimal.RoundTrip.{parse_int64-show_int}
use mkq.Lua.Preprocess.{member}
use mkq.Redis.{zadd, del, History, Effect}
use mkq.Client.Names.{Distinct}
use mkq.Worker.Shutdown.{wake_members}

abbrev pub stop_member : ℕ → Bytes
stop_member i = codes "stop:" ++ show_int (pos i)

-- The members of the numbers from `i` on.
unfoldable pub stop_members : ℕ → ℕ → List Bytes
stop_members i zero = []
stop_members i (suc n) = stop_member i ∷ stop_members (suc i) n

-- One ZADD, with the score 0 for each member; its error is dropped. A worker without a wake key pushes
-- nothing.
unfoldable pub wake_dispatchers : Bytes → ℤ → Effect
unfolding stop_members wake_members
wake_dispatchers [] concurrency h = h
wake_dispatchers (c ∷ key) concurrency h =
    zadd (c ∷ key) (stop_members 0 (wake_members concurrency)) ∷ h

unfoldable pub drop_wake_key : Bytes → Effect
drop_wake_key [] h = h
drop_wake_key (c ∷ key) h = del (c ∷ key) ∷ h

length-stop_members : (i n : ℕ) → length (stop_members i n) ≡ n
unfolding stop_members
length-stop_members i zero = refl
length-stop_members i (suc n) = ap suc (length-stop_members (suc i) n)

-- Different numbers are different texts.
stop_member-injective :
    (i j : ℕ) → i ≤ max_int64 → j ≤ max_int64 → stop_member i ≡ stop_member j → i ≡ j
stop_member-injective i j hi hj e =
    let texts : show_int (pos i) ≡ show_int (pos j) = cc e in
    let same : parse_int64 (show_int (pos i)) ≡ parse_int64 (show_int (pos j)) =
      ap parse_int64 texts in
    let numbers : (pos i, true) ≡ (pos j, true) =
      sym (parse_int64-show_int (pos i) (omega arith) (omega arith))
      ∙ same
      ∙ parse_int64-show_int (pos j) (omega arith) (omega arith) in
    cc numbers

later : (i j n : ℕ) → i < j → j + n ≤ max_int64 → member (stop_member i) (stop_members j n) ≡ false
unfolding stop_members
later i j zero lt fits = refl
later i j (suc n) lt fits = elim (Bool-cases (eq_bytes (stop_member i) (stop_member j))) [
  | inl same ↦ absurd (
      omega
        (arith, stop_member-injective i j (omega arith) (omega arith) (eq_bytes_sound _ _ same)))
  | inr other ↦ rw (other) (later i (suc j) n (omega arith) (omega arith))
]

stop_members-Distinct : (i n : ℕ) → i + n ≤ max_int64 → Distinct (stop_members i n)
unfolding stop_members
stop_members-Distinct i zero fits = tt
stop_members-Distinct i (suc n) fits =
    (later i (suc i) n (omega arith) (omega arith), stop_members-Distinct (suc i) n (omega arith))

-- A worker with a wake key pushes members in one call, which are all different, so that the sorted set
-- keeps each of them, and are as many as it has dispatchers.
wake_dispatchers-wakes :
    (key : Bytes) (concurrency : ℤ) (h : History)
    → is_empty key ≡ false
    → wake_members concurrency ≤ max_int64
    → (l : List Bytes) × (wake_dispatchers key concurrency h ≡ zadd key l ∷ h)
      × (length l ≡ wake_members concurrency)
      × Distinct l
unfolding wake_dispatchers
wake_dispatchers-wakes [] concurrency h some_key fits = cc
wake_dispatchers-wakes (c ∷ key) concurrency h some_key fits = (
  stop_members 0 (wake_members concurrency),
  refl,
  length-stop_members 0 (wake_members concurrency),
  stop_members-Distinct 0 (wake_members concurrency) (omega arith),
)
