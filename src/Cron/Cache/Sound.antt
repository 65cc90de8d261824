-- ===== src/Cron/Cache/Sound.antt =====
-- cron.go: the cache does not change what `parseCron` answers.
use mkq.Prelude.{
  Bool, true, false, ◌||◌, [], ◌∷◌, ◌++◌, some, Bytes, eq_bytes, eq_bytes_sound, ◌==◌, All, ◌≡◌,
  refl, sym, ◌∙◌, ◌⊎◌, codes, Bool-cases, Option-cases, inl, inr, arith, is_empty, if◌then◌else◌,
}
use mkq.Failure.{Failure, plain}
use mkq.Redis.{Result, ok, err}
use mkq.Cron.{is_at_every}
use mkq.Cron.Cache.{
  CronLib, CachedCron, CronCache, cached, key_of, location, compile, parse_cron, stored, looked_up,
}

abbrev pub has_bar : Bytes → Bool
has_bar [] = false
has_bar (c ∷ s) = c == b'|' || has_bar s

bar_behind : (s t : Bytes) → has_bar (s ++ b'|' ∷ t) ≡ true
bar_behind [] t = refl
bar_behind (c ∷ s) t = ground (arith, bar_behind s t)

key_split :
    (p t p' t' : Bytes)
    → p ++ b'|' ∷ t ≡ p' ++ b'|' ∷ t'
    → has_bar p ≡ false
    → has_bar t ≡ false
    → (p ≡ p') × (t ≡ t')
key_split [] t [] t' e hp ht = (refl, cc e)
key_split [] t (c ∷ p') t' e hp ht =
    let tail : t ≡ p' ++ b'|' ∷ t' = cc e in
    let seen : has_bar t ≡ true = rw (tail) (bar_behind p' t') in cc (seen, ht)
key_split (c ∷ p) t [] t' e hp ht = let bar : c ≡ b'|' = cc e in ground (arith, bar)
key_split (c ∷ p) t (c' ∷ p') t' e hp ht =
    let tail : p ++ b'|' ∷ t ≡ p' ++ b'|' ∷ t' = cc e in
    let head : c ≡ c' = cc e in
    let clean : has_bar p ≡ false = ground arith in
    let (ps, ts) = key_split p t p' t' tail clean ht in (cc (head, ps), ts)

Result-cases : {A : Type 0} (r : Result A) → ((a : A) × (r ≡ ok a)) ⊎ ((e : Failure) × (r ≡ err e))
Result-cases (ok a) = inl (a, refl)
Result-cases (err e) = inr (e, refl)

module _ (lib : CronLib) where
  -- What `parseCron` would answer without a cache.
  abbrev pub uncached : Bytes → Bytes → Result (CachedCron lib)
  uncached pattern tz =
      if is_empty pattern
      then err (plain (codes "mkq: pattern must be non-empty"))
      else if is_at_every pattern
      then err (plain (codes "mkq: @every is not supported as a cron pattern"))
      else compile lib pattern tz

  -- Every entry is what its pattern and its zone compile to.
  abbrev pub IsSound : CronCache lib → Type 0
  IsSound = All (λ entry.
      (p : Bytes) × (t : Bytes) × (entry.0 ≡ key_of lib p t) × (compile lib p t ≡ ok entry.1))

  module _
      (no_bar_pattern : (p : Bytes) (s : lib.Schedule) → lib.parse p ≡ ok s → has_bar p ≡ false)
      (no_bar_zone : (z : Bytes) (l : lib.Location)
        → lib.load_location z ≡ ok l
        → has_bar z ≡ false) where
    zone_clean : (t : Bytes) (l : lib.Location) → location lib t ≡ ok l → has_bar t ≡ false
    zone_clean [] l e = refl
    zone_clean (c ∷ t) l e = elim (Result-cases (lib.load_location (c ∷ t))) [
      | inl (l', found) ↦ no_bar_zone (c ∷ t) l' found
      | inr (x, missing) ↦ let bad = rw (missing) at e in cc bad
    ]

    compiled_clean :
        (p t : Bytes) (c : CachedCron lib)
        → compile lib p t ≡ ok c
        → (has_bar p ≡ false) × (has_bar t ≡ false)
    unfolding compile
    compiled_clean p t c e = elim (Result-cases (location lib t)) [
      | inl (l, zone) ↦ elim (Result-cases (lib.parse p)) [
        | inl (s, parsed) ↦ (no_bar_pattern p s parsed, zone_clean t l zone)
        | inr (x, bad) ↦ let wrong = rw (zone, bad) at e in cc wrong
      ]
      | inr (x, bad) ↦ let wrong = rw (bad) at e in cc wrong
    ]

    hit :
        (p t : Bytes) (m : CronCache lib) (c : CachedCron lib)
        → IsSound m
        → cached lib (key_of lib p t) m ≡ some c
        → compile lib p t ≡ ok c
    hit p t [] c sound e = cc e
    hit p t ((k, c') ∷ m) c ((p', t', key, compiled), sound) e =
        elim (Bool-cases (eq_bytes k (key_of lib p t))) [
          | inl same ↦
              let now : some c' ≡ some c = rw (same) at e in
              let (ps, ts) =
                key_split p' t' p t (sym key ∙ eq_bytes_sound _ _ same)
                  (compiled_clean p' t' c' compiled).0 (compiled_clean p' t' c' compiled).1 in
              let this : c' ≡ c = cc now in rw (← ps, ← ts, compiled, this) refl
          | inr other ↦ hit p t m c sound (rw (other) at e)
        ]

    store-IsSound :
        (p t : Bytes) (c : CachedCron lib) (m : CronCache lib)
        → IsSound m
        → compile lib p t ≡ ok c
        → let (r, m') = stored lib (key_of lib p t) (ok c) m in (r ≡ compile lib p t) × IsSound m'
    store-IsSound p t c m sound e = elim (Option-cases (cached lib (key_of lib p t) m)) [
      | inl missing ↦ rw (missing) (sym e, ((p, t, refl, e), sound))
      | inr (first, there) ↦ rw (there) (sym (hit p t m first sound there), sound)
    ]

    looked_up-IsSound :
        (p t : Bytes) (before m : CronCache lib)
        → IsSound before
        → IsSound m
        → let (r, m') =
            looked_up lib
              (key_of lib p t)
              (compile lib p t)
              (cached lib (key_of lib p t) before)
              m in
          (r ≡ compile lib p t) × IsSound m'
    looked_up-IsSound p t before m was sound =
        elim (Option-cases (cached lib (key_of lib p t) before)) [
          | inr (c, there) ↦ rw (there) (sym (hit p t before c was there), sound)
          | inl missing ↦ elim (Result-cases (compile lib p t)) [
            | inl (c, e) ↦ rw (missing, e) (rw (← e) (store-IsSound p t c m sound e))
            | inr (x, e) ↦ rw (missing, e) (refl, sound)
          ]
        ]

    -- If the parser accepts no pattern and the zone database no name with a "|" in it, then from caches
    -- of which every entry is what its pattern and zone compile to, at the time it is asked and at the
    -- time of the store, whatever others have stored in between, `parseCron` answers as it would without
    -- a cache, and every entry of the cache that it leaves is again what its pattern and zone compile to.
    pub parse_cron-uncached :
        (pattern tz : Bytes) (before m : CronCache lib)
        → IsSound before
        → IsSound m
        → let (r, m') = parse_cron lib before m pattern tz in (r ≡ uncached pattern tz) × IsSound m'
    unfolding parse_cron
    parse_cron-uncached pattern tz before m was sound = elim (Bool-cases (is_empty pattern)) [
      | inl e ↦ rw (e) (refl, sound)
      | inr e ↦ elim (Bool-cases (is_at_every pattern)) [
        | inl every ↦ rw (e, every) (refl, sound)
        | inr fine ↦ rw (e, fine) (looked_up-IsSound pattern tz before m was sound)
      ]
    ]
