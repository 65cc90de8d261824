-- ===== src/Observability/Readings.antt =====
-- What the collectors read behind some calls, and how calls of several goroutines add up.
use mkq.Prelude.{
  ℕ, ◌+◌, Bool, true, false, ◌&&◌, List, [], ◌∷◌, ◌++◌, pos_part, neg_part, eq_bytes, ◌==◌, ◌≡◌,
  refl, arith, if◌then◌else◌,
}
use mkq.Observability.{
  Attrs, Collector, jobs_added, jobs_processed, handler_dur, dispatch_wait, jobs_in_flight,
  PromCall, add, observe, Emission, prom, prom_all,
}

abbrev number : Collector → ℕ
number jobs_added = 0
number jobs_processed = 1
number handler_dur = 2
number dispatch_wait = 3
number jobs_in_flight = 4

abbrev pub eq_labels : Attrs → Attrs → Bool
eq_labels [] [] = true
eq_labels [] (b ∷ bs) = false
eq_labels (a ∷ as') [] = false
eq_labels ((k, v) ∷ as') ((k', v') ∷ bs) = eq_bytes k k' && (eq_bytes v v' && eq_labels as' bs)

abbrev pub on_series : Collector → Attrs → Collector → Attrs → Bool
on_series c ls c' ls' = (number c == number c') && eq_labels ls ls'

-- The additions to one series and the subtractions from it; its value is the difference.
abbrev pub raised : Collector → Attrs → List PromCall → ℕ
raised c ls [] = 0
raised c ls (add c' ls' d ∷ cs) = (if on_series c ls c' ls' then pos_part d else 0) + raised c ls cs
raised c ls (observe c' ls' x ∷ cs) = raised c ls cs

abbrev pub lowered : Collector → Attrs → List PromCall → ℕ
lowered c ls [] = 0
lowered c ls (add c' ls' d ∷ cs) =
    (if on_series c ls c' ls' then neg_part d else 0) + lowered c ls cs
lowered c ls (observe c' ls' x ∷ cs) = lowered c ls cs

-- The calls of two goroutines in some order, and of any number of them.
pub data Merge {ℓ} {A : Type ℓ} : List A → List A → List A → Type ℓ where
  neither : Merge [] [] []
  left : (x : A) (xs ys zs : List A) → Merge xs ys zs → Merge (x ∷ xs) ys (x ∷ zs)
  right : (y : A) (xs ys zs : List A) → Merge xs ys zs → Merge xs (y ∷ ys) (y ∷ zs)

pub data Interleaves {ℓ} {A : Type ℓ} : List (List A) → List A → Type ℓ where
  nobody : Interleaves [] []
  somebody :
      (xs : List A) (rest : List (List A)) (ys zs : List A)
      → Interleaves rest ys
      → Merge xs ys zs
      → Interleaves (xs ∷ rest) zs

raised-append :
    (c : Collector) (ls : Attrs) (xs ys : List PromCall)
    → raised c ls (xs ++ ys) ≡ raised c ls xs + raised c ls ys
raised-append c ls [] ys = omega arith
raised-append c ls (add c' ls' d ∷ xs) ys = omega (arith, raised-append c ls xs ys)
raised-append c ls (observe c' ls' x ∷ xs) ys = raised-append c ls xs ys

lowered-append :
    (c : Collector) (ls : Attrs) (xs ys : List PromCall)
    → lowered c ls (xs ++ ys) ≡ lowered c ls xs + lowered c ls ys
lowered-append c ls [] ys = omega arith
lowered-append c ls (add c' ls' d ∷ xs) ys = omega (arith, lowered-append c ls xs ys)
lowered-append c ls (observe c' ls' x ∷ xs) ys = lowered-append c ls xs ys

module _ (c : Collector) (ls : Attrs) where
  -- The same behind the adapter.
  abbrev pub ups : List Emission → ℕ
  ups es = raised c ls (prom_all es)

  abbrev pub downs : List Emission → ℕ
  downs es = lowered c ls (prom_all es)

  pub ups-cons : (e : Emission) (es : List Emission) → ups (e ∷ es) ≡ raised c ls (prom e) + ups es
  unfolding prom_all
  ups-cons e es = raised-append c ls (prom e) (prom_all es)

  pub downs-cons :
      (e : Emission) (es : List Emission) → downs (e ∷ es) ≡ lowered c ls (prom e) + downs es
  unfolding prom_all
  downs-cons e es = lowered-append c ls (prom e) (prom_all es)

  pub ups_nil : ups [] ≡ 0
  unfolding prom_all
  ups_nil = refl

  pub downs_nil : downs [] ≡ 0
  unfolding prom_all
  downs_nil = refl

-- A way to count emissions that adds up along lists.
module _ (f : List Emission → ℕ) (g : Emission → ℕ) (nil : f [] ≡ 0)
    (cons : (e : Emission) (es : List Emission) → f (e ∷ es) ≡ g e + f es) where
  pub append_sum : (es fs : List Emission) → f (es ++ fs) ≡ f es + f fs
  append_sum [] fs = omega (arith, nil)
  append_sum (e ∷ es) fs = omega (arith, cons e es, cons e (es ++ fs), append_sum es fs)

  pub Merge-sum : {xs ys zs : List Emission} → Merge xs ys zs → f zs ≡ f xs + f ys
  Merge-sum neither = omega (arith, nil)
  Merge-sum (left x xs ys zs m) = omega (arith, cons x xs, cons x zs, Merge-sum m)
  Merge-sum (right y xs ys zs m) = omega (arith, cons y ys, cons y zs, Merge-sum m)
