-- ===== src/Client/Discover.antt =====
-- mkq.go: `DiscoverQueues` lists the queues that have metadata.
use mkq.Prelude.{
  ℕ, suc, Bool, true, false, not, ◌&&◌, ◌||◌, eq_bytes, eq_bytes_sound, List, [], ◌∷◌, ◌++◌,
  append-nil, append_assoc, map, some, Bytes, is_empty, ℤ, pos, ◌==◌, if◌then◌else◌, Bool-cases,
  ◌≡◌, refl, ap, ◌∙◌, inl, inr, arith,
}
use mkq.Failure.{Failure}
use mkq.Lua.Preprocess.{member}
use mkq.Redis.{Value, hmget, World, History, Result, ok, err}
use mkq.Client.{
  sort_strings, meta_marker_fields, has_marker, first_error, listed, scan_call, scan_node, scan_all,
  asked, is_wrong_type, kept_keys, after_exec, keep_queue_meta, DiscoverOption, discover_count,
  default_discover_count, discover_queues,
}
use mkq.Client.Names.{
  meta_key, spread, and_false, Ordered, Distinct, sort_strings_lem, distinct_names, found_in_lem,
  distinct_names-Distinct, member-distinct_names,
}

spread_false : (a b c : Bool) → (a ≡ true → c ≡ false) → (b && c) ≡ ((a || b) && c)
spread_false true b c h = rw (h refl) (and_false b)
spread_false false b c h = refl

module _ (w : World) (page : Value → List Bytes × ℤ) (key_prefix : Bytes) (count : ℤ) where
  -- From a cursor on, SCAN gives these keys within a number of calls, the last of which comes back with
  -- cursor 0; the last index is the history behind them.
  pub data Scans : ℕ → ℤ → History → List Bytes → History → Type 0 where
    last :
        (f : ℕ) (c : ℤ) (h g : History) (v : Value) (keys : List Bytes)
        → w.redis h (scan_call w page key_prefix c count) ≡ ok v
        → page v ≡ (keys, pos 0)
        → g ≡ scan_call w page key_prefix c count ∷ h
        → Scans (suc f) c h keys g
    more :
        (n : ℕ) (c : ℤ) (h g : History) (v : Value) (keys rest : List Bytes) (next : ℕ)
        → w.redis h (scan_call w page key_prefix c count) ≡ ok v
        → page v ≡ (keys, pos (suc next))
        → Scans n (pos (suc next)) (scan_call w page key_prefix c count ∷ h) rest g
        → Scans (suc n) c h (keys ++ rest) g

  scan_node_lem :
      (n : ℕ) (c : ℤ) (h g : History) (keys out : List Bytes)
      → Scans n c h keys g
      → scan_node w page key_prefix n count c out h ≡ (some (ok (out ++ keys)), g)
  unfolding scan_node
  scan_node_lem _ _ _ _ _ out (last f c h g v keys e p q) = rw (e, p, q) refl
  scan_node_lem _ _ _ _ _ out (more n c h g v keys rest next e p s) =
      let positive : (suc next == 0) ≡ false = ground arith in
      rw (e, p, positive, ← append_assoc out keys rest)
        (scan_node_lem n (pos (suc next)) (scan_call w page key_prefix c count ∷ h) g rest
          (out ++ keys) s)

-- Each master's SCAN ends, within so many calls, and together they give these keys.
pub data ScansAll (page : Value → List Bytes × ℤ) (key_prefix : Bytes) (count : ℤ) (n : ℕ)
    : List World → History → List Bytes → History → Type 0 where
  no_more : (h : History) → ScansAll page key_prefix count n [] h [] h
  master :
      (m : World) (masters : List World) (h g g' : History) (keys rest : List Bytes)
      → Scans m page key_prefix count n (pos 0) h keys g
      → ScansAll page key_prefix count n masters g rest g'
      → ScansAll page key_prefix count n (m ∷ masters) h (keys ++ rest) g'

scan_all_lem :
    (page : Value → List Bytes × ℤ) (key_prefix : Bytes) (count : ℤ) (n : ℕ) (masters : List World)
    (h : History) (keys : List Bytes) (g : History) (out : List Bytes)
    → ScansAll page key_prefix count n masters h keys g
    → scan_all page key_prefix masters n count out h ≡ (some (ok (out ++ keys)), g)
unfolding scan_all
scan_all_lem page kp count n _ _ _ _ out (no_more h) = rw (append-nil out) refl
scan_all_lem page kp count n _ _ _ _ out (master m masters h g g' keys rest s all) =
    rw (scan_node_lem m page kp count n (pos 0) h g keys [] s, ← append_assoc out keys rest)
      (scan_all_lem page kp count n masters g rest g' (out ++ keys) all)

module _ (w : World) (page : Value → List Bytes × ℤ) (key_prefix : Bytes) (count : ℤ) where
  module _ (reply : Bytes → Result Value)
      (answers : (h : History) (k : Bytes) → w.redis h (hmget k meta_marker_fields) ≡ reply k)
      (wrong_types : (k : Bytes) (e : Failure)
        → reply k ≡ err e
        → is_wrong_type w page key_prefix e ≡ true) where
    -- The key holds a hash with a field that only the hash of a queue has.
    abbrev marked_by : Result Value → Bool
    marked_by (ok v) = has_marker v
    marked_by (err e) = false

    abbrev pub marked : Bytes → Bool
    marked queue = marked_by (reply (meta_key key_prefix queue))

    abbrev pub keep : (Bytes → Bool) → List Bytes → List Bytes
    keep p [] = []
    keep p (m ∷ ms) = let rest = keep p ms in if p m then m ∷ rest else rest

    abbrev key_of : Bytes → Bytes
    key_of m = meta_key key_prefix m

    replies : List Bytes → List (Bytes × Result Value)
    replies ks = map (λ k. (k, reply k)) ks

    asked_lem : (ks : List Bytes) (h : History) → (asked w page key_prefix ks h).0 ≡ replies ks
    unfolding replies
    asked_lem [] h = refl
    asked_lem (k ∷ ks) h = rw (answers h k, asked_lem ks (hmget k meta_marker_fields ∷ h)) refl

    kept_step :
        (k : Bytes) (r : Result Value) (rest : List (Bytes × Result Value)) (ks : List Bytes)
        → ((e : Failure) → r ≡ err e → is_wrong_type w page key_prefix e ≡ true)
        → kept_keys w page key_prefix rest ≡ ok ks
        → kept_keys w page key_prefix ((k, r) ∷ rest) ≡ ok (if marked_by r then k ∷ ks else ks)
    unfolding kept_keys
    kept_step k (ok v) rest ks wrong e = rw (e) refl
    kept_step k (err x) rest ks wrong e = rw (wrong x refl) e

    map-keep :
        (b : Bool) (m : Bytes) (l : List Bytes)
        → (if b then key_of m ∷ map key_of l else map key_of l)
          ≡ map key_of (if b then m ∷ l else l)
    map-keep true m l = refl
    map-keep false m l = refl

    kept_nil : kept_keys w page key_prefix [] ≡ ok []
    unfolding kept_keys
    kept_nil = refl

    kept_keys_lem :
        (ms : List Bytes)
        → kept_keys w page key_prefix (replies (map key_of ms)) ≡ ok (map key_of (keep marked ms))
    unfolding replies
    kept_keys_lem [] = kept_nil
    kept_keys_lem (m ∷ ms) =
        kept_step (key_of m) (reply (key_of m)) (replies (map key_of ms))
          (map key_of (keep marked ms)) (wrong_types (key_of m)) (kept_keys_lem ms)
        ∙ ap (λ l. ok l) (map-keep (marked m) m (keep marked ms))

    exec_step :
        (k : Bytes) (r : Result Value) (rest rs : List (Bytes × Result Value))
        → ((e : Failure) → r ≡ err e → is_wrong_type w page key_prefix e ≡ true)
        → after_exec w page key_prefix (first_error rest) rs ≡ kept_keys w page key_prefix rs
        → after_exec w page key_prefix (first_error ((k, r) ∷ rest)) rs
          ≡ kept_keys w page key_prefix rs
    exec_step k (ok v) rest rs wrong e = e
    exec_step k (err x) rest rs wrong e = rw (wrong x refl) refl

    exec_lem :
        (ks : List Bytes) (rs : List (Bytes × Result Value))
        → after_exec w page key_prefix (first_error (replies ks)) rs
          ≡ kept_keys w page key_prefix rs
    unfolding replies
    exec_lem [] rs = refl
    exec_lem (k ∷ ks) rs = exec_step k (reply k) (replies ks) rs (wrong_types k) (exec_lem ks rs)

    keep_queue_meta_lem :
        (ms : List Bytes) (h : History)
        → (keep_queue_meta w page key_prefix (map key_of ms) h).0 ≡ ok (map key_of (keep marked ms))
    unfolding keep_queue_meta
    keep_queue_meta_lem [] h = refl
    keep_queue_meta_lem (m ∷ ms) h =
        ap (λ rs. after_exec w page key_prefix (first_error rs) rs)
          (asked_lem (map key_of (m ∷ ms)) h)
        ∙ exec_lem (map key_of (m ∷ ms)) (replies (map key_of (m ∷ ms)))
        ∙ kept_keys_lem (m ∷ ms)

    member-keep :
        (q : Bytes) (ms : List Bytes) → member q (keep marked ms) ≡ (member q ms && marked q)
    member-keep q [] = refl
    member-keep q (m ∷ ms) = elim (Bool-cases (marked m)) [
      | inl f ↦
          rw (f, member-keep q ms)
            (spread (eq_bytes q m) (member q ms) (marked q)
              (λ g. ap marked (eq_bytes_sound q m g) ∙ f))
      | inr f ↦
          rw (f, member-keep q ms)
            (spread_false (eq_bytes q m) (member q ms) (marked q)
              (λ g. ap marked (eq_bytes_sound q m g) ∙ f))
    ]

    -- When on every master SCAN ends within `n` calls, together they give the keys of the texts `ms`, in
    -- whatever order the masters come, and no command fails but for a key that is no hash, DiscoverQueues gives a sorted list without repetitions: of the texts that are not
    -- empty and whose key has a field that only the hash of a queue has.
    pub discover_queues-lists :
        (n : ℕ) (masters : List World) (os : List DiscoverOption) (ms : List Bytes) (h g : History)
        → discover_count os default_discover_count ≡ count
        → ScansAll page key_prefix count n masters h (map key_of ms) g
        → (names : List Bytes) × (discover_queues w page key_prefix masters n os h ≡ listed names)
          × Ordered names
          × Distinct names
          × ((q : Bytes) → member q names ≡ (member q ms && marked q && not (is_empty q)))
    unfolding discover_queues sort_strings
    discover_queues-lists n masters os ms h g e s =
        let kept = keep marked ms in
        let found = scan_all_lem page key_prefix count n masters h (map key_of ms) g [] s in
        let (ordered, distinct, same) =
          sort_strings_lem (distinct_names kept) (distinct_names-Distinct kept) in
        (
          sort_strings (distinct_names kept),
          rw (e, found, keep_queue_meta_lem ms g, found_in_lem key_prefix kept) refl,
          ordered,
          distinct,
          λ q.
              same q
              ∙ member-distinct_names q kept
              ∙ ap (λ x. x && not (is_empty q)) (member-keep q ms),
        )
