-- ===== src/Client.antt =====
-- mkq.go: which queues there are. What go-redis makes of a SCAN reply is a parameter.
pub mod Names
pub mod Discover
pub mod Connect
use mkq.Prelude.{
  ℕ, zero, suc, ◌+◌, ◌-◌, Bool, true, false, not, ◌&&◌, ◌||◌, List, [], ◌∷◌, ◌++◌, reverse, Option,
  none, some, Bytes, codes, is_empty, ℤ, pos, ltb, ltb_ℤ, ◌==◌, eq_bytes, take, drop, length,
  if◌then◌else◌,
}
use mkq.Failure.{Failure, wrap}
use mkq.Lua.Path.{has_prefix}
use mkq.Lua.Preprocess.{member}
use mkq.Redis.{
  Value, nil, str, arr, elements, Call, scan, smembers, hmget, World, History, M, Result, ok, err,
  ask, and_then, with_context,
}

abbrev pub meta_suffix : Bytes
meta_suffix = codes ":meta"

abbrev pub has_suffix : Bytes → Bytes → Bool
has_suffix p s = has_prefix (reverse p) (reverse s)

-- What a key says: the name of a queue, nothing, or a slice with its bounds the wrong way round.
pub data Named : Type 0 where
  name_is : Bytes → Named
  no_name : Named
  out_of_range : Named

abbrev pub nonempty_name : Bytes → Named
nonempty_name [] = no_name
nonempty_name (c ∷ s) = name_is (c ∷ s)

-- `key[a:b]`.
abbrev pub name_between : Bytes → ℕ → ℕ → Named
name_between key a b = if ltb b a then out_of_range else nonempty_name (take (b - a) (drop a key))

unfoldable pub queue_name_from_meta_key : Bytes → Bytes → Named
queue_name_from_meta_key key_prefix key =
    let prefix = key_prefix ++ codes ":" in
    if has_prefix prefix key && has_suffix meta_suffix key
    then name_between key (length prefix) (length key - length meta_suffix)
    else no_name

abbrev is_meta_byte : ℕ → Bool
is_meta_byte c = c == b'*' || c == b'?' || c == b'[' || c == b']' || c == 92

unfoldable pub escape_glob : Bytes → Bytes
escape_glob [] = []
escape_glob (c ∷ s) = let rest = escape_glob s in if is_meta_byte c then 92 ∷ c ∷ rest else c ∷ rest

pub data DiscoverOption : Type 0 where
  with_discover_count : ℤ → DiscoverOption

unfoldable pub discover_count : List DiscoverOption → ℤ → ℤ
discover_count [] count = count
discover_count (with_discover_count n ∷ os) count =
    discover_count os (if ltb_ℤ (pos 0) n then n else count)

abbrev pub default_discover_count : ℤ
default_discover_count = pos 100

-- sort.Strings.
abbrev pub leb_bytes : Bytes → Bytes → Bool
leb_bytes [] t = true
leb_bytes (x ∷ s) [] = false
leb_bytes (x ∷ s) (y ∷ t) = let rest = leb_bytes s t in if x == y then rest else ltb x y

abbrev pub insert_string : Bytes → List Bytes → List Bytes
insert_string n [] = n ∷ []
insert_string n (x ∷ l) =
    let rest = insert_string n l in if leb_bytes n x then n ∷ x ∷ l else x ∷ rest

unfoldable pub sort_strings : List Bytes → List Bytes
sort_strings [] = []
sort_strings (n ∷ l) = insert_string n (sort_strings l)

-- The set `found`, `none` when the program panics.
abbrev pub found_also : Named → Option (List Bytes) → Option (List Bytes)
found_also n none = none
found_also (name_is n) (some l) = if member n l then some l else some (n ∷ l)
found_also no_name (some l) = some l
found_also out_of_range (some l) = none

unfoldable pub found_in : Bytes → List Bytes → Option (List Bytes)
found_in key_prefix [] = some []
found_in key_prefix (k ∷ ks) =
    found_also (queue_name_from_meta_key key_prefix k) (found_in key_prefix ks)

unfoldable pub queue_registry_key : Bytes → Bytes
queue_registry_key key_prefix = key_prefix ++ codes "::queues"

-- The fields that only the hash of a queue has.
abbrev pub meta_marker_fields : List Bytes
meta_marker_fields = codes "version" ∷ codes "opts.maxLenEvents" ∷ codes "paused" ∷ []

abbrev any_set : List Value → Bool
any_set [] = false
any_set (nil ∷ vs) = any_set vs
any_set (_ ∷ vs) = true

abbrev pub has_marker : Value → Bool
has_marker (arr vs) = any_set (elements vs)
has_marker _ = false

abbrev pub first_error : List (Bytes × Result Value) → Option Failure
first_error [] = none
first_error ((k, ok v) ∷ r) = first_error r
first_error ((k, err e) ∷ r) = some e

-- The list of queues, an error, a panic, or a scan that goes on past its fuel.
pub data Discovered : Type 0 where
  listed : List Bytes → Discovered
  not_listed : Failure → Discovered
  panics : Discovered
  scanning : Discovered

module _ (w : World) (page : Value → List Bytes × ℤ) (key_prefix : Bytes) where
  abbrev pub scan_call : ℤ → ℤ → Call
  scan_call cursor count = scan cursor (escape_glob key_prefix ++ codes ":*:meta") count

  abbrev pub next_page :
      Result Value
      → (ℤ → List Bytes → History → Option (Result (List Bytes)) × History)
      → List Bytes
      → History
      → Option (Result (List Bytes)) × History
  next_page (err e) go out h = (some (err e), h)
  next_page (ok v) go out h =
      let (keys, next) = page v in
      if eq_cursor next then (some (ok (out ++ keys)), h) else go next (out ++ keys) h
    where
      eq_cursor : ℤ → Bool
      eq_cursor (pos n) = n == 0
      eq_cursor _ = false

  -- The loop of scanNode for a number of calls, `none` when they do not suffice.
  unfoldable pub scan_node :
      ℕ → ℤ → ℤ → List Bytes → History → Option (Result (List Bytes)) × History
  scan_node zero count cursor out h = (none, h)
  scan_node (suc f) count cursor out h =
      let c = scan_call cursor count in next_page (w.redis h c) (scan_node f count) out (c ∷ h)

-- scanAll: one master after another, of which each answers by itself; there is one unless the client is
-- that of a cluster.
module _ (page : Value → List Bytes × ℤ) (key_prefix : Bytes) where
  abbrev pub scanned_node :
      Option (Result (List Bytes)) × History
      → (List Bytes → History → Option (Result (List Bytes)) × History)
      → List Bytes
      → Option (Result (List Bytes)) × History
  scanned_node (none, h) go out = (none, h)
  scanned_node (some (err e), h) go out = (some (err e), h)
  scanned_node (some (ok keys), h) go out = go (out ++ keys) h

  unfoldable pub scan_all :
      List World → ℕ → ℤ → List Bytes → History → Option (Result (List Bytes)) × History
  unfolding scan_node
  scan_all [] f count out h = (some (ok out), h)
  scan_all (m ∷ masters) f count out h =
      scanned_node (scan_node m page key_prefix f count (pos 0) [] h) (scan_all masters f count) out

module _ (w : World) (page : Value → List Bytes × ℤ) (key_prefix : Bytes) where
  -- The pipeline of keepQueueMeta, each key with its reply.
  abbrev pub asked : List Bytes → History → List (Bytes × Result Value) × History
  asked [] h = ([], h)
  asked (k ∷ ks) h =
      let c = hmget k meta_marker_fields in
      let (rs, h') = asked ks (c ∷ h) in ((k, w.redis h c) ∷ rs, h')

  unfoldable pub is_wrong_type : Failure → Bool
  unfolding has_prefix
  is_wrong_type e = has_prefix (codes "WRONGTYPE") (w.error_text e)

  abbrev discover_error : Failure → Failure
  discover_error e = wrap (codes "mkq: discover queues") e

  abbrev pub keep_if : Bytes → Bool → Result (List Bytes) → Result (List Bytes)
  keep_if k b (err e) = err e
  keep_if k b (ok ks) = ok (if b then k ∷ ks else ks)

  -- The loop over the replies. A key that holds no hash is left out.
  unfoldable pub kept_keys : List (Bytes × Result Value) → Result (List Bytes)
  kept_keys [] = ok []
  kept_keys ((k, ok v) ∷ r) = keep_if k (has_marker v) (kept_keys r)
  kept_keys ((k, err e) ∷ r) =
      let rest = kept_keys r in if is_wrong_type e then rest else err (discover_error e)

  abbrev pub after_exec : Option Failure → List (Bytes × Result Value) → Result (List Bytes)
  after_exec none rs = kept_keys rs
  after_exec (some e) rs = if is_wrong_type e then kept_keys rs else err (discover_error e)

  unfoldable pub keep_queue_meta : List Bytes → M (List Bytes)
  unfolding kept_keys
  keep_queue_meta [] h = (ok [], h)
  keep_queue_meta (k ∷ ks) h =
      let (rs, h') = asked (k ∷ ks) h in (after_exec (first_error rs) rs, h')

  abbrev pub sorted_names : Option (List Bytes) → Discovered
  sorted_names none = panics
  sorted_names (some l) = listed (sort_strings l)

  abbrev pub names_in : Result (List Bytes) → Discovered
  names_in (err e) = not_listed e
  names_in (ok ks) = sorted_names (found_in key_prefix ks)

  abbrev pub among : Option (Result (List Bytes)) × History → Discovered
  among (none, h) = scanning
  among (some (err e), h) = not_listed (wrap (codes "mkq: scan") e)
  among (some (ok ks), h) = names_in (keep_queue_meta ks h).0

  -- With a number of SCAN calls to each master.
  unfoldable pub discover_queues : List World → ℕ → List DiscoverOption → History → Discovered
  unfolding scan_all keep_queue_meta discover_count found_in sort_strings
  discover_queues masters fuel os h =
      among (scan_all page key_prefix masters fuel (discover_count os default_discover_count) [] h)

  abbrev strings_of : List Value → List Bytes
  strings_of [] = []
  strings_of (str s ∷ vs) = s ∷ strings_of vs
  strings_of (_ ∷ vs) = strings_of vs

  abbrev pub members_of : Value → List Bytes
  members_of (arr vs) = strings_of (elements vs)
  members_of _ = []

  unfoldable pub queues : M (List Bytes)
  unfolding queue_registry_key
  queues =
      and_then
        (with_context (codes "mkq: SMembers") (ask w (smembers (queue_registry_key key_prefix))))
        (λ v. ok (members_of v))
