-- ===== src/Client/Names.antt =====
-- mkq.go: the name of a queue read off its key, and the sorted set of names.
use mkq.Prelude.{
  ℕ, ◌+◌, ◌-◌, Bool, true, false, not, ◌&&◌, ◌||◌, List, [], ◌∷◌, ◌++◌, append_assoc, reverse, map,
  some, Bytes, codes, is_empty, ltb, ◌==◌, eq_bytes, eq_bytes_sound, length, length-append,
  take-length_append, drop-length_append, if◌then◌else◌, Bool-cases, ◌≡◌, refl, sym, ap, ◌∙◌, inl,
  inr, arith,
}
use mathlib.Core.List.{reverse-append}
use mkq.Lua.Path.{has_prefix}
use mkq.Lua.Preprocess.{member}
use mkq.Keys
use mkq.Keys.{Builder}
use mkq.Client.{
  meta_suffix, has_suffix, nonempty_name, name_between, queue_name_from_meta_key, leb_bytes,
  insert_string, sort_strings, found_also, found_in,
}

-- The key under which a queue has its metadata.
abbrev pub meta_key : Bytes → Bytes → Bytes
meta_key key_prefix queue = Keys.slot (record { prefix = key_prefix; queue = queue }) Keys.meta

has_prefix-append : (p s : Bytes) → has_prefix p (p ++ s) ≡ true
unfolding has_prefix
has_prefix-append [] s = refl
has_prefix-append (c ∷ p) s =
    let same : (c == c) ≡ true = ground arith in rw (same) (has_prefix-append p s)

has_suffix-append : (p s : Bytes) → has_suffix p (s ++ p) ≡ true
has_suffix-append p s = rw (reverse-append s p) (has_prefix-append (reverse p) (reverse s))

meta_key_parts :
    (key_prefix queue : Bytes)
    → meta_key key_prefix queue ≡ (key_prefix ++ codes ":") ++ (queue ++ meta_suffix)
unfolding Keys.slot Keys.base
meta_key_parts key_prefix queue =
    append_assoc (key_prefix ++ codes ":" ++ queue) (codes ":") (codes "meta")
    ∙ append_assoc (key_prefix ++ codes ":") queue meta_suffix

name_between_lem :
    (p queue : Bytes)
    → name_between
        (p ++ (queue ++ meta_suffix))
        (length p)
        (length (p ++ (queue ++ meta_suffix)) - length meta_suffix)
      ≡ nonempty_name queue
name_between_lem p queue =
    let whole = p ++ (queue ++ meta_suffix) in
    let size : length whole ≡ length p + (length queue + 5) =
      length-append p (queue ++ meta_suffix)
      ∙ ap (λ n. length p + n) (length-append queue meta_suffix) in
    let stop : length whole - 5 ≡ length p + length queue = omega (arith, size) in
    let inside : ltb (length p + length queue) (length p) ≡ false = ground arith in
    let rest : length p + length queue - length p ≡ length queue = omega arith in
    rw
      (
        stop,
        inside,
        rest,
        drop-length_append p (queue ++ meta_suffix),
        take-length_append queue meta_suffix,
      )
      refl

-- The key of a queue's metadata gives the queue's name back.
pub queue_name-meta_key :
    (key_prefix queue : Bytes)
    → queue_name_from_meta_key key_prefix (meta_key key_prefix queue) ≡ nonempty_name queue
unfolding queue_name_from_meta_key
queue_name-meta_key key_prefix queue =
    let p = key_prefix ++ codes ":" in
    let ends : has_suffix meta_suffix (p ++ (queue ++ meta_suffix)) ≡ true =
      rw (← append_assoc p queue meta_suffix) (has_suffix-append meta_suffix (p ++ queue)) in
    rw (meta_key_parts key_prefix queue, has_prefix-append p (queue ++ meta_suffix), ends)
      (name_between_lem p queue)

-- Sorted, and each text once.
abbrev pub Ordered : List Bytes → Type 0
Ordered [] = Unit
Ordered (x ∷ []) = Unit
Ordered (x ∷ y ∷ l) = (leb_bytes x y ≡ true) × Ordered (y ∷ l)

abbrev pub Distinct : List Bytes → Type 0
Distinct [] = Unit
Distinct (x ∷ l) = (member x l ≡ false) × Distinct l

leb_bytes-total : (s t : Bytes) → leb_bytes s t ≡ false → leb_bytes t s ≡ true
leb_bytes-total [] t h = cc
leb_bytes-total (x ∷ s) [] h = refl
leb_bytes-total (x ∷ s) (y ∷ t) h = ground (arith, leb_bytes-total s t)

insert_string-Ordered : (n : Bytes) (l : List Bytes) → Ordered l → Ordered (insert_string n l)
insert_string-Ordered n [] h = tt
insert_string-Ordered n (x ∷ []) h = elim (Bool-cases (leb_bytes n x)) [
  | inl e ↦ rw (e) (e, tt)
  | inr e ↦ rw (e) (leb_bytes-total n x e, tt)
]
insert_string-Ordered n (x ∷ y ∷ l) h = elim (Bool-cases (leb_bytes n x)) [
  | inl e ↦ rw (e) (e, h)
  | inr e ↦ elim (Bool-cases (leb_bytes n y)) [
    | inl f ↦ rw (e, f) (leb_bytes-total n x e, (f, h.1))
    | inr f ↦ rw (e, f) (h.0, rw (f) at (insert_string-Ordered n (y ∷ l) h.1))
  ]
]

or_swap : (a b c : Bool) → (a || (b || c)) ≡ (b || (a || c))
or_swap true true c = refl
or_swap true false c = refl
or_swap false true c = refl
or_swap false false c = refl

or-false : (a b : Bool) → (a || b) ≡ false → (a ≡ false) × (b ≡ false)
or-false true b h = cc
or-false false b h = (refl, h)

eq_bytes_comm : (s t : Bytes) → eq_bytes s t ≡ eq_bytes t s
eq_bytes_comm [] [] = refl
eq_bytes_comm [] (y ∷ t) = refl
eq_bytes_comm (x ∷ s) [] = refl
eq_bytes_comm (x ∷ s) (y ∷ t) = ground (arith, eq_bytes_comm s t)

member-insert_string :
    (q n : Bytes) (l : List Bytes) → member q (insert_string n l) ≡ (eq_bytes q n || member q l)
member-insert_string q n [] = refl
member-insert_string q n (x ∷ l) = elim (Bool-cases (leb_bytes n x)) [
  | inl e ↦ rw (e) refl
  | inr e ↦ rw (e, member-insert_string q n l) (or_swap (eq_bytes q x) (eq_bytes q n) (member q l))
]

insert_string-Distinct :
    (n : Bytes) (l : List Bytes) → member n l ≡ false → Distinct l → Distinct (insert_string n l)
insert_string-Distinct n [] h d = (refl, tt)
insert_string-Distinct n (x ∷ l) h d = elim (Bool-cases (leb_bytes n x)) [
  | inl e ↦ rw (e) (h, d)
  | inr e ↦
      let apart = or-false (eq_bytes n x) (member n l) h in
      rw (e) (
        rw (member-insert_string x n l, eq_bytes_comm x n, apart.0) d.0,
        insert_string-Distinct n l apart.1 d.1,
      )
]

pub sort_strings_lem :
    (l : List Bytes)
    → Distinct l
    → Ordered (sort_strings l)
      × Distinct (sort_strings l)
      × ((q : Bytes) → member q (sort_strings l) ≡ member q l)
unfolding sort_strings
sort_strings_lem [] d = (tt, tt, λ q. refl)
sort_strings_lem (n ∷ l) d =
    let rest = sort_strings_lem l d.1 in
    (
      insert_string-Ordered n (sort_strings l) rest.0,
      insert_string-Distinct n (sort_strings l) (rest.2 n ∙ d.0) rest.1,
      λ q. member-insert_string q n (sort_strings l) ∙ ap (λ x. eq_bytes q n || x) (rest.2 q),
    )

abbrev pub add_name : Bytes → List Bytes → List Bytes
add_name [] l = l
add_name (c ∷ m) l = if member (c ∷ m) l then l else (c ∷ m) ∷ l

-- The names among some texts, each once.
abbrev pub distinct_names : List Bytes → List Bytes
distinct_names [] = []
distinct_names (m ∷ ms) = add_name m (distinct_names ms)

add_name-found :
    (m : Bytes) (l : List Bytes) → found_also (nonempty_name m) (some l) ≡ some (add_name m l)
add_name-found [] l = refl
add_name-found (c ∷ m) l = elim (Bool-cases (member (c ∷ m) l)) [
  | inl e ↦ rw (e) refl
  | inr e ↦ rw (e) refl
]

pub found_in_lem :
    (key_prefix : Bytes) (ms : List Bytes)
    → found_in key_prefix (map (λ m. meta_key key_prefix m) ms) ≡ some (distinct_names ms)
unfolding found_in
found_in_lem key_prefix [] = refl
found_in_lem key_prefix (m ∷ ms) =
    rw (found_in_lem key_prefix ms, queue_name-meta_key key_prefix m)
      (add_name-found m (distinct_names ms))

add_name-Distinct : (m : Bytes) (l : List Bytes) → Distinct l → Distinct (add_name m l)
add_name-Distinct [] l d = d
add_name-Distinct (c ∷ m) l d = elim (Bool-cases (member (c ∷ m) l)) [
  | inl e ↦ rw (e) d
  | inr e ↦ rw (e) (e, d)
]

pub distinct_names-Distinct : (ms : List Bytes) → Distinct (distinct_names ms)
distinct_names-Distinct [] = tt
distinct_names-Distinct (m ∷ ms) =
    add_name-Distinct m (distinct_names ms) (distinct_names-Distinct ms)

absorbed : (a b : Bool) → (a ≡ true → b ≡ true) → b ≡ (a || b)
absorbed true b h = h refl
absorbed false b h = refl

pub spread : (a b c : Bool) → (a ≡ true → c ≡ true) → (a || (b && c)) ≡ ((a || b) && c)
spread true b c h = sym (h refl)
spread false b c h = refl

pub and_false : (a : Bool) → (a && false) ≡ false
and_false true = refl
and_false false = refl

named : (x y : Bytes) (c : ℕ) → eq_bytes x (c ∷ y) ≡ true → not (is_empty x) ≡ true
named [] y c h = cc
named (z ∷ x) y c h = refl

member-add_name :
    (x m : Bytes) (l ns : List Bytes)
    → member x l ≡ (member x ns && not (is_empty x))
    → member x (add_name m l) ≡ ((eq_bytes x m || member x ns) && not (is_empty x))
member-add_name [] [] l ns e = e ∙ and_false (member [] ns)
member-add_name (z ∷ x) [] l ns e = e
member-add_name x (c ∷ m) l ns e =
    let put_in : (eq_bytes x (c ∷ m) || member x l)
        ≡ ((eq_bytes x (c ∷ m) || member x ns) && not (is_empty x)) =
      ap (λ y. eq_bytes x (c ∷ m) || y) e
      ∙ spread (eq_bytes x (c ∷ m)) (member x ns) (not (is_empty x)) (named x m c) in
    elim (Bool-cases (member (c ∷ m) l)) [
      | inl g ↦ rw (g) (
          absorbed (eq_bytes x (c ∷ m)) (member x l) (λ h. rw (eq_bytes_sound x (c ∷ m) h) g)
          ∙ put_in)
      | inr g ↦ rw (g) put_in
    ]

-- A name is there when it is among the texts and not empty.
pub member-distinct_names :
    (q : Bytes) (ms : List Bytes) → member q (distinct_names ms) ≡ (member q ms && not (is_empty q))
member-distinct_names q [] = refl
member-distinct_names q (m ∷ ms) =
    member-add_name q m (distinct_names ms) ms (member-distinct_names q ms)
