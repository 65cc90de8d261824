-- ===== src/JobOpts/RoundTrip.antt =====
-- The options that a producer encodes are the ones that a worker reads back.
use mkq.Prelude.{
  true, Option, none, some, ◌≡◌, refl, ℤ, pos, leb_ℤ, codes, Bool-cases, inl, inr, if◌then◌else◌,
}
use mkq.Json.{
  Json, null, boolean, integer, real, string, array, object, Elements, no_element, element, Members,
  no_member, member,
}
use mkq.JobOpts
use mkq.JobOpts.{in_int64, parse_remove_opt, parse_backoff_opt, milliseconds}
use mkq.Proto
use mkq.Proto.{encode_retention_limit, encode_backoff}
use mkq.Redis.{
  Packed, pack_nil, pack_str, pack_int, pack_float, pack_bool, pack_map, pack_list, Entries,
  no_entry, entry, Items, no_item, item,
}

-- The JSON value with the same content; it is what the scripts store of the options they are given.
abbrev mutual
  pub as_json : Packed → Json
  as_json pack_nil = null
  as_json (pack_str s) = string s
  as_json (pack_int n) = integer n
  as_json (pack_float x) = real x
  as_json (pack_bool b) = boolean b
  as_json (pack_map m) = object (as_members m)
  as_json (pack_list l) = array (as_elements l)

  pub as_members : Entries → Members
  as_members no_entry = no_member
  as_members (entry k v m) = member k (as_json v) (as_members m)

  pub as_elements : Items → Elements
  as_elements no_item = no_element
  as_elements (item v l) = element (as_json v) (as_elements l)

abbrev pub json_of : Option Packed → Option Json
json_of none = none
json_of (some p) = some (as_json p)

abbrev pub InRange : Option ℤ → Type 0
InRange none = Unit
InRange (some n) = in_int64 n ≡ true

-- What a retention limit keeps by: a number of jobs, and an age, which counts if it is positive.
abbrev pub count_of : Option JobOpts.RetentionLimit → Option ℤ
count_of none = none
count_of (some r) = r.count

abbrev pub age_of : Option JobOpts.RetentionLimit → Option ℤ
age_of none = none
age_of (some r) = r.age_seconds

abbrev pub wanted_count : Option Proto.RetentionLimit → Option ℤ
wanted_count none = none
wanted_count (some r) = r.count

abbrev positive : Option ℤ → Option ℤ
positive none = none
positive (some a) = if leb_ℤ a (pos 0) then none else some a

abbrev pub wanted_age : Option Proto.RetentionLimit → Option ℤ
wanted_age none = none
wanted_age (some r) = positive r.age_seconds

abbrev pub FitsLimit : Option Proto.RetentionLimit → Type 0
FitsLimit none = Unit
FitsLimit (some r) = InRange r.count × InRange r.age_seconds

bare-limit :
    (c : Option ℤ)
    → InRange c
    → (count_of (parse_remove_opt (json_of (Proto.bare_count c))) ≡ c)
      × (age_of (parse_remove_opt (json_of (Proto.bare_count c))) ≡ none)
unfolding parse_remove_opt
bare-limit none h = (refl, refl)
bare-limit (some n) h = rw h (refl, refl)

aged-limit :
    (c : Option ℤ) (a : ℤ)
    → InRange c
    → in_int64 a ≡ true
    → parse_remove_opt (
        some (
          as_json (
            pack_map
              (Proto.optional_int (codes "count") c (entry (codes "age") (pack_int a) no_entry)))))
      ≡ some (record { count = c; age_seconds = some a })
unfolding parse_remove_opt
aged-limit none a hc ha = rw ha
aged-limit (some n) a hc ha = rw (hc, ha)

limit-parts :
    (c g : Option ℤ)
    → InRange c
    → InRange g
    → let p =
        parse_remove_opt
          (json_of (encode_retention_limit (some (record { count = c; age_seconds = g })))) in
      (count_of p ≡ c) × (age_of p ≡ positive g)
unfolding encode_retention_limit
limit-parts c none hc hg = bare-limit c hc
limit-parts c (some a) hc hg = elim (Bool-cases (leb_ℤ a (pos 0))) [
  | inl off ↦ rw off (bare-limit c hc)
  | inr on ↦ rw on (rw (aged-limit c a hc hg) (refl, refl))
]

pub limit-round_trip :
    (r : Option Proto.RetentionLimit)
    → FitsLimit r
    → let p = parse_remove_opt (json_of (encode_retention_limit r)) in
      (count_of p ≡ wanted_count r) × (age_of p ≡ wanted_age r)
unfolding parse_remove_opt
limit-round_trip none h = unfold encode_retention_limit in (refl, refl)
limit-round_trip (some r) h = limit-parts r.count r.age_seconds h.0 h.1
