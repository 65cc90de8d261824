-- ===== src/Schedule/Opts.antt =====
-- internal/proto/schedule_args.go: the options of a schedule as they are handed to the encoder, and the
-- template that each iteration inherits.
use mkq.Prelude.{
  Bool, true, false, ◌||◌, [], ◌∷◌, Option, none, some, Bytes, codes, is_empty, eq_bytes, ℤ,
  if◌then◌else◌,
}
use mkq.Failure.{Failure, plain}
use mkq.Json.{
  Json, null, boolean, integer, real, string, array, object, Elements, no_element, element, Members,
  no_member, member,
}
use mkq.JobOpts.{in_int64}
use mkq.Backoff.{Floats}
use mkq.Proto.{RetentionLimit, encode_retention_limit, entry_if, is_pos}
use mkq.Redis.{
  Packed, pack_nil, pack_str, pack_int, pack_float, pack_bool, pack_map, pack_list, Entries,
  no_entry, entry, Items, no_item, item, World, Result, ok, err,
}

pub record ScheduleOpts : Type 0 where
  pub name : Bytes
  pub every_ms : ℤ
  pub pattern : Bytes
  pub tz : Bytes
  pub start_date : ℤ
  pub end_date : ℤ
  pub limit : ℤ

abbrev pub not_empty : Bytes → Bool
not_empty [] = false
not_empty (_ ∷ _) = true

-- The members that the schedule's own map and the `repeat` map share.
abbrev repeat_entries : ScheduleOpts → Entries
repeat_entries o = entry_if (is_pos o.every_ms) (codes "every") (pack_int o.every_ms) (
    entry_if (not_empty o.pattern) (codes "pattern") (pack_str o.pattern) (
      entry_if (not_empty o.tz) (codes "tz") (pack_str o.tz) (
        entry_if (is_pos o.start_date) (codes "startDate") (pack_int o.start_date) (
          entry_if (is_pos o.end_date) (codes "endDate") (pack_int o.end_date)
            (entry_if (is_pos o.limit) (codes "limit") (pack_int o.limit) no_entry)))))

unfoldable pub encode_schedule_opts : ScheduleOpts → Packed
encode_schedule_opts o = pack_map (entry (codes "name") (pack_str o.name) (repeat_entries o))

-- `Extra` is what a scheduler's HASH holds; retention set by the caller replaces its members.
pub record TemplateOpts : Type 0 where
  pub remove_on_complete : Option RetentionLimit
  pub remove_on_fail : Option RetentionLimit
  pub extra : Entries

abbrev pub no_template : TemplateOpts
no_template = record { remove_on_complete = none; remove_on_fail = none; extra = no_entry }

-- `m[k] = v` on a map.
unfoldable pub set_entry : Bytes → Packed → Entries → Entries
set_entry k v no_entry = entry k v no_entry
set_entry k v (entry j u r) = if eq_bytes j k then entry k v r else entry j u (set_entry k v r)

abbrev set_optional : Bytes → Option Packed → Entries → Entries
set_optional k none m = m
set_optional k (some v) m = set_entry k v m

unfoldable pub template_map : TemplateOpts → Entries
unfolding set_entry
template_map t =
    set_optional (codes "removeOnFail") (encode_retention_limit t.remove_on_fail) (
      set_optional (codes "removeOnComplete") (encode_retention_limit t.remove_on_complete) t.extra)

unfoldable pub encode_template_opts : TemplateOpts → Packed
unfolding template_map
encode_template_opts t = pack_map (template_map t)

-- `m["repeat"] = repeat` over the template's map.
unfoldable pub encode_delayed_opts : ScheduleOpts → TemplateOpts → Packed
unfolding template_map set_entry
encode_delayed_opts o t =
    pack_map (set_entry (codes "repeat") (pack_map (repeat_entries o)) (template_map t))

-- A member that a later one of the same name does not replace.
abbrev has_entry : Bytes → Entries → Bool
has_entry k no_entry = false
has_entry k (entry j v r) = eq_bytes j k || has_entry k r

abbrev keep_last : Bytes → Packed → Entries → Entries
keep_last k v r = if has_entry k r then r else entry k v r

module _ (fl : Floats) where
  -- normaliseJSONNumbers: an integer stays one, any other number is a float.
  unfoldable mutual
    pub normalise : Json → Packed
    normalise null = pack_nil
    normalise (boolean b) = pack_bool b
    normalise (integer n) = if in_int64 n then pack_int n else pack_float (fl.of_int64 n)
    normalise (real x) = pack_float x
    normalise (string s) = pack_str s
    normalise (array vs) = pack_list (normalise_elements vs)
    normalise (object ms) = pack_map (normalise_members ms)

    pub normalise_elements : Elements → Items
    normalise_elements no_element = no_item
    normalise_elements (element v vs) = item (normalise v) (normalise_elements vs)

    pub normalise_members : Members → Entries
    normalise_members no_member = no_entry
    normalise_members (member k v ms) = keep_last k (normalise v) (normalise_members ms)

abbrev unreadable : Failure
unreadable = plain (codes "decode scheduler template opts")

-- A null decodes into a nil map, which gives the empty template, as the empty texts do.
abbrev template_of : Floats → Option Json → Result TemplateOpts
template_of fl (some (object ms)) =
    ok
      (record { remove_on_complete = none; remove_on_fail = none; extra = normalise_members fl ms })
template_of fl (some null) = ok no_template
template_of fl _ = err unreadable

unfoldable pub decode_template_opts : World → Bytes → Result TemplateOpts
decode_template_opts w raw =
    if is_empty raw
    then ok no_template
    else if eq_bytes raw (codes "{}")
    then ok no_template
    else template_of w.floats (w.parse_json raw)
