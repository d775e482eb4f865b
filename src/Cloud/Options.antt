-- ===== src/Cloud/Options.antt =====
-- doover/src/channel_backend.rs: what goes with a write to a channel, and what a read of one gives. A maximal age
-- is in whole seconds here; the client of the cloud reads neither it nor the quality of service.
use doover_rs.Base.{
  ℕ, ◌<◌, ◌^◌, ◌-◌, ◌≡◌, ◌≢◌, refl, ap, String, Bool, true, false, Option, none, some, List, [],
  ◌∷◌, ◌==◌, ltb, str_eq, eq_iff, unwrap_or, if◌then◌else◌, arith, Bool-cases, inl, inr,
}
use doover_rs.Base.Int.{ℤ, pos, negsuc}
use doover_rs.Base.Text.{append, print_u64}
use doover_rs.Errors.{DooverError, invalid_payload, Result, ok, err}
use doover_rs.Json.{Value, Values, null, string, number, array, object, nil, cons, end, entry}

pub data Qos : Type 0 where
  at_most_once standard : Qos

abbrev pub qos_wire : Qos → Option ℕ
qos_wire standard = none
qos_wire at_most_once = some 0

abbrev pub qos_value : Qos → ℕ
qos_value at_most_once = 0
qos_value standard = 1

unfoldable pub qos_from_value : ℕ → Result DooverError Qos
qos_from_value value =
    if value == 0
    then ok at_most_once
    else if value == 1
    then ok standard
    else err (invalid_payload (append "unknown qos level " (print_u64 value)))

pub record AggregateOptions : Type 0 where
  pub max_age_secs : ℤ
  pub save_log : Bool
  pub replace_data : Bool
  pub clear_attachments : Bool
  pub replace_keys : List String
  pub suppress_response : Bool
  pub qos : Qos

abbrev pub default_options : AggregateOptions
default_options = record {
  max_age_secs = pos 0;
  save_log = false;
  replace_data = false;
  clear_attachments = false;
  replace_keys = [];
  suppress_response = false;
  qos = standard;
}

pub record UpdateMessageOptions : Type 0 where
  pub replace_data : Bool
  pub clear_attachments : Bool
  pub qos : Qos

pub record Attachment : Type 0 where
  pub filename : String
  pub content_type : Option String
  pub size : ℕ
  pub url : String

-- An attachment of the protocol: a text for the type, and a size of 64 bits with a sign.
pub record ProtoAttachment : Type 0 where
  pub filename : String
  pub content_type : String
  pub size_bytes : ℤ
  pub url : String

-- A size that is negative counts as zero.
abbrev pub clamped : ℤ → ℕ
clamped (pos n) = n
clamped (negsuc n) = 0

-- A `u64` as an `i64`.
abbrev pub as_i64 : ℕ → ℤ
as_i64 n = if ltb n (2 ^ 63) then pos n else negsuc (2 ^ 64 - n - 1)

-- An empty type is unknown.
unfoldable pub from_proto : ProtoAttachment → Attachment
from_proto a = record {
  filename = a.filename;
  content_type = if str_eq a.content_type "" then none else some a.content_type;
  size = clamped a.size_bytes;
  url = a.url;
}

unfoldable pub to_proto : Attachment → ProtoAttachment
to_proto a = record {
  filename = a.filename;
  content_type = unwrap_or a.content_type "";
  size_bytes = as_i64 a.size;
  url = a.url;
}

pub record ChannelAggregate (N : Type 0) : Type 0 where
  pub data_value : Value N
  pub attachments : List Attachment
  pub last_updated : Option ℕ

-- How a `u64` is a number, as it is and as an `f64`.
module _ {N : Type 0} (of_u64 of_f64 : ℕ → N) where
  abbrev pub text_or_null : Option String → Value N
  text_or_null none = null
  text_or_null (some s) = string s

  abbrev pub attachment_json : Attachment → Value N
  attachment_json a = object (
      entry "filename" (string a.filename) (
        entry "content_type" (text_or_null a.content_type)
          (entry "size" (number (of_u64 a.size)) (entry "url" (string a.url) end))))

  abbrev pub attachments_json : List Attachment → Values N
  attachments_json [] = nil
  attachments_json (a ∷ rest) = cons (attachment_json a) (attachments_json rest)

  abbrev pub time_json : Option ℕ → Value N
  time_json none = null
  time_json (some ms) = number (of_f64 ms)

  abbrev pub aggregate_json : ChannelAggregate N → Value N
  aggregate_json a = object (
      entry "data" a.data_value (
        entry "attachments" (array (attachments_json a.attachments))
          (entry "last_updated" (time_json a.last_updated) end)))

type_kept :
    (t : Option String)
    → t ≢ some ""
    → (if str_eq (unwrap_or t "") "" then none else some (unwrap_or t "")) ≡ t
type_kept none h = refl
type_kept (some s) h = elim (Bool-cases (str_eq s "")) [
  | inl e ↦ absurd (let same : s ≡ "" = ground (arith, e, eq_iff s "") in h (ap some same))
  | inr e ↦ rw (e) refl
]

-- An attachment survives the protocol, if its type is not empty and its size is below 2^63.
pub from_proto-to_proto :
    (a : Attachment) → a.content_type ≢ some "" → a.size < 2 ^ 63 → from_proto (to_proto a) ≡ a
unfolding from_proto to_proto
from_proto-to_proto a h small =
    let fits : ltb a.size (2 ^ 63) ≡ true = ground (arith, small) in
    rw (fits, type_kept a.content_type h) refl
