-- ===== src/Platform.antt =====
-- doover/src/docker/platform.rs: the IO layout of a device, the edges of a digital input and the
-- broadcast of values over pins. An `i32` or `i64` is an integer of the model with its cut written out.
pub mod Pulses
pub mod Counters
pub mod Modes
pub mod Counting
pub mod Layout
pub mod Outputs
pub mod Service
pub mod Client
pub mod System
use doover_rs.Base.{
  ℕ, zero, suc, ◌-◌, ◌%◌, ◌^◌, String, Bool, true, false, Option, none, some, List, [], ◌∷◌, ◌++◌,
  map, str_eq, ltb, ◌==◌, length, or_else, and_then, if◌then◌else◌,
}
use doover_rs.Base.Int.{ℤ, pos, negsuc, int_leb}
use doover_rs.Json.{Value, Values, Map, string, number, array, object, nil, cons, end, entry}

pub data Edge : Type 0 where
  rising falling both : Edge

abbrev pub as_str : Edge → String
as_str rising = "rising"
as_str falling = "falling"
as_str both = "both"

abbrev pub flags : Edge → Bool × Bool
flags rising = (true, false)
flags falling = (false, true)
flags both = (true, true)

-- `FromStr`; an unknown name is an error.
abbrev pub edge_from_str : String → Option Edge
edge_from_str s =
    if str_eq s "rising"
    then some rising
    else if str_eq s "falling"
    then some falling
    else if str_eq s "both"
    then some both
    else none

pub record IoChannel : Type 0 where
  pub channel : ℤ
  pub device_channel : ℤ
  pub io_type : String
  pub kind : Option String
  pub units : Option String
  pub supports_events : Bool
  pub supports_pulse_counter : Bool
  pub supports_di_config : Bool
  pub supports_pulse_count : Bool
  pub supports_pulse_rate : Bool

pub record IoDevice : Type 0 where
  pub name : String
  pub type_name : String
  pub index : ℤ
  pub is_master : Bool
  pub online : Bool
  pub channels : List IoChannel

abbrev pub IoDetails : Type 0
IoDetails = List IoDevice

unfoldable pub of_type : String → List IoChannel → List IoChannel
of_type io_type [] = []
of_type io_type (c ∷ cs) =
    let rest = of_type io_type cs in if str_eq c.io_type io_type then c ∷ rest else rest

abbrev pub channels_of : IoDevice → String → List IoChannel
channels_of d io_type = of_type io_type d.channels

unfoldable pub master : IoDetails → Option IoDevice
master [] = none
master (d ∷ ds) = let rest = master ds in if d.is_master then some d else rest

-- `sort_by_key` on the channel number, which is stable.
unfoldable pub insert_by_channel : IoChannel → List IoChannel → List IoChannel
insert_by_channel c [] = c ∷ []
insert_by_channel c (x ∷ xs) =
    let rest = insert_by_channel c xs in
    if int_leb c.channel x.channel then c ∷ x ∷ xs else x ∷ rest

unfoldable pub sort_by_channel : List IoChannel → List IoChannel
unfolding insert_by_channel
sort_by_channel [] = []
sort_by_channel (c ∷ cs) = insert_by_channel c (sort_by_channel cs)

unfoldable pub all_channels : IoDetails → List IoChannel
all_channels [] = []
all_channels (d ∷ ds) = d.channels ++ all_channels ds

-- `IoDetails::channels`
unfoldable pub channels_in_order : IoDetails → String → List IoChannel
channels_in_order details io_type = sort_by_channel (of_type io_type (all_channels details))

-- An `i64` cut to an `i32`.
abbrev pub as_i32 : ℤ → ℤ
as_i32 (pos n) = let m = n % 2 ^ 32 in if ltb m (2 ^ 31) then pos m else negsuc (2 ^ 32 - m - 1)
as_i32 (negsuc n) = let m = n % 2 ^ 32 in if ltb m (2 ^ 31) then negsuc m else pos (2 ^ 32 - m - 1)

abbrev pub plain_channel : String → ℤ → IoChannel
plain_channel io_type n = record {
  channel = as_i32 n;
  device_channel = as_i32 n;
  io_type = io_type;
  kind = none;
  units = none;
  supports_events = false;
  supports_pulse_counter = false;
  supports_di_config = false;
  supports_pulse_count = false;
  supports_pulse_rate = false;
}

module _ {N : Type 0} (number_i64 : N → Option ℤ) (parse_i64 : String → Option ℤ) where
  -- A channel number: an integer or a text of one.
  abbrev pub entry_number : Value N → Option ℤ
  entry_number (number n) = number_i64 n
  entry_number (string s) = parse_i64 s
  entry_number _ = none

  abbrev pub with_channel : String → Option ℤ → List IoChannel → List IoChannel
  with_channel io_type none rest = rest
  with_channel io_type (some n) rest = plain_channel io_type n ∷ rest

  unfoldable pub table_entries : String → Values N → List IoChannel
  table_entries io_type nil = []
  table_entries io_type (cons v vs) =
      with_channel io_type (entry_number v) (table_entries io_type vs)

  unfoldable pub table_channels : Map N → List IoChannel
  unfolding table_entries
  table_channels end = []
  table_channels (entry io_type (array vs) m) = table_entries io_type vs ++ table_channels m
  table_channels (entry io_type _ m) = table_channels m

  abbrev pub table_of : Value N → List IoChannel
  table_of (object m) = table_channels m
  table_of _ = []

  -- One anonymous master holds every channel of the table.
  unfoldable pub from_io_table : Value N → IoDetails
  unfolding table_channels
  from_io_table table =
      record {
        name = "master";
        type_name = "";
        index = pos 0;
        is_master = true;
        online = true;
        channels = table_of table;
      }
      ∷ []

pub record PlatformEvent : Type 0 where
  pub event_id : ℤ
  pub event : String
  pub pin : ℤ
  pub value : String
  pub time : ℤ
  pub cm4_online : Option Bool

-- `vec![v; n]`
abbrev pub replicate : {A : Type 0} → ℕ → A → List A
replicate zero v = []
replicate (suc n) v = v ∷ replicate n v

-- One value goes to every pin; else there is a value for each pin, or it is an error.
abbrev pub broadcast_one : {A : Type 0} → ℕ → List A → Option (List A)
broadcast_one n (v ∷ []) = some (replicate n v)
broadcast_one n _ = none

unfoldable pub broadcast_values : {A : Type 0} → List ℤ → List A → Option (List A)
broadcast_values pins values =
    if length values == length pins then some values else broadcast_one (length pins) values
