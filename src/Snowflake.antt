-- ===== src/Snowflake.antt =====
-- doover/src/utils/snowflake.rs: the identifiers, `u64` with the wrap-around written out.
use doover_rs.Base.{ℕ, ◌+◌, ◌-◌, ◌*◌, ◌/◌, ◌%◌, ◌^◌, Option, none, some, ltb, if◌then◌else◌}
use Prim.Native.Nat.{bit_and, bit_or}

-- The doover epoch in unix milliseconds.
abbrev pub doover_epoch : ℕ
doover_epoch = 1735689600000

pub data SnowflakeType : Type 0 where
  unknown agent message channel wss_session processor_schedule : SnowflakeType
  token notification_endpoint notification_subscription : SnowflakeType
  attachment alarm one_shot_message : SnowflakeType

abbrev pub type_id : SnowflakeType → ℕ
type_id unknown = 0
type_id agent = 1
type_id message = 2
type_id channel = 3
type_id wss_session = 4
type_id processor_schedule = 5
type_id token = 6
type_id notification_endpoint = 7
type_id notification_subscription = 8
type_id attachment = 9
type_id alarm = 10
type_id one_shot_message = 11

-- A shift left of a `u64` drops what passes its top.
abbrev pub shl : ℕ → ℕ → ℕ
shl n k = (n * 2 ^ k) % 2 ^ 64

abbrev pub next_rand : ℕ → ℕ
next_rand sequence = bit_and sequence 15

abbrev pub assemble : ℕ → SnowflakeType → ℕ → ℕ → ℕ → ℕ
assemble millis kind region_id instance_id rand =
    bit_or
      (bit_or
        (bit_or (bit_or (shl millis 22) (shl (bit_and region_id 15) 18))
          (shl (bit_and instance_id 1023) 8))
        (shl (type_id kind) 4))
      rand

-- A time before the epoch panics in a checked build: `none`.
abbrev pub generate_snowflake_id_at : ℕ → SnowflakeType → ℕ → ℕ → Option ℕ → Option ℕ
generate_snowflake_id_at unix_millis kind region_id instance_id sequence =
    if ltb unix_millis doover_epoch
    then none
    else some (
        assemble (unix_millis - doover_epoch) kind region_id instance_id
          (elim sequence [ none ↦ 0 | some s ↦ next_rand s ]))

abbrev pub unix_millis_from_snowflake : ℕ → ℕ
unix_millis_from_snowflake snowflake_id = snowflake_id / 2 ^ 22 + doover_epoch
