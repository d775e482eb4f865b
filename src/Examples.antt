-- ===== src/Examples.antt =====
-- Small concrete inputs: the theorems of the library at work, one example for each result. Numbers
-- and floats are the naturals here.
pub mod Texts
pub mod Diff
pub mod Tags
pub mod Processor
pub mod Remote
pub mod Cloud
pub mod Device
pub mod Platform
pub mod Invocation
use doover_rs.Base.{
  ℕ, suc, ◌+◌, ◌-◌, ◌*◌, ◌/◌, Bool, true, false, Option, none, some, List, [], ◌∷◌, ◌==◌, leb, ltb,
  String, if◌then◌else◌,
}
use doover_rs.Base.Int.{ℤ, pos, negsuc}
use doover_rs.Json.{Map, number, string, object, end, entry, null}
use doover_rs.Diff.{Numbers, python_json_eq}
use doover_rs.Tags.Triggers.{Floats}
use doover_rs.Tags.Runtime.{World, Request}

abbrev int_to_nat : ℤ → ℕ
int_to_nat (pos n) = n
int_to_nat (negsuc n) = 0

abbrev pub nats : Numbers
nats = record {
  Number = ℕ;
  F64 = ℕ;
  as_i64 = λ n. some (pos n);
  as_u64 = λ n. some n;
  as_f64 = λ n. some n;
  f64_eq = λ a b. a == b;
  of_int = int_to_nat;
}

abbrev pub floats : Floats
floats = record {
  numbers = nats;
  zero = 0;
  two = 2;
  hundred = 100;
  add = λ a b. a + b;
  sub = λ a b. a - b;
  mul = λ a b. a * b;
  div = λ a b. a / b;
  abs = λ a. a;
  ge = λ a b. leb b a;
  lt = λ a b. ltb a b;
  value_eq = λ a b. python_json_eq nats a b;
}

-- A device that answers every request with the given Boolean, and that nobody else uses.
abbrev pub world : Bool → World floats
world fine = record {
  answer = λ sent r. fine;
  meanwhile = λ sent st. st;
  now_unix_ms = λ sent. 0;
  now_instant = λ sent. 0;
  fresh_ms = 60000;
  app_key = "app";
  log_interval = 1000;
}

-- {"level": 1, "pump": {"on": 2}}
abbrev pub old_map : Map ℕ
old_map = entry "level" (number 1) (entry "pump" (object (entry "on" (number 2) end)) end)

-- {"pump": {"on": 3}}
abbrev pub new_map : Map ℕ
new_map = entry "pump" (object (entry "on" (number 3) end)) end
