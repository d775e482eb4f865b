-- ===== src/Ui/Refs.antt =====
-- doover/src/ui/runtime.rs, `resolve_config_refs`: the references to the app's configuration in a schema. How
-- numbers and whole values print and parse is a parameter; a text is lowered character by character.
pub mod Resolved
pub mod Typed
use Prim.Native.Char.{Char, code}
use Prim.Native.String
use doover_rs.Base.{
  ℕ, ◌≡◌, refl, ap, ◌∙◌, String, Bool, true, false, not, ◌&&◌, ◌||◌, Option, none, some, List, [],
  ◌∷◌, str_eq, leb, ◌==◌, unwrap_or, and_then, Bool-cases, inl, inr, if◌then◌else◌,
}
use doover_rs.Base.Text.{is_char, append}
use doover_rs.Json.{
  Value, Values, Map, null, bool, number, string, array, object, nil, cons, end, entry, at,
}

-- `strip_prefix`
unfoldable pub strip_prefix : String → String → Option String
strip_prefix String.[] s = some s
strip_prefix (String.◌∷◌ c p) String.[] = none
strip_prefix (String.◌∷◌ c p) (String.◌∷◌ d s) =
    let rest = strip_prefix p s in if is_char (code c) d then rest else none

abbrev pub is_found : Option String → Bool
is_found none = false
is_found (some _) = true

-- `contains`
unfoldable pub contains : String → String → Bool
unfolding strip_prefix
contains p String.[] = is_found (strip_prefix p "")
contains p (String.◌∷◌ c s) = is_found (strip_prefix p (String.◌∷◌ c s)) || contains p s

-- `is_ascii_alphanumeric`, or an underscore.
abbrev pub is_word : Char → Bool
is_word c =
    let n = code c in
    (leb 48 n && leb n 57) || (leb 65 n && leb n 90) || (leb 97 n && leb n 122) || (n == 95)

abbrev pub in_front_of : Char → String × String → String × String
in_front_of c (word, rest) = (String.◌∷◌ c word, rest)

-- The longest word at the start, and the rest.
unfoldable pub split_word : String → String × String
split_word String.[] = ("", "")
split_word (String.◌∷◌ c s) =
    let rest = in_front_of c (split_word s) in if is_word c then rest else ("", String.◌∷◌ c s)

-- A reference: its key, its type hint and its default.
pub record Reference : Type 0 where
  pub key : String
  pub type_hint : Option String
  pub default : Option String

abbrev pub reference_to : String → Option String → Option String → Option Reference
reference_to key hint default = some (record { key = key; type_hint = hint; default = default })

-- After the type hint: nothing, or a default that is not empty.
abbrev pub with_default : String → String → Option String → Option Reference
with_default key hint none = none
with_default key hint (some String.[]) = none
with_default key hint (some (String.◌∷◌ c d)) = reference_to key (some hint) (some (String.◌∷◌ c d))

abbrev pub after_hint : String → String × String → Option Reference
after_hint key (String.[], rest) = none
after_hint key (String.◌∷◌ c hint, String.[]) = reference_to key (some (String.◌∷◌ c hint)) none
after_hint key (String.◌∷◌ c hint, String.◌∷◌ d rest) =
    with_default key (String.◌∷◌ c hint) (strip_prefix ":" (String.◌∷◌ d rest))

abbrev pub with_hint : String → Option String → Option Reference
with_hint key none = none
with_hint key (some t) = after_hint key (split_word t)

abbrev pub after_key : String × String → Option Reference
after_key (String.[], tail) = none
after_key (String.◌∷◌ c key, String.[]) = reference_to (String.◌∷◌ c key) none none
after_key (String.◌∷◌ c key, String.◌∷◌ d tail) =
    with_hint (String.◌∷◌ c key) (strip_prefix ":" (String.◌∷◌ d tail))

unfoldable pub parse_reference : String → Option Reference
unfolding strip_prefix split_word
parse_reference s = and_then (strip_prefix "$config.app()." s) (λ rest. after_key (split_word rest))

-- How numbers are read and values printed: `parse_float` gives no number for what is not finite, and `lower` is
-- `to_lowercase`.
pub record Coercions (N : Type 0) : Type 0 where
  pub print : Value N → String
  pub lower : String → String
  pub parse_float : String → Option N
  pub parse_int : String → Option N

module _ {N : Type 0} (𝓒 : Coercions N) where
  abbrev pub python_string_of : Value N → String
  python_string_of (string s) = s
  python_string_of (bool true) = "True"
  python_string_of (bool false) = "False"
  python_string_of null = "None"
  python_string_of v = 𝓒.print v

  abbrev pub is_true_text : String → Bool
  is_true_text s = str_eq s "true" || str_eq s "1" || str_eq s "yes"

  abbrev pub as_boolean : Value N → Value N
  as_boolean (bool b) = bool b
  as_boolean v = bool (is_true_text (𝓒.lower (python_string_of v)))

  abbrev pub number_or : Value N → Option N → Value N
  number_or raw none = raw
  number_or raw (some n) = number n

  unfoldable pub as_number : Value N → Value N
  unfolding contains
  as_number (number n) = number n
  as_number v =
      let s = python_string_of v in
      if contains "." s then number_or v (𝓒.parse_float s) else number_or v (𝓒.parse_int s)

  -- By the type hint; an unknown one changes nothing.
  unfoldable pub coerce : Option String → Value N → Value N
  unfolding as_number
  coerce none raw = raw
  coerce (some hint) raw =
      if str_eq hint "boolean"
      then as_boolean raw
      else if str_eq hint "number"
      then as_number raw
      else if str_eq hint "string"
      then string (python_string_of raw)
      else raw

  -- The configured value that is not null, or else the default, or else null.
  abbrev pub default_value : Option String → Option (Value N)
  default_value none = none
  default_value (some d) = some (string d)

  abbrev pub raw_value : Option (Value N) → Option String → Option (Value N)
  raw_value none default = default_value default
  raw_value (some null) default = default_value default
  raw_value (some v) default = some v

  abbrev pub coerced : Option String → Option (Value N) → Value N
  coerced hint none = null
  coerced hint (some raw) = coerce hint raw

  abbrev pub resolve_reference : String → Value N → Option Reference → Value N
  resolve_reference s config none = string s
  resolve_reference s config (some r) = coerced r.type_hint (raw_value (at config r.key) r.default)

  unfoldable pub resolve_single_ref : String → Value N → Value N
  unfolding parse_reference coerce
  resolve_single_ref s config = resolve_reference s config (parse_reference s)

  unfoldable mutual
    unfolding resolve_single_ref contains

    pub resolve_config_refs : Value N → Value N → Value N
    resolve_config_refs config (object m) = object (resolve_map config m)
    resolve_config_refs config (array vs) = array (resolve_values config vs)
    resolve_config_refs config (string s) =
        if contains "$config.app()." s then resolve_single_ref s config else string s
    resolve_config_refs config null = null
    resolve_config_refs config (bool b) = bool b
    resolve_config_refs config (number n) = number n

    pub resolve_values : Value N → Values N → Values N
    resolve_values config nil = nil
    resolve_values config (cons v vs) =
        cons (resolve_config_refs config v) (resolve_values config vs)

    pub resolve_map : Value N → Map N → Map N
    resolve_map config end = end
    resolve_map config (entry k v m) = entry k (resolve_config_refs config v) (resolve_map config m)
