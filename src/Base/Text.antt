-- ===== src/Base/Text.antt =====
-- The text operations of Rust that the program uses: split, replace, trim and the parsing of a `u64`.
use Prim.Native.Char.{Char, code}
use Prim.Native.String
use Prim.Native.String.{count}
use text.Mathlib.Text.{starts_with}
use doover_rs.Base.{
  ℕ, zero, suc, ◌+◌, ◌-◌, ◌*◌, ◌/◌, ◌%◌, ◌^◌, String, Bool, ◌&&◌, ◌||◌, Option, none, some, List,
  [], ◌∷◌, ltb, leb, ◌==◌, if◌then◌else◌,
}

abbrev pub append : String → String → String
append s t = String.◌++◌ s t

abbrev pub is_char : ℕ → Char → Bool
is_char n c = code c == n

-- A character in front of the first piece.
abbrev pub in_front : Char → List String → List String
in_front c [] = String.◌∷◌ c "" ∷ []
in_front c (s ∷ pieces) = String.◌∷◌ c s ∷ pieces

-- `split` at one character, given by its code: there is a piece more than there are such characters.
unfoldable pub split : ℕ → String → List String
split sep String.[] = "" ∷ []
split sep (String.◌∷◌ c s) =
    let pieces = split sep s in if is_char sep c then "" ∷ pieces else in_front c pieces

-- `replace` of a text that is not empty; the number is what is left to skip of a match.
unfoldable pub replace_from : ℕ → String → String → String → String
replace_from skip pattern_text by String.[] = ""
replace_from (suc skip) pattern_text by (String.◌∷◌ c s) = replace_from skip pattern_text by s
replace_from zero pattern_text by (String.◌∷◌ c s) =
    let found = replace_from (count pattern_text - 1) pattern_text by s in
    let kept = replace_from zero pattern_text by s in
    if starts_with (String.◌∷◌ c s) pattern_text then append by found else String.◌∷◌ c kept

unfoldable pub replace : String → String → String → String
unfolding replace_from
replace text pattern_text by = replace_from zero pattern_text by text

-- `char::is_whitespace`: the characters of the Unicode property White_Space.
abbrev pub is_whitespace : Char → Bool
is_whitespace c =
    let n = code c in
    (leb 9 n && leb n 13)
    || (n == 32)
    || (n == 133)
    || (n == 160)
    || (n == 5760)
    || (leb 8192 n && leb n 8202)
    || (n == 8232)
    || (n == 8233)
    || (n == 8239)
    || (n == 8287)
    || (n == 12288)

abbrev pub trim_start : String → String
trim_start String.[] = ""
trim_start (String.◌∷◌ c s) =
    let rest = trim_start s in if is_whitespace c then rest else String.◌∷◌ c s

-- A character in front of a text whose end is trimmed: the text was all white if it is empty now.
abbrev pub keep_front : Char → String → String
keep_front c String.[] = if is_whitespace c then "" else String.◌∷◌ c ""
keep_front c s = String.◌∷◌ c s

abbrev pub trim_end : String → String
trim_end String.[] = ""
trim_end (String.◌∷◌ c s) = keep_front c (trim_end s)

unfoldable pub trim : String → String
trim s = trim_end (trim_start s)

-- The digits of a `u64` after those read; a number past the top is an error.
abbrev pub digits_from : ℕ → String → Option ℕ
digits_from n String.[] = if ltb n (2 ^ 64) then some n else none
digits_from n (String.◌∷◌ c s) =
    let rest = digits_from (n * 10 + (code c - 48)) s in
    if leb 48 (code c) && leb (code c) 57 then rest else none

abbrev pub digits : String → Option ℕ
digits String.[] = none
digits s = digits_from 0 s

-- `str::parse::<u64>`: a plus sign is allowed.
unfoldable pub parse_u64 : String → Option ℕ
parse_u64 String.[] = none
parse_u64 (String.◌∷◌ c s) = if is_char 43 c then digits s else digits (String.◌∷◌ c s)

-- One decimal digit.
abbrev pub digit : ℕ → String
digit n = String.slice "0123456789" n (n + 1)

-- The last digits of a number, at most as many as the fuel.
abbrev pub print_digits : ℕ → ℕ → String
print_digits zero n = ""
print_digits (suc fuel) n =
    let front = print_digits fuel (n / 10) in
    if ltb n 10 then digit n else append front (digit (n % 10))

-- `to_string` of a `u64`, which has at most twenty digits.
abbrev pub print_u64 : ℕ → String
print_u64 n = print_digits 20 n
