-- ===== src/Ui/Refs/Resolved.antt =====
-- doover/src/ui/runtime.rs, `resolve_config_refs`: what it leaves alone, and where a reference begins.
use Prim.Native.Char.{code}
use text.Mathlib.TextLemmas.{nil-append, cons-append}
use doover_rs.Base.{◌≡◌, refl, ap, String, true, false, some, arith}
use doover_rs.Base.Text.{is_char, append}
use doover_rs.Json.{
  Value, Values, Map, null, bool, number, string, array, object, nil, cons, end, entry,
}
use doover_rs.Ui.Refs.{
  strip_prefix, contains, is_word, split_word, in_front_of, Coercions, resolve_config_refs,
  resolve_values, resolve_map,
}

abbrev pub marker : String
marker = "$config.app()."

module _ {N : Type 0} where
  -- No text in the value has the marker.
  abbrev mutual
    pub IsPlain : Value N → Type 0
    IsPlain (object m) = ArePlainEntries m
    IsPlain (array vs) = ArePlain vs
    IsPlain (string s) = contains marker s ≡ false
    IsPlain null = Unit
    IsPlain (bool b) = Unit
    IsPlain (number n) = Unit

    pub ArePlain : Values N → Type 0
    ArePlain nil = Unit
    ArePlain (cons v vs) = IsPlain v × ArePlain vs

    pub ArePlainEntries : Map N → Type 0
    ArePlainEntries end = Unit
    ArePlainEntries (entry k v m) = IsPlain v × ArePlainEntries m

  module _ (𝓒 : Coercions N) (config : Value N) where
    mutual
      unfolding resolve_config_refs resolve_values resolve_map

      plain_value : (v : Value N) → IsPlain v → resolve_config_refs 𝓒 config v ≡ v
      plain_value (object m) h = ap object (plain_map m h)
      plain_value (array vs) h = ap array (plain_values vs h)
      plain_value (string s) h = rw (h) refl
      plain_value null h = refl
      plain_value (bool b) h = refl
      plain_value (number n) h = refl

      plain_values : (vs : Values N) → ArePlain vs → resolve_values 𝓒 config vs ≡ vs
      plain_values nil h = refl
      plain_values (cons v vs) h = λ i. cons (plain_value v h.0 i) (plain_values vs h.1 i)

      plain_map : (m : Map N) → ArePlainEntries m → resolve_map 𝓒 config m ≡ m
      plain_map end h = refl
      plain_map (entry k v m) h = λ i. entry k (plain_value v h.0 i) (plain_map m h.1 i)

contains_start : (p s t : String) → strip_prefix p s ≡ some t → contains p s ≡ true
unfolding contains
contains_start p String.[] t h = rw (h) refl
contains_start p (String.◌∷◌ c s) t h = rw (h) refl

pub strip_prefix-append : (p s : String) → strip_prefix p (append p s) ≡ some s
unfolding strip_prefix
strip_prefix-append String.[] s = ap some (nil-append s)
strip_prefix-append (String.◌∷◌ c p) s =
    let same : is_char (code c) c ≡ true = ground arith in
    rw (cons-append c p s, same) (strip_prefix-append p s)

pub contains-append : (p s : String) → contains p (append p s) ≡ true
unfolding contains
contains-append p s = contains_start p (append p s) s (strip_prefix-append p s)

-- A text of letters, digits and underscores.
abbrev pub IsWord : String → Type 0
IsWord String.[] = Unit
IsWord (String.◌∷◌ c s) = (is_word c ≡ true) × IsWord s

pub split_word-IsWord : (s : String) → IsWord s → split_word s ≡ (s, "")
unfolding split_word
split_word-IsWord String.[] h = refl
split_word-IsWord (String.◌∷◌ c s) h = rw (h.0) (ap (in_front_of c) (split_word-IsWord s h.1))

module _ {N : Type 0} (𝓒 : Coercions N) where
  -- A value in whose texts the marker does not occur is left as it is.
  pub resolve_config_refs-plain :
      (config v : Value N) → IsPlain v → resolve_config_refs 𝓒 config v ≡ v
  resolve_config_refs-plain config v h = plain_value 𝓒 config v h
