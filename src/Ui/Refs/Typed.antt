-- ===== src/Ui/Refs/Typed.antt =====
-- doover/src/ui/runtime.rs, `resolve_config_refs`: what a reference `KEY[:type[:default]]` becomes.
use text.Mathlib.TextLemmas.{nil-append, cons-append, append-nil}
use doover_rs.Base.{
  ◌≡◌, ◌≢◌, refl, ap, ◌∙◌, String, Bool, true, false, Option, none, some, str_eq, eq_iff,
  Bool-cases, inl, inr,
}
use doover_rs.Base.Text.{append}
use doover_rs.Json.{Value, null, bool, number, string, array, object, at}
use doover_rs.Ui.Refs.{
  as_number, reference_to, strip_prefix, contains, split_word, in_front_of, after_key, after_hint,
  with_hint, parse_reference, Coercions, coerce, raw_value, resolve_single_ref, resolve_config_refs,
}
use doover_rs.Ui.Refs.Resolved.{
  marker, IsWord, strip_prefix-append, contains-append, split_word-IsWord,
}

-- What follows a key: nothing, a type, or a type and a default.
pub data Suffix : Type 0 where
  bare : Suffix
  typed : String → Suffix
  or_else : String → String → Suffix

abbrev pub suffix_text : Suffix → String
suffix_text bare = ""
suffix_text (typed hint) = append ":" hint
suffix_text (or_else hint d) = append ":" (append hint (append ":" d))

abbrev pub hint_of : Suffix → Option String
hint_of bare = none
hint_of (typed hint) = some hint
hint_of (or_else hint d) = some hint

abbrev pub default_of : Suffix → Option String
default_of bare = none
default_of (typed hint) = none
default_of (or_else hint d) = some d

-- A type is a word and a default is not empty.
abbrev pub IsSuffix : Suffix → Type 0
IsSuffix bare = Unit
IsSuffix (typed hint) = IsWord hint × (hint ≢ "")
IsSuffix (or_else hint d) = IsWord hint × (hint ≢ "") × (d ≢ "")

after_key-end : (k : String) → k ≢ "" → after_key (k, "") ≡ reference_to k none none
after_key-end String.[] h = absurd (h refl)
after_key-end (String.◌∷◌ c k) h = refl

colon-append : (t : String) → append ":" t ≡ String.◌∷◌ ":" t
colon-append t = cons-append ":" "" t ∙ ap (String.◌∷◌ ":") (nil-append t)

-- A word ends at a colon.
split_word-colon :
    (k t : String) → IsWord k → split_word (append k (append ":" t)) ≡ (k, append ":" t)
unfolding split_word
split_word-colon String.[] t h = rw (nil-append (append ":" t), colon-append t) refl
split_word-colon (String.◌∷◌ c k) t h =
    rw (cons-append c k (append ":" t), h.0) (ap (in_front_of c) (split_word-colon k t h.1))

after_key-colon : (k t : String) → k ≢ "" → after_key (k, append ":" t) ≡ with_hint k (some t)
unfolding strip_prefix
after_key-colon String.[] t h = absurd (h refl)
after_key-colon (String.◌∷◌ c k) t h = rw (colon-append t) refl

after_hint-end :
    (k hint : String) → hint ≢ "" → after_hint k (hint, "") ≡ reference_to k (some hint) none
after_hint-end k String.[] h = absurd (h refl)
after_hint-end k (String.◌∷◌ c hint) h = refl

after_hint-colon :
    (k hint d : String)
    → hint ≢ ""
    → d ≢ ""
    → after_hint k (hint, append ":" d) ≡ reference_to k (some hint) (some d)
unfolding strip_prefix
after_hint-colon k String.[] d h n = absurd (h refl)
after_hint-colon k (String.◌∷◌ c hint) String.[] h n = absurd (n refl)
after_hint-colon k (String.◌∷◌ c hint) (String.◌∷◌ b d) h n =
    rw (colon-append (String.◌∷◌ b d)) refl

-- A reference is read back as it was written.
pub parse_reference-suffix :
    (k : String) (s : Suffix)
    → IsWord k
    → k ≢ ""
    → IsSuffix s
    → parse_reference (append marker (append k (suffix_text s)))
      ≡ reference_to k (hint_of s) (default_of s)
unfolding parse_reference
parse_reference-suffix k bare w h ok =
    rw (append-nil k, strip_prefix-append marker k, split_word-IsWord k w) (after_key-end k h)
parse_reference-suffix k (typed hint) w h (word, some_hint) =
    rw
      (
        strip_prefix-append marker (append k (append ":" hint)),
        split_word-colon k hint w,
        after_key-colon k hint h,
        split_word-IsWord hint word,
      )
      (after_hint-end k hint some_hint)
parse_reference-suffix k (or_else hint d) w h (word, some_hint, some_default) =
    let tail = append hint (append ":" d) in
    rw
      (
        strip_prefix-append marker (append k (append ":" tail)),
        split_word-colon k tail w,
        after_key-colon k tail h,
        split_word-colon hint d word,
      )
      (after_hint-colon k hint d some_hint some_default)

differs : (s t : String) → s ≢ t → str_eq s t ≡ false
differs s t h = elim (Bool-cases (str_eq s t)) [
  | inl same ↦ absurd (h ((eq_iff s t).0 same))
  | inr other ↦ other
]

module _ {N : Type 0} (𝓒 : Coercions N) where
  -- What a value becomes by a type: a Boolean stays one, and a text is one by its lower case; a number stays one,
  -- and a text is a number when it reads as one, with a point or without; a text is itself, and a Boolean is printed
  -- as Python does.
  pub data IsTyped : Option String → Value N → Value N → Type 0 where
    untyped : (v : Value N) → IsTyped none v v
    other_type :
        (hint : String) (v : Value N)
        → hint ≢ "boolean"
        → hint ≢ "number"
        → hint ≢ "string"
        → IsTyped (some hint) v v
    boolean_kept : (b : Bool) → IsTyped (some "boolean") (bool b) (bool b)
    boolean_true :
        (s : String) → 𝓒.lower s ≡ "true" → IsTyped (some "boolean") (string s) (bool true)
    boolean_one : (s : String) → 𝓒.lower s ≡ "1" → IsTyped (some "boolean") (string s) (bool true)
    boolean_yes : (s : String) → 𝓒.lower s ≡ "yes" → IsTyped (some "boolean") (string s) (bool true)
    boolean_false :
        (s : String)
        → 𝓒.lower s ≢ "true"
        → 𝓒.lower s ≢ "1"
        → 𝓒.lower s ≢ "yes"
        → IsTyped (some "boolean") (string s) (bool false)
    number_kept : (n : N) → IsTyped (some "number") (number n) (number n)
    number_float :
        (s : String) (n : N)
        → contains "." s ≡ true
        → 𝓒.parse_float s ≡ some n
        → IsTyped (some "number") (string s) (number n)
    number_int :
        (s : String) (n : N)
        → contains "." s ≡ false
        → 𝓒.parse_int s ≡ some n
        → IsTyped (some "number") (string s) (number n)
    number_unread :
        (s : String)
        → 𝓒.parse_float s ≡ none
        → 𝓒.parse_int s ≡ none
        → IsTyped (some "number") (string s) (string s)
    string_kept : (s : String) → IsTyped (some "string") (string s) (string s)
    string_true : IsTyped (some "string") (bool true) (string "True")
    string_number : (n : N) → IsTyped (some "string") (number n) (string (𝓒.print (number n)))
    string_false : IsTyped (some "string") (bool false) (string "False")

  coerce-IsTyped : (h : Option String) (v r : Value N) → IsTyped h v r → coerce 𝓒 h v ≡ r
  unfolding coerce as_number
  coerce-IsTyped _ _ _ (untyped v) = refl
  coerce-IsTyped _ _ _ (other_type hint v b n s) =
      rw (differs hint "boolean" b, differs hint "number" n, differs hint "string" s) refl
  coerce-IsTyped _ _ _ (boolean_kept b) = refl
  coerce-IsTyped _ _ _ (boolean_true s e) = rw (e) refl
  coerce-IsTyped _ _ _ (boolean_one s e) = rw (e) refl
  coerce-IsTyped _ _ _ (boolean_yes s e) = rw (e) refl
  coerce-IsTyped _ _ _ (boolean_false s t o y) =
      rw (differs (𝓒.lower s) "true" t, differs (𝓒.lower s) "1" o, differs (𝓒.lower s) "yes" y) refl
  coerce-IsTyped _ _ _ (number_kept n) = refl
  coerce-IsTyped _ _ _ (number_float s n p e) = rw (p, e) refl
  coerce-IsTyped _ _ _ (number_int s n p e) = rw (p, e) refl
  coerce-IsTyped _ _ _ (number_unread s f i) = elim (Bool-cases (contains "." s)) [
    | inl p ↦ rw (p, f) refl
    | inr p ↦ rw (p, i) refl
  ]
  coerce-IsTyped _ _ _ (string_kept s) = refl
  coerce-IsTyped _ _ _ string_true = refl
  coerce-IsTyped _ _ _ (string_number n) = refl
  coerce-IsTyped _ _ _ string_false = refl

  -- The value that a reference stands for: the configured one, or its default where that is null or missing.
  pub data IsMeant (config : Value N) (k : String) : Option String → Value N → Type 0 where
    configured :
        (d : Option String) (v : Value N) → at config k ≡ some v → v ≢ null → IsMeant config k d v
    missing : (d : String) → at config k ≡ none → IsMeant config k (some d) (string d)
    nulled : (d : String) → at config k ≡ some null → IsMeant config k (some d) (string d)

  raw_value-configured :
      (d : Option String) (v : Value N) → v ≢ null → raw_value 𝓒 (some v) d ≡ some v
  raw_value-configured d null h = absurd (h refl)
  raw_value-configured d (bool b) h = refl
  raw_value-configured d (number n) h = refl
  raw_value-configured d (string s) h = refl
  raw_value-configured d (array vs) h = refl
  raw_value-configured d (object m) h = refl

  raw_value-IsMeant :
      (config : Value N) (k : String) (d : Option String) (v : Value N)
      → IsMeant config k d v
      → raw_value 𝓒 (at config k) d ≡ some v
  raw_value-IsMeant config k _ _ (configured d v e h) = rw (e) (raw_value-configured d v h)
  raw_value-IsMeant config k _ _ (missing d e) = rw (e) refl
  raw_value-IsMeant config k _ _ (nulled d e) = rw (e) refl

  -- A text that is a reference to a key, with nothing after it, with a type, or with a type and a default, becomes
  -- the value that it means, made into its type: the configured value if that is not null, or else the default.
  -- The key and the type are words, and the value is one for which `IsTyped` gives what the type makes of it.
  pub resolve_config_refs-IsTyped :
      (config : Value N) (k : String) (s : Suffix) (v r : Value N)
      → IsWord k
      → k ≢ ""
      → IsSuffix s
      → IsMeant config k (default_of s) v
      → IsTyped (hint_of s) v r
      → resolve_config_refs 𝓒 config (string (append marker (append k (suffix_text s)))) ≡ r
  unfolding resolve_config_refs resolve_single_ref
  resolve_config_refs-IsTyped config k s v r word nonempty ok meant made =
      rw
        (
          contains-append marker (append k (suffix_text s)),
          parse_reference-suffix k s word nonempty ok,
          raw_value-IsMeant config k (default_of s) v meant,
        )
        (coerce-IsTyped (hint_of s) v r made)
