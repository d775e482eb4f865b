-- ===== src/Tags/Strip.antt =====
-- doover/src/tags/mod.rs, `strip_paths`: it removes a path, and no path that parts from it.
use doover_rs.Base.{
  ◌≡◌, refl, ◌∙◌, sym, String, Bool, true, false, Option, none, some, List, [], ◌∷◌, arith, str_eq,
  eq_iff, Bool-cases, inl, inr, and_then, if◌then◌else◌,
}
use doover_rs.Json.{
  Value, Map, null, object, end, entry, get, is_object, is_empty, at, insert, remove, get-insert,
  get-remove,
}
use doover_rs.Tags.{wrap, resolve, strip_paths, strip_entries, strip_nested, strip_leaf}
use doover_rs.Tags.Paths.{Parts, resolve-cons}

module _ {N : Type 0} where
  -- What is left at the key of a stripped object.
  abbrev left_of : (Map N → Map N) → Option (Value N) → Option (Value N)
  left_of f (some (object c)) = if is_empty (f c) then none else some (object (f c))
  left_of f _ = none

  get-strip_nested :
      (f : Map N → Map N) (k j : String) (m : Map N) (cur : Option (Value N))
      → get k m ≡ cur
      → get j (strip_nested f k cur m) ≡ (if str_eq k j then left_of f cur else get j m)
  get-strip_nested f k j m none e = ground (arith, eq_iff k j)
  get-strip_nested f k j m (some (object c)) e = emptied (is_empty (f c))
    where
      emptied :
          (b : Bool)
          → get j (if b then remove k m else insert k (object (f c)) m)
            ≡ (if str_eq k j then (if b then none else some (object (f c))) else get j m)
      emptied true = get-remove k j m
      emptied false = get-insert k j (object (f c)) m
  get-strip_nested f k j m (some null) e = get-remove k j m
  get-strip_nested f k j m (some _) e = get-remove k j m

  get-strip_leaf :
      (k j : String) (m : Map N) (cur : Option (Value N))
      → get k m ≡ cur
      → get j (strip_leaf k cur m) ≡ (if str_eq k j then none else get j m)
  get-strip_leaf k j m none e = ground (arith, eq_iff k j)
  get-strip_leaf k j m (some v) e = get-remove k j m

  -- Stripping one entry.
  abbrev stripped : Value N → Option (Value N) → Option (Value N)
  stripped (object ps) cur = left_of (λ c. strip_entries c ps) cur
  stripped v cur = none

  at-strip_paths :
      (m : Map N) (k j : String) (w : Value N)
      → at (strip_paths (object m) (object (entry k w end))) j
        ≡ (if str_eq k j then stripped w (get k m) else get j m)
  unfolding strip_paths strip_entries
  at-strip_paths m k j (object ps) = get-strip_nested (λ c. strip_entries c ps) k j m (get k m) refl
  at-strip_paths m k j null = get-strip_leaf k j m (get k m) refl
  at-strip_paths m k j _ = get-strip_leaf k j m (get k m) refl

  strip_object : (c ps : Map N) → strip_paths (object c) (object ps) ≡ object (strip_entries c ps)
  unfolding strip_paths
  strip_object c ps = refl

  left_removed :
      (p : List String) (f : Map N → Map N) (cur : Option (Value N))
      → ((c : Map N) → resolve p (object (f c)) ≡ none)
      → and_then (left_of f cur) (resolve p) ≡ none
  left_removed p f none h = refl
  left_removed p f (some (object c)) h = emptied (is_empty (f c))
    where
      emptied : (b : Bool) → and_then (if b then none else some (object (f c))) (resolve p) ≡ none
      emptied true = refl
      emptied false = h c
  left_removed p f (some _) h = refl

  stripped_leaf :
      (v : Value N) (cur : Option (Value N)) → is_object v ≡ false → stripped v cur ≡ none
  stripped_leaf (object m) cur h = cc
  stripped_leaf _ cur h = refl

  -- After stripping a path that ends in a value that is no object, the path is gone, whatever the
  -- target held.
  pub resolve-strip_paths :
      (a : String) (p : List String) (t v : Value N)
      → is_object v ≡ false
      → resolve (a ∷ p) (strip_paths t (wrap (a ∷ p) v)) ≡ none
  unfolding wrap
  resolve-strip_paths a [] (object m) v h =
      rw (resolve-cons, at-strip_paths m a a v)
        (rw ((eq_iff a a).1 refl, stripped_leaf v (get a m) h) refl)
  resolve-strip_paths a (b ∷ p) (object m) v h =
      rw (resolve-cons, at-strip_paths m a a (wrap (b ∷ p) v))
        (rw ((eq_iff a a).1 refl) (
          left_removed (b ∷ p) (λ c. strip_entries c (entry b (wrap p v) end)) (get a m)
            (λ c. rw strip_object at (resolve-strip_paths b p (object c) v h))))
  resolve-strip_paths a p null v h = unfold resolve strip_paths in refl
  resolve-strip_paths a p _ v h = unfold resolve strip_paths in refl

  empty_resolves :
      (q : List String) (b : String) (m : Map N)
      → is_empty m ≡ true
      → resolve (b ∷ q) (object m) ≡ none
  unfolding resolve get
  empty_resolves q b end h = refl
  empty_resolves q b (entry k v m) h = cc

  left_kept :
      (q : List String) (b : String) (f : Map N → Map N) (cur : Option (Value N))
      → ((c : Map N) → resolve (b ∷ q) (object (f c)) ≡ resolve (b ∷ q) (object c))
      → and_then (left_of f cur) (resolve (b ∷ q)) ≡ and_then cur (resolve (b ∷ q))
  left_kept q b f none h = refl
  left_kept q b f (some (object c)) h = elim (Bool-cases (is_empty (f c))) [
    | inl gone ↦ rw gone (sym (empty_resolves q b (f c) gone) ∙ h c)
    | inr left ↦ rw left (h c)
  ]
  left_kept q b f (some null) h = unfold resolve in refl
  left_kept q b f (some _) h = unfold resolve in refl

  -- Stripping a path changes nothing at a path that parts from it.
  pub resolve-strip_paths_parted :
      (p q : List String) (t v : Value N)
      → Parts p q
      → resolve q (strip_paths t (wrap p v)) ≡ resolve q t
  unfolding wrap
  resolve-strip_paths_parted [] q t v h = absurd h
  resolve-strip_paths_parted (a ∷ p) [] t v h = absurd h
  resolve-strip_paths_parted (a ∷ p) (b ∷ q) (object m) v (inl ne) =
      rw
        (
          resolve-cons b q (strip_paths (object m) (object (entry a (wrap p v) end))),
          at-strip_paths m a b (wrap p v),
        )
        (rw (resolve-cons b q (object m))
          (let apart : str_eq a b ≡ false = ground (arith, eq_iff a b) in rw apart))
  resolve-strip_paths_parted (a ∷ []) (b ∷ q) (object m) v (inr (same, rest)) = absurd rest
  resolve-strip_paths_parted (a ∷ a' ∷ p) (b ∷ []) (object m) v (inr (same, rest)) = absurd rest
  resolve-strip_paths_parted (a ∷ a' ∷ p) (b ∷ b' ∷ q) (object m) v (inr (same, rest)) =
      rw
        (
          resolve-cons b (b' ∷ q) (strip_paths (object m) (object (entry a (wrap (a' ∷ p) v) end))),
          at-strip_paths m a b (wrap (a' ∷ p) v),
        )
        (rw (resolve-cons b (b' ∷ q) (object m), (eq_iff a b).1 same, same)
          (left_kept q b' (λ c. strip_entries c (entry a' (wrap p v) end)) (get b m)
            (λ c.
              rw strip_object at (resolve-strip_paths_parted (a' ∷ p) (b' ∷ q) (object c) v rest))))
  resolve-strip_paths_parted (a ∷ p) (b ∷ q) _ v h = unfold strip_paths in refl
