-- ===== src/Tags/Paths.antt =====
-- doover/src/tags/mod.rs: a write along a path is read back by that path, and by no other.
use doover_rs.Base.{
  ◌≡◌, ◌≢◌, refl, ap, ◌∙◌, String, Bool, true, false, Option, none, some, List, [], ◌∷◌, arith,
  str_eq, eq_iff, ◌⊎◌, inl, inr, unwrap_or, and_then, if◌then◌else◌,
}
use doover_rs.Json.{Value, Map, null, object, end, entry, get, is_object, at}
use doover_rs.Json.Keys.{IsUnique, get-IsUnique, IsUniqueMap-UniqueKeys, UniqueKeys}
use doover_rs.Diff.{apply_diff}
use doover_rs.Diff.Pointwise.{merge_at, get-apply_diff}
use doover_rs.Tags.{wrap, resolve}

-- The paths part at some segment.
abbrev pub Parts : List String → List String → Type 0
Parts [] q = ⊥
Parts (a ∷ p) [] = ⊥
Parts (a ∷ p) (b ∷ q) = (a ≢ b) ⊎ ((a ≡ b) × Parts p q)

module _ {N : Type 0} where
  get-wrap :
      (k j : String) (v : Value N) → get j (entry k v end) ≡ (if str_eq k j then some v else none)
  get-wrap k j v = unfold get in refl

  pub resolve-wrap : (p : List String) (v : Value N) → resolve p (wrap p v) ≡ some v
  unfolding resolve wrap get
  resolve-wrap [] v = refl
  resolve-wrap (k ∷ p) v = rw ((eq_iff k k).1 refl) (resolve-wrap p v)

  pub resolve-cons :
      (k : String) (p : List String) (root : Value N)
      → resolve (k ∷ p) root ≡ and_then (at root k) (resolve p)
  unfolding resolve
  resolve-cons k p root = refl

  pub wrap-IsUnique : (p : List String) (v : Value N) → IsUnique v → IsUnique (wrap p v)
  unfolding wrap
  wrap-IsUnique [] v u = u
  wrap-IsUnique (k ∷ p) v u = (unfold get in refl, wrap-IsUnique p v u, tt)

  apply_diff_leaf : (root v : Value N) (d : Bool) → is_object v ≡ false → apply_diff root v d ≡ v
  unfolding apply_diff
  apply_diff_leaf root (object m) d h = cc
  apply_diff_leaf root _ d h = refl

  -- The entries of a merge, whatever the old value is.
  at-apply_diff :
      (root : Value N) (fs : Map N) (d : Bool) (k : String)
      → UniqueKeys fs
      → at (apply_diff root (object fs) d) k
        ≡ (if is_object root then merge_at d (at root k) (get k fs) else get k fs)
  at-apply_diff (object m) fs d k u = get-apply_diff m fs d k u
  at-apply_diff null fs d k u = unfold apply_diff in refl
  at-apply_diff _ fs d k u = unfold apply_diff in refl

  null_resolves : (p : List String) (v : Value N) → resolve p null ≡ some v → v ≡ null
  unfolding resolve
  null_resolves [] v e = ground arith
  null_resolves (k ∷ p) v e = cc

  merged_child :
      (d : Bool) (p : List String) (cur : Option (Value N)) (w v : Value N)
      → ((d ≡ false) ⊎ (v ≢ null))
      → ((r : Value N) → resolve p (apply_diff r w d) ≡ some v)
      → resolve p w ≡ some v
      → and_then (merge_at d cur (some w)) (resolve p) ≡ some v
  merged_child d p cur (object gs) v keeps below e = below (unwrap_or cur (object end))
  merged_child d p cur null v (inl keeps) below e = rw (keeps) e
  merged_child d p cur null v (inr keeps) below e = absurd (keeps (null_resolves p v e))
  merged_child d p cur _ v keeps below e = e

  child :
      (d : Bool) (p : List String) (b : Bool) (cur f : Option (Value N)) (v : Value N)
      → ((d ≡ false) ⊎ (v ≢ null))
      → ((w : Value N)
          → f ≡ some w
          → resolve p w ≡ some v
          → (r : Value N) → resolve p (apply_diff r w d) ≡ some v)
      → and_then f (resolve p) ≡ some v
      → and_then (if b then merge_at d cur f else f) (resolve p) ≡ some v
  child d p b cur none v keeps below e = cc
  child d p false cur (some w) v keeps below e = e
  child d p true cur (some w) v keeps below e = merged_child d p cur w v keeps (below w refl e) e

  -- A merge overrides the old value at every path that the diff resolves to a value that is no object, if no key
  -- occurs twice in the diff; a value that is null is overridden by a merge without removals.
  pub resolve-merged :
      (d : Bool) (p : List String) (root diff v : Value N)
      → ((d ≡ false) ⊎ (v ≢ null))
      → IsUnique diff
      → is_object v ≡ false
      → resolve p diff ≡ some v
      → resolve p (apply_diff root diff d) ≡ some v
  resolve-merged d [] root diff v keeps u h e =
      let q : diff ≡ v = unfold resolve in ground arith in
      rw q (unfold resolve in ap some (apply_diff_leaf root v d h))
  resolve-merged d (k ∷ p) root (object fs) v keeps u h e =
      rw (resolve-cons, at-apply_diff root fs d k (IsUniqueMap-UniqueKeys fs u))
        (child d p (is_object root) (at root k) (get k fs) v keeps
          (λ w found ew r. resolve-merged d p r w v keeps (get-IsUnique k fs u found) h ew)
          (rw resolve-cons at e))
  resolve-merged d (k ∷ p) root diff v keeps u h e =
      let q : none ≡ some v = rw resolve-cons at e in cc

  -- A merge without removals overrides the old value at every path that the diff resolves to a
  -- value that is no object, if no key occurs twice in the diff.
  pub resolve-apply_diff :
      (p : List String) (root diff v : Value N)
      → IsUnique diff
      → is_object v ≡ false
      → resolve p diff ≡ some v
      → resolve p (apply_diff root diff false) ≡ some v
  resolve-apply_diff p root diff v = resolve-merged false p root diff v (inl refl)

  -- A merge of nothing changes no path into an object.
  pub resolve-merged_empty :
      (k : String) (p : List String) (root v : Value N) (d : Bool)
      → resolve (k ∷ p) root ≡ some v
      → resolve (k ∷ p) (apply_diff root (object end) d) ≡ some v
  unfolding get
  resolve-merged_empty k p (object m) v d e =
      rw (resolve-cons, at-apply_diff (object m) end d k tt) (rw (resolve-cons) at e)
  resolve-merged_empty k p root v d e = let q : none ≡ some v = rw resolve-cons at e in cc

  resolve-wrap_parted : (p q : List String) (v : Value N) → Parts p q → resolve q (wrap p v) ≡ none
  unfolding resolve wrap get
  resolve-wrap_parted [] q v h = absurd h
  resolve-wrap_parted (a ∷ p) [] v h = absurd h
  resolve-wrap_parted (a ∷ p) (b ∷ q) v (inl ne) = ground (arith, eq_iff a b)
  resolve-wrap_parted (a ∷ p) (b ∷ q) v (inr (same, rest)) =
      rw ((eq_iff a b).1 same) (resolve-wrap_parted p q v rest)

  parted_elsewhere :
      (q : List String) (b : String) (root : Value N) (d : Bool)
      → and_then (if is_object root then merge_at d (at root b) none else none) (resolve q)
        ≡ and_then (at root b) (resolve q)
  parted_elsewhere q b (object m) d = refl
  parted_elsewhere q b _ d = refl

  -- Below a shared segment, for a diff that is an object.
  parted_below :
      (q : List String) (b : String) (gs : Map N) (root : Value N) (d : Bool)
      → resolve q (object gs) ≡ none
      → resolve {N = N} q (object end) ≡ none
      → ((r : Value N) → resolve q (apply_diff r (object gs) d) ≡ resolve q r)
      → and_then
          (if is_object root then merge_at d (at root b) (some (object gs)) else some (object gs))
          (resolve q)
        ≡ and_then (at root b) (resolve q)
  parted_below q b gs (object m) d h₁ h₂ h₃ = at_key (get b m)
    where
      at_key :
          (cur : Option (Value N))
          → and_then (merge_at d cur (some (object gs))) (resolve q) ≡ and_then cur (resolve q)
      at_key none = h₃ (object end) ∙ h₂
      at_key (some c) = h₃ c
  parted_below q b gs null d h₁ h₂ h₃ = h₁
  parted_below q b gs _ d h₁ h₂ h₃ = h₁

  -- A merge of one value along a path changes nothing at a path that parts from it.
  pub resolve-apply_diff-wrap :
      (p q : List String) (root v : Value N) (d : Bool)
      → Parts p q
      → resolve q (apply_diff root (wrap p v) d) ≡ resolve q root
  unfolding wrap
  resolve-apply_diff-wrap [] q root v d h = absurd h
  resolve-apply_diff-wrap (a ∷ p) [] root v d h = absurd h
  resolve-apply_diff-wrap (a ∷ p) (b ∷ q) root v d (inl ne) =
      rw (resolve-cons, at-apply_diff root (entry a (wrap p v) end) d b (unfold get in refl, tt))
        (rw
          (let none_there : get b (entry a (wrap p v) end) ≡ none =
              unfold get in ground (arith, eq_iff a b) in
            none_there)
          (rw resolve-cons (parted_elsewhere q b root d)))
  resolve-apply_diff-wrap (a ∷ []) (b ∷ q) root v d (inr (same, rest)) = absurd rest
  resolve-apply_diff-wrap (a ∷ a' ∷ p) (b ∷ []) root v d (inr (same, rest)) = absurd rest
  resolve-apply_diff-wrap (a ∷ a' ∷ p) (b ∷ b' ∷ q) root v d (inr (same, rest)) =
      rw
        (
          resolve-cons,
          at-apply_diff root (entry a (wrap (a' ∷ p) v) end) d b (unfold get in refl, tt),
        )
        (rw
          (let there : get b (entry a (wrap (a' ∷ p) v) end) ≡ some (wrap (a' ∷ p) v) =
              unfold get in (rw ((eq_iff a b).1 same)) in
            there)
          (rw (resolve-cons b (b' ∷ q) root) (
            parted_below (b' ∷ q) b (entry a' (wrap p v) end) root d
              (resolve-wrap_parted (a' ∷ p) (b' ∷ q) v rest) (unfold resolve get in refl)
              (λ r. resolve-apply_diff-wrap (a' ∷ p) (b' ∷ q) r v d rest))))
