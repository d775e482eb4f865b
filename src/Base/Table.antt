-- ===== src/Base/Table.antt =====
-- `HashMap` as the components use it: an association list with one entry per key, newest first.
use doover_rs.Base.{
  ◌≡◌, refl, Bool, true, false, Option, none, some, List, [], ◌∷◌, inl, inr, Bool-cases,
  if◌then◌else◌,
}

abbrev pub Table {ℓ κ} : Type ℓ → Type κ → Type (ℓ ⊔ κ)
Table K V = List (K × V)

module _ {ℓ κ} {K : Type ℓ} {V : Type κ} (eq : K → K → Bool) where
  unfoldable pub find : K → Table K V → Option V
  find k [] = none
  find k ((j, v) ∷ t) = let rest = find k t in if eq j k then some v else rest

  -- `HashMap::remove`.
  unfoldable pub drop : K → Table K V → Table K V
  drop k [] = []
  drop k ((j, v) ∷ t) = let rest = drop k t in if eq j k then rest else (j, v) ∷ rest

  -- `HashMap::insert`.
  abbrev pub put : K → V → Table K V → Table K V
  put k v t = (k, v) ∷ drop k t

  pub find-drop : (k : K) (t : Table K V) → find k (drop k t) ≡ none
  unfolding find drop
  find-drop k [] = refl
  find-drop k ((j, v) ∷ t) = elim (Bool-cases (eq j k)) [
    | inl e ↦ rw (e) (find-drop k t)
    | inr e ↦ rw (e, e) (find-drop k t)
  ]

  pub find-drop_other :
      (k l : K) (t : Table K V)
      → ((j : K) → eq j k ≡ true → eq j l ≡ false)
      → find l (drop k t) ≡ find l t
  unfolding find drop
  find-drop_other k l [] apart = refl
  find-drop_other k l ((j, v) ∷ t) apart = elim (Bool-cases (eq j k)) [
    | inl e ↦ rw (e, apart j e) (find-drop_other k l t apart)
    | inr e ↦ rw (e, find-drop_other k l t apart) refl
  ]
