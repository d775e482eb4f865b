-- ===== src/Examples/Texts.antt =====
-- Examples of the text operations.
use doover_rs.Base.{◌≡◌, refl, some, none, [], ◌∷◌}
use doover_rs.Base.Text.{print_u64, replace, split, trim, parse_u64}

print_u64_test : print_u64 1735689600000 ≡ "1735689600000"
print_u64_test = refl

replace_test : replace "dv-$app_id-$app_id" "$app_id" "x" ≡ "dv-x-x"
unfolding replace
replace_test = refl

split_test : split 46 "a.b." ≡ "a" ∷ "b" ∷ "" ∷ []
unfolding split
split_test = refl

trim_test : (trim " 12 " ≡ "12") × (parse_u64 "+12" ≡ some 12) × (parse_u64 "1x" ≡ none)
unfolding trim parse_u64
trim_test = (refl, refl, refl)
