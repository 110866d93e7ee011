-- ===== src/Redis/Ranges.antt =====
-- The ranges of LRANGE and LTRIM that the program asks for, as prefixes and suffixes.
use native.Mathlib.Nat.{sub-zero}
use scorpion.Prelude.{
  ℕ, zero, suc, ◌-◌, ◌≤◌, String, ◌≡◌, refl, ap, Option, List, [], ◌∷◌, arith, length, take, drop,
  length-drop,
}
use scorpion.Prelude.Int.{pos, negsuc, ◌-ℤ◌}
use scorpion.Redis.{IsList, items, listed, range}

take_all {ℓ} : {A : Type ℓ} (n : ℕ) (xs : List A) → length xs ≤ n → take n xs ≡ xs
take_all zero [] h = refl
take_all zero (x ∷ xs) h = absurd (omega arith)
take_all (suc n) [] h = refl
take_all (suc n) (x ∷ xs) h = ap (◌∷◌ x) (take_all n xs (omega arith))

pub range_tail :
    (m : ℕ) (xs : List String) → range (negsuc m) (negsuc 0) xs ≡ drop (length xs - suc m) xs
range_tail m xs = take_all _ _ (omega (arith, length-drop (length xs - suc m) xs))

pub range_from : (a : ℕ) (xs : List String) → range (pos a) (negsuc 0) xs ≡ drop a xs
range_from a xs = take_all _ _ (omega (arith, length-drop a xs))

pub range_upto : (b : ℕ) (xs : List String) → range (pos 0) (pos b) xs ≡ take (suc b) xs
range_upto b xs = rw sub-zero

pub items-listed : (t : Option ℕ) (xs : List String) → items (listed t xs) ≡ xs
items-listed t [] = refl
items-listed t (x ∷ xs) = refl

pub listed-IsList : (t : Option ℕ) (xs : List String) → IsList (listed t xs)
listed-IsList t [] = tt
listed-IsList t (x ∷ xs) = tt

pub neg_suc : (m : ℕ) → pos 0 -ℤ pos (suc m) ≡ negsuc m
unfolding ◌-ℤ◌
neg_suc m = ground arith

pub pred_suc : (b : ℕ) → pos (suc b) -ℤ pos 1 ≡ pos b
unfolding ◌-ℤ◌
pred_suc b = ground arith
