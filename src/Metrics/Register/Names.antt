-- ===== src/Metrics/Register/Names.antt =====
-- metrics.go: the names and the labels of the metrics.
use scorpion.Prelude.{String, Bool, true, false, ◌≡◌, ◌&&◌, not, ◌==◌, List, [], ◌∷◌}
use scorpion.Metrics.Register.{Family, name, Registerer}

-- No family of the list has the name.
other_names : String → List Family → Bool
other_names n [] = true
other_names n (f ∷ fs) = let rest = other_names n fs in not (n == name f) && rest

distinct : List Family → Bool
unfolding other_names
distinct [] = true
distinct (f ∷ fs) = let rest = distinct fs in other_names (name f) fs && rest

module _ (reg : Registerer) where
  abbrev Free : List Family → reg.Registry → Type 0
  Free [] s = Unit
  Free (f ∷ fs) s = (reg.taken (name f) s ≡ false) × Free fs s
