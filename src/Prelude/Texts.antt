-- ===== src/Prelude/Texts.antt =====
-- Texts cut at a separator that the part before it does not contain.
use Prim.Native.Char.{Char, code}
use Prim.Native.String as S
use Prim.Native.String.{String, ◌++◌}
use mathlib.Core.Logic.{◌≢◌}
use mathlib.Core.Path.{◌≡◌, refl, sym, ap, ◌∙◌}
use text.Mathlib.TextLemmas.{cons-append, nil-append, head-eq_of_cons-eq, tail-eq_of_cons-eq}

abbrev pub newline : Char
newline = "\n"

abbrev pub Avoids : Char → String → Type 0
Avoids sep S.[] = Unit
Avoids sep (S.◌∷◌ c s) = (code c ≢ code sep) × Avoids sep s

-- A text before its first separator, and the rest behind it, are determined by the whole.
split_at :
    (sep : Char) (a b x y : String)
    → Avoids sep a
    → Avoids sep b
    → a ++ S.◌∷◌ sep x ≡ b ++ S.◌∷◌ sep y
    → (a ≡ b) × (x ≡ y)
split_at sep S.[] S.[] x y p q e =
    (refl, tail-eq_of_cons-eq (sym (nil-append _) ∙ e ∙ nil-append _))
split_at sep S.[] (S.◌∷◌ d b) x y p q e =
    absurd (q.0 (sym (ap code (head-eq_of_cons-eq (sym (nil-append _) ∙ e ∙ cons-append d b _)))))
split_at sep (S.◌∷◌ c a) S.[] x y p q e =
    absurd (p.0 (ap code (head-eq_of_cons-eq (sym (cons-append c a _) ∙ e ∙ nil-append _))))
split_at sep (S.◌∷◌ c a) (S.◌∷◌ d b) x y p q e =
    let cons_eq : S.◌∷◌ c (a ++ S.◌∷◌ sep x) ≡ S.◌∷◌ d (b ++ S.◌∷◌ sep y) =
      sym (cons-append c a _) ∙ e ∙ cons-append d b _ in
    let (same, rest) = split_at sep a b x y p.1 q.1 (tail-eq_of_cons-eq cons_eq) in
    (cc (head-eq_of_cons-eq cons_eq, same), rest)

one_char : (c : Char) (x : String) → S.◌∷◌ c "" ++ x ≡ S.◌∷◌ c x
one_char c x = cons-append c "" x ∙ ap (S.◌∷◌ c) (nil-append x)

pub split_at_newline :
    (a b x y : String)
    → Avoids newline a
    → Avoids newline b
    → a ++ "\n" ++ x ≡ b ++ "\n" ++ y
    → (a ≡ b) × (x ≡ y)
split_at_newline a b x y p q e =
    split_at newline a b x y p q
      (ap (◌++◌ a) (sym (one_char newline x)) ∙ e ∙ ap (◌++◌ b) (one_char newline y))
