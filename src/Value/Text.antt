-- ===== src/Value/Text.antt =====
-- Text as a list of bytes or code points, with the tests of the packages `strings` and `unicode`
-- that the code uses.
use Prim.Native.Char.{code}
use Prim.Native.String.{String}
use mathlib.Core.List.{reverse-append, reverse-reverse}
use iot_edge.Prelude.{
  ℕ, ◌≡◌, refl, Bool, true, false, ◌&&◌, ◌||◌, List, [], ◌∷◌, reverse, ◌==◌, leb, ltb,
  if◌then◌else◌, if-elim, ◌++◌, ap, sym, ◌∙◌, subst, arith,
}

abbrev pub Text : Type 0
Text = List ℕ

abbrev pub codes : String → Text
codes String.[] = []
codes (String.◌∷◌ c s) = code c ∷ codes s

abbrev pub text_eq : Text → Text → Bool
text_eq [] [] = true
text_eq (x ∷ xs) (y ∷ ys) = (x == y) && text_eq xs ys
text_eq _ _ = false

abbrev pub text_member : Text → List Text → Bool
text_member s [] = false
text_member s (x ∷ seen) = text_eq x s || text_member s seen

-- The order of strings.
abbrev pub text_lt : Text → Text → Bool
text_lt [] [] = false
text_lt [] (y ∷ ys) = true
text_lt (x ∷ xs) [] = false
text_lt (x ∷ xs) (y ∷ ys) = ltb x y || ((x == y) && text_lt xs ys)

abbrev pub is_empty : Text → Bool
is_empty [] = true
is_empty _ = false

-- `unicode.IsSpace`
unfoldable pub is_space : ℕ → Bool
is_space c =
    (leb 9 c && leb c 13)
    || (c == 32)
    || (c == 0x85)
    || (c == 0xa0)
    || (c == 0x1680)
    || (leb 0x2000 c && leb c 0x200a)
    || (c == 0x2028)
    || (c == 0x2029)
    || (c == 0x202f)
    || (c == 0x205f)
    || (c == 0x3000)

trim_left : Text → Text
trim_left [] = []
trim_left (c ∷ s) = if is_space c then trim_left s else c ∷ s

-- `strings.TrimSpace`
unfoldable pub trim_space : Text → Text
unfolding trim_left is_space
trim_space s = reverse (trim_left (reverse (trim_left s)))

pub text_eq_refl : (s : Text) → text_eq s s ≡ true
text_eq_refl [] = refl
text_eq_refl (x ∷ s) = ground (arith, text_eq_refl s)

pub text_eq→eq : (s t : Text) → text_eq s t ≡ true → s ≡ t
text_eq→eq [] [] h = refl
text_eq→eq [] (y ∷ t) h = cc
text_eq→eq (x ∷ s) [] h = cc
text_eq→eq (x ∷ s) (y ∷ t) h = ground (arith, text_eq→eq s t)

-- A text that trimming on the left keeps: it does not start with a space.
abbrev Visible : Text → Type 0
Visible [] = Unit
Visible (c ∷ s) = is_space c ≡ false

trim_left-Visible : (s : Text) → Visible (trim_left s)
unfolding trim_left
trim_left-Visible [] = tt
trim_left-Visible (c ∷ s) =
    if-elim Visible (is_space c) (λ _. trim_left-Visible s) (λ visible. visible)

trim_left_of_Visible : (s : Text) → Visible s → trim_left s ≡ s
unfolding trim_left
trim_left_of_Visible [] h = refl
trim_left_of_Visible (c ∷ s) h = rw h

Visible-of_append : (s t : Text) → Visible (s ++ t) → Visible s
Visible-of_append [] t h = tt
Visible-of_append (c ∷ s) t h = h

trim_left-suffix : (s : Text) → (front : Text) × (front ++ trim_left s ≡ s)
unfolding trim_left
trim_left-suffix [] = ([], refl)
trim_left-suffix (c ∷ s) =
    if-elim (λ t. (front : Text) × (front ++ t ≡ c ∷ s)) (is_space c)
      (λ _. let (front, h) = trim_left-suffix s in (c ∷ front, ap (λ t. c ∷ t) h)) (λ _. ([], refl))

-- Trimming a trimmed text changes nothing.
pub trim_space_idem : (s : Text) → trim_space (trim_space s) ≡ trim_space s
unfolding trim_space
trim_space_idem s =
    let x = trim_left s in
    let w = trim_left (reverse x) in
    let (front, h) = trim_left-suffix (reverse x) in
    let split : reverse w ++ reverse front ≡ x =
      sym (reverse-append front w) ∙ ap reverse h ∙ reverse-reverse x in
    let visible =
      Visible-of_append (reverse w) (reverse front)
        (subst Visible (sym split) (trim_left-Visible s)) in
    ap (λ t. reverse (trim_left (reverse t))) (trim_left_of_Visible (reverse w) visible)
    ∙ ap (λ t. reverse (trim_left t)) (reverse-reverse w)
    ∙ ap reverse (trim_left_of_Visible w (trim_left-Visible (reverse x)))
