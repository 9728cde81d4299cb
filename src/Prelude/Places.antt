-- ===== src/Prelude/Places.antt =====
-- Lists of which one element is changed, or every one.
use iot_edge.Prelude.Tests.{◌==◌, if◌then◌else◌}
use iot_edge.Prelude.Lists.{length, get_elem?, All}
use Prim.Native.Nat.{ℕ, zero, suc}
use mathlib.Core.Path.{◌≡◌, refl, ap}
use mathlib.Core.Logic.{◌⊎◌}
use mathlib.Core.Option.{none, some}
use mathlib.Core.List.{List, [], ◌∷◌, ◌++◌, map}
use native.Mathlib.Omega.{arith}

-- A change of the i-th element.
abbrev pub update {ℓ} : {A : Type ℓ} → ℕ → (A → A) → List A → List A
update i f [] = []
update zero f (x ∷ xs) = f x ∷ xs
update (suc i) f (x ∷ xs) = x ∷ update i f xs

pub get_elem?-append {ℓ} :
    {A : Type ℓ} (xs ys : List A) (i : ℕ) {a : A}
    → get_elem? xs i ≡ some a
    → get_elem? (xs ++ ys) i ≡ some a
get_elem?-append [] ys i h = cc
get_elem?-append (x ∷ xs) ys zero h = h
get_elem?-append (x ∷ xs) ys (suc i) h = get_elem?-append xs ys i h

pub get_elem?-map {ℓ} :
    {A : Type ℓ} (xs : List A) (f : A → A) (i : ℕ) {a : A}
    → get_elem? xs i ≡ some a
    → get_elem? (map f xs) i ≡ some (f a)
get_elem?-map [] f i h = cc
get_elem?-map (x ∷ xs) f zero h = ap (λ o. elim o [ none ↦ none | some y ↦ some (f y) ]) h
get_elem?-map (x ∷ xs) f (suc i) h = get_elem?-map xs f i h

pub get_elem?-update {ℓ} :
    {A : Type ℓ} (xs : List A) (f : A → A) (j i : ℕ) {a : A}
    → get_elem? xs i ≡ some a
    → get_elem? (update j f xs) i ≡ some (if j == i then f a else a)
get_elem?-update [] f j i h = cc
get_elem?-update (x ∷ xs) f zero zero h = ap (λ o. elim o [ none ↦ none | some y ↦ some (f y) ]) h
get_elem?-update (x ∷ xs) f zero (suc i) h = ground (arith, h)
get_elem?-update (x ∷ xs) f (suc j) zero h = ground (arith, h)
get_elem?-update (x ∷ xs) f (suc j) (suc i) h = ground (arith, get_elem?-update xs f j i h)

module _ {ℓ κ} {A : Type ℓ} (P : A → Type κ) (f : A → A) (keeps : (a : A) → P a → P (f a)) where
  pub All-map : (xs : List A) → All P xs → All P (map f xs)
  All-map [] h = tt
  All-map (x ∷ xs) h = (keeps x h.0, All-map xs h.1)

  pub All-update : (i : ℕ) (xs : List A) → All P xs → All P (update i f xs)
  All-update i [] h = tt
  All-update zero (x ∷ xs) h = (keeps x h.0, h.1)
  All-update (suc i) (x ∷ xs) h = (h.0, All-update i xs h.1)

pub get_elem?-end {ℓ} :
    {A : Type ℓ} (xs : List A) (x : A) → get_elem? (xs ++ x ∷ []) (length xs) ≡ some x
get_elem?-end [] x = refl
get_elem?-end (y ∷ xs) x = get_elem?-end xs x

-- An element of a list satisfies a predicate.
abbrev pub Any {ℓ} : {A : Type ℓ} → (A → Type 0) → List A → Type 0
Any P [] = ⊥
Any P (x ∷ xs) = P x ⊎ Any P xs
