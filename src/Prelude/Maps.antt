-- ===== src/Prelude/Maps.antt =====
-- Finite maps from numbers as association lists, the last values of a list, and sorting.
use iot_edge.Prelude.Tests.{◌==◌, if◌then◌else◌, if-elim, ltb}
use iot_edge.Prelude.Lists.{length, drop, length-append, length-drop}
use Prim.Native.Nat.{ℕ, zero, suc, ◌+◌, ◌-◌, ◌≤◌}
use mathlib.Core.Path.{◌≡◌, refl, ap, sym, ◌∙◌}
use mathlib.Core.Logic.{◌≢◌}
use mathlib.Core.Option.{Option, none, some}
use mathlib.Core.List.{List, [], ◌∷◌, ◌++◌}
use native.Mathlib.Omega.{arith}

next : (j k : ℕ) → suc (j + k) ≡ j + suc k
next j k = omega arith

sum : (l m n : ℕ) → m ≤ n → {k : ℕ} → k ≡ l - (l - n) → k - m + (l - n) ≡ l - m
sum l m n h e = omega arith

module _ {ℓ} {A : Type ℓ} where
  abbrev pub find : ℕ → List (ℕ × A) → Option A
  find key [] = none
  find key ((k, a) ∷ entries) = if k == key then some a else find key entries

  abbrev pub insert : ℕ → A → List (ℕ × A) → List (ℕ × A)
  insert key a [] = (key, a) ∷ []
  insert key a ((k, b) ∷ entries) =
      let rest = insert key a entries in if k == key then (key, a) ∷ entries else (k, b) ∷ rest

  pub find-insert_self :
      (key : ℕ) (a : A) (entries : List (ℕ × A)) → find key (insert key a entries) ≡ some a
  find-insert_self key a [] = ground arith
  find-insert_self key a ((k, b) ∷ entries) = ground (arith, find-insert_self key a entries)

  pub find-insert_ne :
      (key other : ℕ) (a : A) (entries : List (ℕ × A))
      → key ≢ other
      → find other (insert key a entries) ≡ find other entries
  find-insert_ne key other a [] h = ground (arith, h)
  find-insert_ne key other a ((k, b) ∷ entries) h =
      ground (arith, h, find-insert_ne key other a entries h)

  -- The last n elements.
  abbrev pub last_n : ℕ → List A → List A
  last_n n xs = drop (length xs - n) xs

  drop-append : (k : ℕ) (xs ys : List A) → k ≤ length xs → drop k (xs ++ ys) ≡ drop k xs ++ ys
  drop-append zero xs ys h = refl
  drop-append (suc k) [] ys h = absurd (omega arith)
  drop-append (suc k) (x ∷ xs) ys h = drop-append k xs ys (omega arith)

  drop-nil : (k : ℕ) → ◌≡◌ {A = List A} (drop k []) []
  drop-nil zero = refl
  drop-nil (suc k) = refl

  drop-drop : (j k : ℕ) (xs : List A) → drop j (drop k xs) ≡ drop (j + k) xs
  drop-drop j zero xs = ap (λ i. drop i xs) (omega arith)
  drop-drop j (suc k) [] = drop-nil j ∙ sym (drop-nil (j + suc k))
  drop-drop j (suc k) (x ∷ xs) = drop-drop j k xs ∙ ap (λ i. drop i (x ∷ xs)) (next j k)

  -- Only the last n elements count for the last n of a longer list.
  pub last_n-append : (n : ℕ) (xs ys : List A) → last_n n (last_n n xs ++ ys) ≡ last_n n (xs ++ ys)
  last_n-append n xs ys =
      let k = length xs - n in
      ap (last_n n) (sym (drop-append k xs ys (omega arith)))
      ∙ drop-drop (length (drop k (xs ++ ys)) - n) k (xs ++ ys)
      ∙ ap (λ i. drop i (xs ++ ys)) (omega (arith, length-drop k (xs ++ ys), length-append xs ys))

  empty : (n : ℕ) (xs : List A) → length xs ≤ n → length xs - n ≡ 0
  empty n xs h = omega arith

  pub last_n_short : (n : ℕ) (xs : List A) → length xs ≤ n → last_n n xs ≡ xs
  last_n_short n xs h = ap (λ i. drop i xs) (empty n xs h)

  pub length-last_n : (n : ℕ) (xs : List A) → length (last_n n xs) ≤ n
  length-last_n n xs = omega (arith, length-drop (length xs - n) xs)

  -- The last m of the last n, where m is at most n.
  pub last_n_twice : (m n : ℕ) (xs : List A) → m ≤ n → last_n m (last_n n xs) ≡ last_n m xs
  last_n_twice m n xs h =
      drop-drop (length (last_n n xs) - m) (length xs - n) xs
      ∙ ap (λ i. drop i xs) (sum (length xs) m n h (length-drop (length xs - n) xs))

  -- The last element.
  abbrev pub last_of : List A → Option A
  last_of [] = none
  last_of (x ∷ []) = some x
  last_of (x ∷ y ∷ xs) = last_of (y ∷ xs)

  pub last_of-append : (xs : List A) (x : A) → last_of (xs ++ x ∷ []) ≡ some x
  last_of-append [] x = refl
  last_of-append (y ∷ []) x = refl
  last_of-append (y ∷ z ∷ xs) x = last_of-append (z ∷ xs) x

  pub append_assoc : (xs ys zs : List A) → (xs ++ ys) ++ zs ≡ xs ++ (ys ++ zs)
  append_assoc [] ys zs = refl
  append_assoc (x ∷ xs) ys zs = ap (λ t. x ∷ t) (append_assoc xs ys zs)

  pub append_nil : (xs : List A) → xs ++ [] ≡ xs
  append_nil [] = refl
  append_nil (x ∷ xs) = ap (λ t. x ∷ t) (append_nil xs)

  -- The cut of a list to its last n elements, where it is longer.
  pub cut-last_n :
      (n : ℕ) (xs : List A)
      → (if ltb n (length xs) then drop (length xs - n) xs else xs) ≡ last_n n xs
  cut-last_n n xs =
      if-elim (λ ys. ys ≡ last_n n xs) (ltb n (length xs)) (λ _. refl)
        (λ short. sym (last_n_short n xs (ground arith)))
