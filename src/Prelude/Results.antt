-- ===== src/Prelude/Results.antt =====
-- Results of Go functions that return a value and an error.
use mathlib.Core.Path.{◌≡◌, refl}
use mathlib.Core.Bool.{Bool, true, false}

pub data Result {ℓ κ} (E : Type ℓ) (A : Type κ) : Type (ℓ ⊔ κ) where
  ok : A → Result E A
  err : E → Result E A

infixr 5 ◌>>=◌ ◌>>◌
abbrev pub ◌>>=◌ {ℓ κ μ} :
    {E : Type ℓ} {A : Type κ} {B : Type μ} → Result E A → (A → Result E B) → Result E B
ok a >>= f = f a
err e >>= f = err e

abbrev pub ◌>>◌ {ℓ μ} : {E : Type ℓ} {B : Type μ} → Result E (Unit {0}) → Result E B → Result E B
m >> k = m >>= λ _. k

-- `if bad { return err }`
abbrev pub fail_if {ℓ} : {E : Type ℓ} → Bool → E → Result E (Unit {0})
fail_if true e = err e
fail_if false e = ok tt

-- Inversion of a successful bind.
pub >>=-eq-ok {ℓ κ μ} :
    {Error : Type ℓ} {In : Type κ} {Out : Type μ} {result : Out} (first : Result Error In)
    (next : In → Result Error Out)
    → (first >>= next) ≡ ok result
    → (mid : In) × (first ≡ ok mid) × (next mid ≡ ok result)
>>=-eq-ok (err e) next finished = cc
>>=-eq-ok (ok mid) next finished = (mid, refl, finished)

pub ok-injective {ℓ κ} :
    {E : Type ℓ} {A : Type κ} {a b : A} → ◌≡◌ {A = Result E A} (ok a) (ok b) → a ≡ b
ok-injective h = cc

-- A property of a bind, from what its two ways give.
pub >>=-elim {ℓ κ μ ν} :
    {E : Type ℓ} {A : Type κ} {B : Type μ} (P : Result E B → Type ν) (m : Result E A)
    (f : A → Result E B)
    → ((a : A) → m ≡ ok a → P (f a))
    → ((e : E) → m ≡ err e → P (err e))
    → P (m >>= f)
>>=-elim P (ok a) f h k = h a refl
>>=-elim P (err e) f h k = k e refl

-- A passed check.
pub fail_if-eq-ok {ℓ μ} :
    {Error : Type ℓ} {Out : Type μ} {result : Out} (bad : Bool) (e : Error)
    (rest : Result Error Out)
    → (fail_if bad e >> rest) ≡ ok result
    → (bad ≡ false) × (rest ≡ ok result)
fail_if-eq-ok true e rest h = (cc, cc)
fail_if-eq-ok false e rest h = (refl, h)
