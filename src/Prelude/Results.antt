-- ===== src/Prelude/Results.antt =====
-- A computation that may throw: the error carries its message.
use Prim.Native.String.{String}
use mathlib.Core.Path.{◌≡◌, refl, ap}
use mathlib.Core.Logic.{◌⊎◌, inl, inr}
use mathlib.Core.Bool.{Bool, true, false}
use native.Mathlib.Omega.{arith}
use mathlib.Core.List.{List, [], ◌∷◌}
use forgetbase.Prelude.Tests.{if◌then◌else◌}
use forgetbase.Prelude.Lists.{All}

-- A value, or the message of the error thrown instead of it.
pub data Result {ℓ} (A : Type ℓ) : Type ℓ where
  err : (message : String) → Result A
  ok : (value : A) → Result A

-- `if (bad) throw new Error(message)`
abbrev pub reject_if : Bool → String → Result (Unit {0})
reject_if false message = ok tt
reject_if true message = err message

module _ {ℓ κ} {A : Type ℓ} {B : Type κ} where
  infixl 5 ◌>>=◌
  -- what follows a computation that may have thrown
  abbrev pub ◌>>=◌ : Result A → (A → Result B) → Result B
  err message >>= next = err message
  ok value >>= next = next value

  pub >>=-eq-ok :
      (m : Result A) (next : A → Result B) {b : B}
      → (m >>= next) ≡ ok b
      → (a : A) × (m ≡ ok a) × (next a ≡ ok b)
  >>=-eq-ok (err message) next h = cc
  >>=-eq-ok (ok value) next h = (value, refl, h)

module _ {κ} {B : Type κ} where
  infixl 5 ◌>>◌
  abbrev pub ◌>>◌ : Result (Unit {0}) → Result B → Result B
  first >> second = first >>= λ _. second

pub reject_if-eq-ok {ℓ} :
    {A : Type ℓ} (b : Bool) (e : String) (k : Result A) {a : A}
    → (reject_if b e >> k) ≡ ok a
    → (b ≡ false) × (k ≡ ok a)
reject_if-eq-ok b e k h = ground arith

-- Guards in the order of the source: the message of the first that holds is thrown.
abbrev pub throw_first : List (Bool × String) → Result (Unit {0})
throw_first [] = ok tt
throw_first ((bad, message) ∷ rest) =
    let later = throw_first rest in if bad then err message else later

pub throw_first-eq-ok :
    (guards : List (Bool × String)) → throw_first guards ≡ ok tt → All (λ g. g.0 ≡ false) guards
throw_first-eq-ok [] h = tt
throw_first-eq-ok ((bad, message) ∷ rest) h = ground (arith, throw_first-eq-ok rest)

-- What follows guards that have all passed.
pub throw_first-then {ℓ} :
    {A : Type ℓ} (guards : List (Bool × String)) (next : Result A) {a : A}
    → (throw_first guards >> next) ≡ ok a
    → All (λ g. g.0 ≡ false) guards × (next ≡ ok a)
throw_first-then guards next h =
    let (u, p, q) = >>=-eq-ok (throw_first guards) (λ _. next) h in (throw_first-eq-ok guards p, q)

pub ok_equal {ℓ} : {A : Type ℓ} {a b : A} → ok a ≡ ok b → a ≡ b
ok_equal {A} {a} {b} h = ap (λ r. elim r [ err _ ↦ a | ok x ↦ x ]) h

pub Result-cases {ℓ} :
    {A : Type ℓ} (r : Result A) → ((m : String) × (r ≡ err m)) ⊎ ((a : A) × (r ≡ ok a))
Result-cases (err m) = inl (m, refl)
Result-cases (ok a) = inr (a, refl)
