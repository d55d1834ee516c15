-- ===== src/Prelude/Distinct.antt =====
-- Lists of texts without repetitions: insertion, and their length against a list that contains them.
use Prim.Native.Nat.{suc, ◌≤◌}
use Prim.Native.String.{String}
use mathlib.Core.Path.{◌≡◌, refl, ◌∙◌}
use mathlib.Core.Logic.{inl, inr}
use mathlib.Core.Bool.{true, false, ◌||◌}
use mathlib.Core.List.{List, [], ◌∷◌, ◌++◌}
use native.Mathlib.Omega.{arith}
use package.text.Mathlib.Text.{◌==◌}
use package.text.Mathlib.TextEquality.{eq_iff}
use forgetbase.Prelude.Tests.{if◌then◌else◌, Bool-cases}
use forgetbase.Prelude.Lists.{length, All, All-map}
use forgetbase.Prelude.Texts.{includes, is_distinct}

pub eq_sym : (a b : String) → (a == b) ≡ (b == a)
eq_sym a b = elim (Bool-cases (a == b)) [
  | inl e ↦ rw ((eq_iff a b).0 e) refl
  | inr e ↦ elim (Bool-cases (b == a)) [ inl f ↦ rw ((eq_iff b a).0 f) refl | inr f ↦ cc ]
]

-- the list without the first of its entries that is `x`
abbrev pub without : String → List String → List String
without x [] = []
without x (y ∷ ys) = if y == x then ys else y ∷ without x ys

length-remove :
    (x : String) (ys : List String) → includes x ys ≡ true → suc (length (without x ys)) ≡ length ys
length-remove x [] h = cc
length-remove x (y ∷ ys) h = elim (Bool-cases (y == x)) [
  | inl e ↦ rw e (omega arith)
  | inr e ↦ rw e (omega (arith, length-remove x ys (ground arith)))
]

includes-remove :
    (x m : String) (ys : List String)
    → includes m ys ≡ true
    → (m == x) ≡ false
    → includes m (without x ys) ≡ true
includes-remove x m [] h n = cc
includes-remove x m (y ∷ ys) h n = elim (Bool-cases (y == x)) [
  | inl e ↦
      rw e (let y_m : (y == m) ≡ false = rw ((eq_iff y x).0 e) (eq_sym x m ∙ n) in ground arith)
  | inr e ↦ rw e (elim (Bool-cases (y == m)) [
    | inl f ↦ rw f refl
    | inr f ↦ rw f (includes-remove x m ys (ground arith) n)
  ])
]

All-remove :
    (x : String) (xs ys : List String)
    → All (λ m. includes m ys ≡ true) xs
    → includes x xs ≡ false
    → All (λ m. includes m (without x ys) ≡ true) xs
All-remove x [] ys a n = tt
All-remove x (m ∷ xs) ys a n =
    (includes-remove x m ys a.0 (ground arith), All-remove x xs ys a.1 (ground arith))

-- Pigeonhole: a list without repetitions is not longer than one that has all its entries.
pub distinct-length :
    (xs ys : List String)
    → is_distinct xs ≡ true
    → All (λ m. includes m ys ≡ true) xs
    → length xs ≤ length ys
distinct-length [] ys d a = omega arith
distinct-length (x ∷ xs) ys d a = omega (
  arith,
  length-remove x ys a.0,
  distinct-length xs (without x ys) (ground arith) (All-remove x xs ys a.1 (ground arith)),
)

pub includes-append :
    (x : String) (xs ys : List String) → includes x (xs ++ ys) ≡ includes x xs || includes x ys
includes-append x [] ys = refl
includes-append x (y ∷ xs) ys = ground (arith, includes-append x xs ys)

pub is_distinct-snoc :
    (xs : List String) (x : String)
    → is_distinct xs ≡ true
    → includes x xs ≡ false
    → is_distinct (xs ++ x ∷ []) ≡ true
is_distinct-snoc [] x d n = refl
is_distinct-snoc (y ∷ xs) x d n =
    ground (arith, is_distinct-snoc xs x, includes-append y xs (x ∷ []), eq_sym x y)

-- Each text is new to the ones before it, which stand in the reverse order.
abbrev pub IsFresh : List String → List String → Type 0
IsFresh seen [] = Unit
IsFresh seen (y ∷ ys) = (includes y seen ≡ false) × IsFresh (y ∷ seen) ys

IsFresh-All : (seen ys : List String) → IsFresh seen ys → All (λ z. includes z seen ≡ false) ys
IsFresh-All seen [] h = tt
IsFresh-All seen (y ∷ ys) h =
    (h.0, All-map (λ z n. ground arith) ys (IsFresh-All (y ∷ seen) ys h.1))

absent : (y : String) (ys : List String) → All (λ z. (y == z) ≡ false) ys → includes y ys ≡ false
absent y [] h = refl
absent y (z ∷ ys) h = ground (arith, absent y ys h.1, eq_sym y z)

pub IsFresh-is_distinct : (seen ys : List String) → IsFresh seen ys → is_distinct ys ≡ true
IsFresh-is_distinct seen [] h = refl
IsFresh-is_distinct seen (y ∷ ys) h =
    let new = absent y ys (All-map (λ z n. ground arith) ys (IsFresh-All (y ∷ seen) ys h.1)) in
    ground (arith, new, IsFresh-is_distinct (y ∷ seen) ys h.1)
