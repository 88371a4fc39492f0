-- ===== src/Prelude/Lists.antt =====
-- Lists: length over the native numbers, Boolean searches, and a predicate on every element.
use Prim.Native.Nat.{ℕ, suc}
use mathlib.Core.Path.{◌≡◌, refl}
use mathlib.Core.Bool.{Bool, true, false, not, ◌&&◌, ◌||◌}
use mathlib.Core.List.{List, [], ◌∷◌, ◌++◌}
use native.Mathlib.Omega.{arith}
use droid_os.Prelude.Tests.{if◌then◌else◌}

module _ {ℓ} {A : Type ℓ} where
  abbrev pub length : List A → ℕ
  length [] = 0
  length (x ∷ xs) = suc (length xs)

  abbrev pub any : (A → Bool) → List A → Bool
  any p [] = false
  any p (x ∷ xs) = p x || any p xs

  abbrev pub is_nil : List A → Bool
  is_nil [] = true
  is_nil (x ∷ xs) = false

  -- A list comprehension `[x for x in xs if p x]`.
  abbrev pub keep : (A → Bool) → List A → List A
  keep p [] = []
  keep p (x ∷ xs) = let rest = keep p xs in elim (p x) [ true ↦ x ∷ rest | false ↦ rest ]

  -- `for x in xs: if p x: out.append(f x)`
  abbrev pub collect {κ} : {B : Type κ} → (A → Bool) → (A → B) → List A → List B
  collect p f [] = []
  collect p f (x ∷ xs) = let rest = collect p f xs in if p x then f x ∷ rest else rest

  pub any-append : (p : A → Bool) (xs ys : List A) → any p (xs ++ ys) ≡ (any p xs || any p ys)
  any-append p [] ys = refl
  any-append p (x ∷ xs) ys = ground (arith, any-append p xs ys)

  pub is_nil-append : (xs ys : List A) → is_nil (xs ++ ys) ≡ (is_nil xs && is_nil ys)
  is_nil-append [] ys = refl
  is_nil-append (x ∷ xs) ys = refl

  pub is_nil→nil : (xs : List A) → is_nil xs ≡ true → xs ≡ []
  is_nil→nil [] h = refl
  is_nil→nil (x ∷ xs) h = ground arith

module _ {ℓ κ} {A : Type ℓ} {B : Type κ} where
  pub is_nil-collect :
      (p : A → Bool) (f : A → B) (xs : List A) → is_nil (collect p f xs) ≡ not (any p xs)
  is_nil-collect p f [] = refl
  is_nil-collect p f (x ∷ xs) = ground (arith, is_nil-collect p f xs)

abbrev pub All {ℓ κ} : {A : Type ℓ} → (A → Type κ) → List A → Type κ
All P [] = Unit
All P (x ∷ xs) = P x × All P xs

module _ {ℓ κ} {A : Type ℓ} (P : A → Type κ) where
  pub All-append : (xs ys : List A) → All P xs → All P ys → All P (xs ++ ys)
  All-append [] ys h k = k
  All-append (x ∷ xs) ys h k = (h.0, All-append xs ys h.1 k)
