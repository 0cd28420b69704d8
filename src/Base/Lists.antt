-- ===== src/Base/Lists.antt =====
-- Lists measured by native numbers, and a predicate on all members of a list.
use Prim.Native.Nat.{ℕ, zero, suc, ◌+◌}
use mathlib.Core.Path.{◌≡◌}
use mathlib.Core.List.{List, [], ◌∷◌, ◌++◌}
use mathlib.Core.Logic.{◌⊎◌, inl, inr}
use mathlib.Core.Bool.{Bool, cond}
use mathlib.Core.Option.{Option, none, some}
use native.Mathlib.Omega.{arith}

module _ {ℓ} {A : Type ℓ} where
  abbrev pub length : List A → ℕ
  length [] = 0
  length (x ∷ xs) = suc (length xs)

  pub length-append : (xs ys : List A) → length (xs ++ ys) ≡ length xs + length ys
  length-append [] ys = omega arith
  length-append (x ∷ xs) ys = omega (arith, length-append xs ys)

  abbrev pub All {κ} : (A → Type κ) → List A → Type κ
  All P [] = Unit
  All P (x ∷ xs) = P x × All P xs

  pub All-append {κ} : (P : A → Type κ) (xs ys : List A) → All P xs → All P ys → All P (xs ++ ys)
  All-append P [] ys hx hy = hy
  All-append P (x ∷ xs) ys hx hy = (hx.0, All-append P xs ys hx.1 hy)

  pub All-mono {κ μ} :
      (P : A → Type κ) (Q : A → Type μ) (xs : List A) → ((x : A) → P x → Q x) → All P xs → All Q xs
  All-mono P Q [] h a = tt
  All-mono P Q (x ∷ xs) h a = (h x a.0, All-mono P Q xs h a.1)

-- Some member of the list satisfies `P`.
module _ {ℓ} {A : Type ℓ} (P : A → Type 0) where
  abbrev pub Any : List A → Type 0
  Any [] = ⊥
  Any (x ∷ xs) = P x ⊎ Any xs

  pub Any-append : (xs ys : List A) → Any (xs ++ ys) → Any xs ⊎ Any ys
  Any-append [] ys h = inr h
  Any-append (x ∷ xs) ys (inl p) = inl (inl p)
  Any-append (x ∷ xs) ys (inr h) = elim (Any-append xs ys h) [
    | inl left ↦ inl (inr left)
    | inr right ↦ inr right
  ]

  pub Any-append_right : (xs ys : List A) → Any ys → Any (xs ++ ys)
  Any-append_right [] ys h = h
  Any-append_right (x ∷ xs) ys h = inr (Any-append_right xs ys h)

  -- What all satisfy, that one does too.
  pub Any-All {μ} :
      (Q : A → Type μ) (R : Type μ) (xs : List A)
      → ((x : A) → P x → Q x → R)
      → Any xs
      → All Q xs
      → R
  Any-All Q R [] k h all = absurd h
  Any-All Q R (x ∷ xs) k (inl p) all = k x p all.0
  Any-All Q R (x ∷ xs) k (inr h) all = Any-All Q R xs k h all.1

module _ {ℓ} {A : Type ℓ} where
  -- `items.into_iter().find(p)`
  abbrev pub find : (A → Bool) → List A → Option A
  find p [] = none
  find p (x ∷ xs) = let rest = find p xs in cond (p x) (some x) rest

  abbrev pub take : ℕ → List A → List A
  take zero xs = []
  take (suc n) [] = []
  take (suc n) (x ∷ xs) = x ∷ take n xs
