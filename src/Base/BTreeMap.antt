-- ===== src/Base/BTreeMap.antt =====
-- `std::collections::BTreeMap` with number keys, as the list of its entries in the order of the
-- keys.
use Prim.Native.Nat.{ℕ, suc, ◌≤◌, ◌<◌}
use mathlib.Core.Path.{◌≡◌, refl}
use native.Mathlib.Omega.{arith}
use mathlib.Core.Option.{Option, none, some}
use mathlib.Core.List.{List, [], ◌∷◌}
use mpconn.Base.Tests.{ltb, ◌==◌, if◌then◌else◌}

abbrev pub BTreeMap {ℓ} : Type ℓ → Type ℓ
BTreeMap V = List (ℕ × V)

module _ {ℓ} {V : Type ℓ} where
  -- the entry with the least key
  abbrev pub first_entry : BTreeMap V → Option (ℕ × V)
  first_entry [] = none
  first_entry (e ∷ m) = some e

  -- `m.entry(k).or_insert(v)`: a key that is there keeps its value
  unfoldable pub or_insert : ℕ → V → BTreeMap V → BTreeMap V
  or_insert k v [] = (k, v) ∷ []
  or_insert k v ((j, w) ∷ m) =
      let rest = or_insert k v m in
      if ltb k j then (k, v) ∷ (j, w) ∷ m else if k == j then (j, w) ∷ m else (j, w) ∷ rest

  unfoldable pub get : ℕ → BTreeMap V → Option V
  get k [] = none
  get k ((j, w) ∷ m) = if j == k then some w else get k m

-- Every key is at least `n`, and the keys grow along the list.
abbrev pub Above {ℓ} : {V : Type ℓ} → ℕ → BTreeMap V → Type 0
Above n [] = Unit
Above n ((j, w) ∷ m) = (n ≤ j) × Above (suc j) m

-- Every entry satisfies `P`, which is told the key.
abbrev pub AllEntries {ℓ} : {V : Type ℓ} → (ℕ → V → Type 0) → BTreeMap V → Type 0
AllEntries P [] = Unit
AllEntries P ((j, w) ∷ m) = P j w × AllEntries P m

module _ {ℓ} {V : Type ℓ} where
  pub Above-mono : (n k : ℕ) (m : BTreeMap V) → k ≤ n → Above n m → Above k m
  Above-mono n k [] h a = tt
  Above-mono n k ((j, w) ∷ m) h a = (omega arith, a.1)

  pub or_insert-Above :
      (n k : ℕ) (v : V) (m : BTreeMap V) → n ≤ k → Above n m → Above n (or_insert k v m)
  unfolding or_insert
  or_insert-Above n k v [] h a = (h, tt)
  or_insert-Above n k v ((j, w) ∷ m) h a = ground (arith, or_insert-Above (suc j) k v m)

  pub or_insert-AllEntries :
      (P : ℕ → V → Type 0) (k : ℕ) (v : V) (m : BTreeMap V)
      → P k v
      → AllEntries P m
      → AllEntries P (or_insert k v m)
  unfolding or_insert
  or_insert-AllEntries P k v [] h a = (h, tt)
  or_insert-AllEntries P k v ((j, w) ∷ m) h a = ground (arith, or_insert-AllEntries P k v m)

  pub get_below : (n k : ℕ) (m : BTreeMap V) → k < n → Above n m → get k m ≡ none
  unfolding get
  get_below n k [] h a = refl
  get_below n k ((j, w) ∷ m) h a = ground (arith, get_below (suc j) k m)

  -- The map reads back what was put in, unless the key was there before.
  pub get-or_insert :
      (n k j : ℕ) (v : V) (m : BTreeMap V)
      → Above n m
      → get j (or_insert k v m)
        ≡ (if k == j then some (elim (get j m) [ none ↦ v | some w ↦ w ]) else get j m)
  unfolding get or_insert
  get-or_insert n k j v [] a = refl
  get-or_insert n k j v ((i, w) ∷ m) a =
      ground (arith, get-or_insert (suc i) k j v m, get_below (suc i) j m)
