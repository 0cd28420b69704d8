-- ===== src/Base/HashMap.antt =====
-- `std::collections::HashMap` as an association list with one entry for each key. The list's order
-- stands for the order in which the map is iterated, which Rust leaves open: a new key goes to the
-- end here.
pub mod Keys
use mathlib.Core.Logic.{ite}
use mathlib.Core.Path.{◌≡◌, refl}
use mathlib.Core.Bool.{Bool, true, false, cond}
use mathlib.Core.Option
use mathlib.Core.Option.{Option, none, some}
use mathlib.Core.List.{List, [], ◌∷◌, map}
use native.Mathlib.Omega.{arith}

abbrev pub HashMap {ℓ} : Type ℓ → Type ℓ → Type ℓ
HashMap K V = List (K × V)

module _ {ℓ} {K V : Type ℓ} where
  abbrev pub keys : HashMap K V → List K
  keys = map (λ e. e.0)

  abbrev pub values : HashMap K V → List V
  values = map (λ e. e.1)

  -- `m.retain(|_, v| keep(v))`
  unfoldable pub retain : (V → Bool) → HashMap K V → HashMap K V
  retain keep [] = []
  retain keep ((k, v) ∷ m) = let rest = retain keep m in cond (keep v) ((k, v) ∷ rest) rest

module _ {ℓ} {K V : Type ℓ} (dec : Discrete K) where
  unfoldable pub get : K → HashMap K V → Option V
  get k [] = none
  get k ((j, v) ∷ m) = ite (dec j k) (some v) (get k m)

  -- `m.contains_key(&k)`
  unfoldable pub contains_key : K → HashMap K V → Bool
  contains_key k m = elim (get k m) [ none ↦ false | some _ ↦ true ]

  unfoldable pub insert : K → V → HashMap K V → HashMap K V
  insert k v [] = (k, v) ∷ []
  insert k v ((j, w) ∷ m) = ite (dec j k) ((j, v) ∷ m) ((j, w) ∷ insert k v m)

  -- a write through `m.get_mut(&k)`, if the key is there
  unfoldable pub update : K → (V → V) → HashMap K V → HashMap K V
  update k f [] = []
  update k f ((j, w) ∷ m) = ite (dec j k) ((j, f w) ∷ m) ((j, w) ∷ update k f m)

  pub get-insert :
      (k j : K) (v : V) (m : HashMap K V) → get j (insert k v m) ≡ ite (dec k j) (some v) (get j m)
  unfolding get insert
  get-insert k j v [] = refl
  get-insert k j v ((i, w) ∷ m) = ground (arith, get-insert k j v m)

  pub get-update :
      (k j : K) (f : V → V) (m : HashMap K V)
      → get j (update k f m) ≡ ite (dec k j) (Option.map f (get j m)) (get j m)
  unfolding get update
  get-update k j f [] = ground arith
  get-update k j f ((i, w) ∷ m) = ground (arith, get-update k j f m)

  pub keys-update : (k : K) (f : V → V) (m : HashMap K V) → keys (update k f m) ≡ keys m
  unfolding update
  keys-update k f [] = refl
  keys-update k f ((i, w) ∷ m) = ground (arith, keys-update k f m)

-- Every entry satisfies `P`, which is told the key.
abbrev pub AllEntries {ℓ} : {K V : Type ℓ} → (K → V → Type 0) → HashMap K V → Type 0
AllEntries P [] = Unit
AllEntries P ((k, v) ∷ m) = P k v × AllEntries P m

pub AllEntries-mono {ℓ} :
    {K V : Type ℓ} (P Q : K → V → Type 0) (m : HashMap K V)
    → ((k : K) (v : V) → P k v → Q k v)
    → AllEntries P m
    → AllEntries Q m
AllEntries-mono P Q [] h a = tt
AllEntries-mono P Q ((k, v) ∷ m) h a = (h k v a.0, AllEntries-mono P Q m h a.1)

module _ {ℓ} {K V : Type ℓ} (dec : Discrete K) where
  -- No key has two entries.
  abbrev pub IsDistinct : HashMap K V → Type ℓ
  IsDistinct [] = Unit
  IsDistinct ((k, v) ∷ m) = (get dec k m ≡ none) × IsDistinct m

  pub insert-IsDistinct :
      (k : K) (v : V) (m : HashMap K V) → IsDistinct m → IsDistinct (insert dec k v m)
  unfolding insert get
  insert-IsDistinct k v [] h = (refl, tt)
  insert-IsDistinct k v ((j, w) ∷ m) h =
      ground (arith, insert-IsDistinct k v m, get-insert dec k j v m)

  pub update-IsDistinct :
      (k : K) (f : V → V) (m : HashMap K V) → IsDistinct m → IsDistinct (update dec k f m)
  unfolding update
  update-IsDistinct k f [] h = tt
  update-IsDistinct k f ((j, w) ∷ m) h =
      ground (arith, update-IsDistinct k f m, get-update dec k j f m)

  get-retain-none :
      (keep : V → Bool) (k : K) (m : HashMap K V)
      → get dec k m ≡ none
      → get dec k (retain keep m) ≡ none
  unfolding get retain
  get-retain-none keep k [] h = refl
  get-retain-none keep k ((j, w) ∷ m) h = ground (arith, get-retain-none keep k m)

  pub retain-IsDistinct :
      (keep : V → Bool) (m : HashMap K V) → IsDistinct m → IsDistinct (retain keep m)
  unfolding retain
  retain-IsDistinct keep [] h = tt
  retain-IsDistinct keep ((j, w) ∷ m) h =
      ground (arith, retain-IsDistinct keep m, get-retain-none keep j m)

  pub get-retain :
      (keep : V → Bool) (k : K) (m : HashMap K V)
      → IsDistinct m
      → get dec k (retain keep m)
        ≡ elim (get dec k m) [ none ↦ none | some v ↦ cond (keep v) (some v) none ]
  unfolding get retain
  get-retain keep k [] h = refl
  get-retain keep k ((j, w) ∷ m) h = ground (arith, get-retain keep k m, get-retain-none keep j m)

module _ {ℓ} {K V : Type ℓ} (dec : Discrete K) (P : K → V → Type 0) where
  pub get-AllEntries :
      (k : K) (v : V) (m : HashMap K V) → AllEntries P m → get dec k m ≡ some v → P k v
  unfolding get
  get-AllEntries k v [] a h = cc
  get-AllEntries k v ((j, w) ∷ m) a h = ground (arith, get-AllEntries k v m a.1)

  pub insert-AllEntries :
      (k : K) (v : V) (m : HashMap K V) → P k v → AllEntries P m → AllEntries P (insert dec k v m)
  unfolding insert
  insert-AllEntries k v [] h a = (h, tt)
  insert-AllEntries k v ((j, w) ∷ m) h a = ground (arith, insert-AllEntries k v m h a.1)

  pub update-AllEntries :
      (k : K) (f : V → V) (m : HashMap K V)
      → ((v : V) → P k v → P k (f v))
      → AllEntries P m
      → AllEntries P (update dec k f m)
  unfolding update
  update-AllEntries k f [] h a = tt
  update-AllEntries k f ((j, w) ∷ m) h a = ground (arith, update-AllEntries k f m h a.1, h w)

pub retain-AllEntries {ℓ} :
    {K V : Type ℓ} (P : K → V → Type 0) (keep : V → Bool) (m : HashMap K V)
    → AllEntries P m
    → AllEntries P (retain keep m)
unfolding retain
retain-AllEntries P keep [] a = tt
retain-AllEntries P keep ((j, w) ∷ m) a = ground (arith, retain-AllEntries P keep m a.1)
