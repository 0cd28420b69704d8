-- ===== src/Base/HashMap/Keys.antt =====
-- The keys of a `HashMap`: what `iter()`, `keys()` and `values()` go through.
use mathlib.Core.Path.{◌≡◌, refl}
use mathlib.Core.Logic.{◌≢◌, ◌↔◌, inl, inr}
use mathlib.Core.Option.{none, some}
use mathlib.Core.List.{List, [], ◌∷◌}
use native.Mathlib.Omega.{arith}
use mpconn.Base.Lists.{All, Any}
use mpconn.Base.HashMap.{HashMap, keys, get, IsDistinct, AllEntries, AllEntries-mono}

module _ {ℓ} {K : Type ℓ} where
  abbrev pub Avoids : K → List K → Type ℓ
  Avoids k ks = All (λ j. k ≢ j) ks

  -- Each member is there once.
  abbrev pub NoRepeats : List K → Type ℓ
  NoRepeats [] = Unit
  NoRepeats (k ∷ ks) = Avoids k ks × NoRepeats ks

module _ {K V : Type 0} (dec : Discrete K) where
  pub keys-Avoids : (k : K) (m : HashMap K V) → get dec k m ≡ none → Avoids k (keys m)
  unfolding get
  keys-Avoids k [] h = tt
  keys-Avoids k ((j, v) ∷ m) h = (ground (arith, h), keys-Avoids k m (ground (arith, h)))

  pub keys-NoRepeats : (m : HashMap K V) → IsDistinct dec m → NoRepeats (keys m)
  keys-NoRepeats [] h = tt
  keys-NoRepeats ((j, v) ∷ m) h = (keys-Avoids j m h.0, keys-NoRepeats m h.1)

  keys-get : (k : K) (m : HashMap K V) → Any (λ j. j ≡ k) (keys m) → get dec k m ≢ none
  unfolding get
  keys-get k [] h e = absurd h
  keys-get k ((j, v) ∷ m) (inl same) e = ground (arith, same, e)
  keys-get k ((j, v) ∷ m) (inr h) e = keys-get k m h (ground (arith, e))

  get-keys : (k : K) (m : HashMap K V) → get dec k m ≢ none → Any (λ j. j ≡ k) (keys m)
  unfolding get
  get-keys k [] h = absurd (h refl)
  get-keys k ((j, v) ∷ m) h = ground (arith, get-keys k m, h)

  -- The keys are those that are found.
  pub keys-found : (k : K) (m : HashMap K V) → Any (λ j. j ≡ k) (keys m) ↔ (get dec k m ≢ none)
  keys-found k m = (keys-get k m, get-keys k m)

  -- With distinct keys, each entry is what its key finds.
  pub entries-found :
      (m : HashMap K V) → IsDistinct dec m → AllEntries (λ k v. get dec k m ≡ some v) m
  unfolding get
  entries-found [] h = tt
  entries-found ((k, v) ∷ m) h = (
    ground arith,
    AllEntries-mono (λ j w. get dec j m ≡ some w) (λ j w. get dec j ((k, v) ∷ m) ≡ some w) m
        (λ j w e. ground (arith, h.0, e)) (entries-found m h.1),
  )
