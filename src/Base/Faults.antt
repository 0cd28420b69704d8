-- ===== src/Base/Faults.antt =====
-- Rust code returns or panics. The faults are the panics of the program: an `unwrap` on `None` or
-- `Err`, an `expect`, and the explicit `panic!` and `todo!` calls.
use mathlib.Core.Path.{◌≡◌, refl}
use mathlib.Core.Bool.{Bool, true, false}
use mpconn.Base.Tests.{if◌then◌else◌}

pub data Fault : Type 0 where
  -- `duration_since(…).unwrap()` with a clock that stands before the recorded time
  clock_went_backwards : Fault
  -- `self.peers.get(&peer_id).unwrap()`
  unknown_peer : Fault
  -- `send(…).unwrap()` on a channel with no receiver
  no_receiver : Fault
  -- `recv()` gave `None` or `Closed`
  channel_closed : Fault
  -- `serialize(…).unwrap()`
  not_serializable : Fault
  -- `unwrap` of an I/O result, of an absent item of a stream, or a panic on an I/O error
  io_failure : Fault
  -- `decompress_size_prepended(…).unwrap()`
  not_decompressible : Fault
  -- a slice that is longer than the buffer it is copied into
  buffer_overflow : Fault
  -- `todo!()`
  unimplemented : Fault

pub data Outcome {ℓ} (A : Type ℓ) : Type ℓ where
  done : A → Outcome A
  panic : Fault → Outcome A

infixl 5 ◌>>=◌
abbrev pub ◌>>=◌ {ℓ κ} : {A : Type ℓ} {B : Type κ} → Outcome A → (A → Outcome B) → Outcome B
done a >>= f = f a
panic e >>= f = panic e

-- `result.unwrap()` or `.expect(…)` on a call whose value is not used
abbrev pub check : Bool → Outcome (Unit {0})
check true = done tt
check false = panic io_failure

-- The computation returns, and what it returns satisfies `P`.
abbrev pub Returns {ℓ} : {A : Type ℓ} → (A → Type 0) → Outcome A → Type 0
Returns P (done a) = P a
Returns P (panic e) = ⊥

pub >>=-Returns {ℓ κ} :
    {A : Type ℓ} {B : Type κ} (P : A → Type 0) (Q : B → Type 0) (m : Outcome A) (f : A → Outcome B)
    → Returns P m
    → ((a : A) → P a → Returns Q (f a))
    → Returns Q (m >>= f)
>>=-Returns P Q (done a) f h k = k a h
>>=-Returns P Q (panic e) f h k = absurd h

pub Returns-mono {ℓ} :
    {A : Type ℓ} (P Q : A → Type 0) (m : Outcome A)
    → Returns P m
    → ((a : A) → P a → Q a)
    → Returns Q m
Returns-mono P Q (done a) h k = k a h
Returns-mono P Q (panic e) h k = absurd h

-- If the computation returns, what it returns satisfies `P`.
abbrev pub Yields {ℓ} : {A : Type ℓ} → (A → Type 0) → Outcome A → Type 0
Yields P (done a) = P a
Yields P (panic e) = Unit

pub >>=-Yields {ℓ κ} :
    {A : Type ℓ} {B : Type κ} (P : A → Type 0) (Q : B → Type 0) (m : Outcome A) (f : A → Outcome B)
    → Yields P m
    → ((a : A) → P a → Yields Q (f a))
    → Yields Q (m >>= f)
>>=-Yields P Q (done a) f h k = k a h
>>=-Yields P Q (panic e) f h k = tt

-- Whatever the first step gives.
pub >>=-Yields_always {ℓ κ} :
    {A : Type ℓ} {B : Type κ} (Q : B → Type 0) (m : Outcome A) (f : A → Outcome B)
    → ((a : A) → Yields Q (f a))
    → Yields Q (m >>= f)
>>=-Yields_always Q (done a) f k = k a
>>=-Yields_always Q (panic e) f k = tt

pub Yields-if {ℓ} :
    {A : Type ℓ} (P : A → Type 0) (b : Bool) (m n : Outcome A)
    → Yields P m
    → Yields P n
    → Yields P (if b then m else n)
Yields-if P true m n h k = h
Yields-if P false m n h k = k

pub Yields-Returns {ℓ} :
    {A : Type ℓ} (P Q : A → Type 0) (m : Outcome A) → Yields P m → Returns Q m → Returns P m
Yields-Returns P Q (done a) h k = h
Yields-Returns P Q (panic e) h k = absurd k

module _ {ℓ κ} {A : Type ℓ} {B : Type κ} where
  pub bind_cong :
      (m : Outcome A) (f g : A → Outcome B) → ((a : A) → f a ≡ g a) → (m >>= f) ≡ (m >>= g)
  bind_cong (done a) f g h = h a
  bind_cong (panic e) f g h = refl

module _ {ℓ κ μ} {A : Type ℓ} {B : Type κ} {C : Type μ} where
  pub bind_assoc :
      (m : Outcome A) (f : A → Outcome B) (g : B → Outcome C)
      → (m >>= f >>= g) ≡ (m >>= λ a. f a >>= g)
  bind_assoc (done a) f g = refl
  bind_assoc (panic e) f g = refl

-- What returns has returned at each step.
pub bind-done {ℓ κ} :
    {A : Type ℓ} {B : Type κ} (m : Outcome A) (f : A → Outcome B) (b : B)
    → (m >>= f) ≡ done b
    → (a : A) × (m ≡ done a) × (f a ≡ done b)
bind-done (done a) f b e = (a, refl, e)
bind-done (panic fault) f b e = absurd cc

pub done-injective {ℓ} : {A : Type ℓ} (a b : A) → done a ≡ done b → a ≡ b
done-injective a b e = cc

pub check-true : (b : Bool) → check b ≡ done tt → b ≡ true
check-true true e = refl
check-true false e = cc
