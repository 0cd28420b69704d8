-- ===== src/Sink.antt =====
-- What the tasks hand to tokio and to the operating system: the sending half of a channel, a file, a
-- socket. `accepts` says whether the environment takes what it is given, that is, whether the call
-- returns `Ok`; the program unwraps that result. `taken` is what was given, oldest first.
use mathlib.Core.List.{append-nil, append_assoc}
use mpconn.Base.{
  ap, Bool, true, ◌≡◌, List, [], ◌∷◌, ◌++◌, if◌then◌else◌, Fault, Outcome, done, panic, All,
  All-append, Yields, Yields-if,
}

pub record Sink (A : Type 0) : Type 0 where
  pub taken : List A
  pub accepts : Bool

unfoldable pub put : {A : Type 0} → Fault → A → Sink A → Outcome (Sink A)
put fault a sink =
    if sink.accepts then done (record sink { taken = sink.taken ++ a ∷ [] }) else panic fault

-- A sink that accepts.
abbrev pub IsOpen : {A : Type 0} → Sink A → Type 0
IsOpen sink = sink.accepts ≡ true

module _ {A : Type 0} where
  abbrev pub extended : List A → Sink A → Sink A
  extended items sink = record sink { taken = sink.taken ++ items }

  pub put-extended :
      (fault : Fault) (a : A) (sink : Sink A)
      → IsOpen sink
      → put fault a sink ≡ done (extended (a ∷ []) sink)
  unfolding put
  put-extended fault a sink h = rw h

  pub extended-nil : (sink : Sink A) → extended [] sink ≡ sink
  extended-nil sink = ap (λ items. record sink { taken = items }) (append-nil sink.taken)

  pub extended-extended :
      (xs ys : List A) (sink : Sink A) → extended ys (extended xs sink) ≡ extended (xs ++ ys) sink
  extended-extended xs ys sink =
      ap (λ items. record sink { taken = items }) (append_assoc sink.taken xs ys)

  pub put-All :
      (P : A → Type 0) (fault : Fault) (a : A) (sink : Sink A)
      → P a
      → All P sink.taken
      → Yields (λ after. All P after.taken) (put fault a sink)
  unfolding put
  put-All P fault a sink h all =
      Yields-if (λ after. All P after.taken) sink.accepts _ (panic fault)
        (All-append P sink.taken (a ∷ []) all (h, tt)) tt
