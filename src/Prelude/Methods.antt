-- ===== src/Prelude/Methods.antt =====
-- Methods that change an object and may throw: the object keeps what was done before the throw.

use ele_fits.Prelude.Outcomes.{Failure, Outcome, fail, ok}

abbrev pub Method : Type 0 → Type 0 → Type 0
Method State Value = State → Outcome Value × State

module _ {State : Type 0} where
  abbrev pub pure : {Value : Type 0} → Value → Method State Value
  pure value state = (ok value, state)

  abbrev pub throw : {Value : Type 0} → Failure → Method State Value
  throw reason state = (fail reason, state)

  abbrev pub gets : {Value : Type 0} → (State → Value) → Method State Value
  gets f state = (ok (f state), state)

  abbrev pub modify : (State → State) → Method State (Unit {0})
  modify f state = (ok tt, f state)

  abbrev pub lift : {Value : Type 0} → Outcome Value → Method State Value
  lift outcome state = (outcome, state)

  abbrev pub and_then :
      {Value Next : Type 0}
      → (Value → Method State Next)
      → Outcome Value × State
      → Outcome Next × State
  and_then later (fail reason, state) = (fail reason, state)
  and_then later (ok value, state) = later value state

  infixl 5 ◌>>=◌ ◌>>◌
  abbrev pub ◌>>=◌ :
      {Value Next : Type 0} → Method State Value → (Value → Method State Next) → Method State Next
  ◌>>=◌ method later state = and_then later (method state)

  abbrev pub ◌>>◌ :
      {Value : Type 0} → Method State (Unit {0}) → Method State Value → Method State Value
  ◌>>◌ method later state = and_then (λ _. later) (method state)
