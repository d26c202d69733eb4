-- ===== src/Connector/Phases/Pdus/Step.antt =====
-- crates/rdpcore-connector/src/lib.rs: `step`, with the PDUs of its input.
use kmsrdp.Prelude.{ℕ, ◌≡◌, true, List}
use kmsrdp.Pdu.Result.{Result}
use kmsrdp.Connector.{State, rejected, Acceptor, Outcome, failed, done, left}
use kmsrdp.Connector.Codecs.{Codecs}
use kmsrdp.Connector.Phases.Pdus.{Effect, succeeds}

module _ (codecs : Codecs) (input : List ℕ) (start : Acceptor) where
  -- What a call does that starts in a state.
  Does : State → Outcome → Type 0
  Does s outcome = Effect codecs input start s (succeeds outcome) (left outcome).state

  -- What a handler does that runs with `Rejected` in the place of the state.
  Handled : State → Outcome → Type 0
  Handled s (failed error after) = after.state ≡ rejected
  Handled s (done result after) = Effect codecs input start s true after.state
