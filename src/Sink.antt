-- ===== src/Sink.antt =====
-- internal/sink/sink.go: what a sink answers for a batch of records.
pub mod Http
use lawang.Prelude.{List, Text}
use lawang.Outbox.Cause.{Cause}

pub data Action : Type 0 where
  action_unset action_retry action_halt : Action

-- A refusal of one record. `detail` is for the log.
pub record Rejection : Type 0 where
  pub id : Text
  pub cause : Cause
  pub detail : Text

-- The outcome of a call of Deliver: a *Fault, an error that is none, or a DeliveryResult.
pub data Answer : Type 0 where
  fault : Action → Cause → Answer
  broken : Answer
  result : List Rejection → Answer
