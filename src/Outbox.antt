-- ===== src/Outbox.antt =====
-- internal/outbox: the table that is the queue. This file holds the rows and the errors; the SQL
-- statements (internal/outbox/outboxdb/queries.sql.go) are in Queries, the Go operations over them
-- (internal/outbox/outbox.go) in Operations.
use lawang.Prelude.{
  ℕ, ◌<◌, ◌≡◌, Bool, true, false, ◌&&◌, List, [], Option, none, some, ltb, if◌then◌else◌, Text,
  text_eq, Result,
}
pub mod Cause
pub mod Ladder
pub mod Queries
pub mod RecordQueries
pub mod Operations
pub mod Transitions
pub mod Marker
pub mod Claims
pub mod Progress
pub mod Landing
pub mod Leases
pub mod Duplicates
pub mod Arrivals
pub mod Settle
pub mod Tests

pub data State : Type 0 where
  pending prepared delivered dead : State

-- A row of the table `outbox`. Times are whole units since some origin.
pub record Row : Type 0 where
  pub id : Text
  pub seq : ℕ
  pub tenant_id : Text
  pub provider : Text
  pub delivery_id : Text
  pub ordering_key : Text
  pub raw_body : Text
  pub state : State
  pub is_head : Bool
  pub attempts : ℕ
  pub next_attempt_at : ℕ
  pub lease_until : Option ℕ
  pub lease_token : Option Text
  pub last_error : Text
  pub dead_reason : Text
  pub accepted_at : ℕ
  pub prepared_at : Option ℕ
  pub finished_at : Option ℕ

pub data RecordState : Type 0 where
  waiting landed refused : RecordState

-- A row of the table `outbox_record`: `waiting` is stored as 'prepared', `landed` as 'delivered'
-- and `refused` as 'dead'.
pub record RecordRow : Type 0 where
  pub outbox_id : Text
  pub record_id : Text
  pub pos : ℕ
  pub document : Text
  pub op : Text
  pub kind : Text
  pub state : RecordState
  pub dead_reason : Text
  pub last_error : Text
  pub finished_at : Option ℕ

-- Both tables, and the next value of the identity column `seq`.
pub record Table : Type 0 where
  pub rows : List Row
  pub records : List RecordRow
  pub next_seq : ℕ

abbrev pub empty : Table
empty = record { rows = []; records = []; next_seq = 1 }

-- A leased row, as the worker that leased it holds it.
pub record Claimed : Type 0 where
  pub id : Text
  pub tenant : Text
  pub attempt : ℕ
  pub token : Text

pub data Error : Type 0 where
  lease_lost not_found bad_ordering_key bad_provider no_park_reason no_such_record : Error
  bad_delivery_id bad_argument bad_prepared_record invalid_tenant constraint_violation : Error

-- `state IN ('pending', 'prepared')`.
abbrev pub unfinished : State → Bool
unfinished pending = true
unfinished prepared = true
unfinished delivered = false
unfinished dead = false

abbrev pub is_pending : State → Bool
is_pending pending = true
is_pending _ = false

abbrev pub is_dead : State → Bool
is_dead dead = true
is_dead _ = false

abbrev pub is_delivered : State → Bool
is_delivered delivered = true
is_delivered _ = false

abbrev pub is_waiting : RecordState → Bool
is_waiting waiting = true
is_waiting _ = false

abbrev pub is_refused : RecordState → Bool
is_refused refused = true
is_refused _ = false

-- The generated column `due_at`: GREATEST(next_attempt_at, lease_until), where NULL is ignored.
unfoldable pub due_at : Row → ℕ
due_at r = elim r.lease_until [
  | none ↦ r.next_attempt_at
  | some t ↦ if ltb r.next_attempt_at t then t else r.next_attempt_at
]

-- Row-level security: what a transaction bound to the tenant sees.
unfoldable pub visible : Text → Row → Bool
visible tenant r = text_eq r.tenant_id tenant

-- The rows of one ordering key of one tenant.
unfoldable pub of_key : Text → Text → Row → Bool
of_key tenant key r = text_eq r.tenant_id tenant && text_eq r.ordering_key key

unfoldable pub has_id : Text → Row → Bool
has_id id r = text_eq r.id id
