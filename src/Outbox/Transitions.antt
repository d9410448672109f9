-- ===== src/Outbox/Transitions.antt =====
-- internal/outbox/outbox.go: the operations of the worker on a row that it holds, and the replay.
use lawang.Prelude.{
  less, same, more, compare_text, compare_text, ℕ, ◌||◌, not, List, [], ◌∷◌, Option, none, some,
  ◌==◌, take, length, min, Text, text, Result, ok, err, refuse, ◌>>=◌, ◌>>◌,
}
use lawang.Outbox.{
  Row, Table, Claimed, Error, lease_lost, not_found, no_such_record, bad_argument,
  bad_prepared_record,
}
use lawang.Outbox.Cause.{Cause, worker_lost, new_cause, cause_string}
use lawang.Outbox.Ladder.{Ladder, next}
use lawang.Outbox.Queries.{
  retry_row, halt_row, mark_prepared_row, mark_delivered_row, mark_dead_row, replay_row,
  stranded_rows,
}
use lawang.Outbox.RecordQueries.{
  PreparedRecord, mark_record_dead, mark_records_delivered, revive_dead_records,
  store_prepared_records, prepared_records_of,
}
use lawang.Outbox.Operations.{storable, clip, tenant_tx, held, transition, finish_in, max_batch}

-- `record.RecordID == "" || !storable(…)`, then the same of op and kind, for each record.
unfoldable pub check_prepared : List PreparedRecord → Result Error (Unit {0})
check_prepared [] = ok tt
check_prepared (r ∷ rs) = do
  refuse (length r.record_id == 0 || not (storable r.record_id)) bad_prepared_record
  refuse
      ((length r.op == 0 || not (storable r.op)) || (length r.kind == 0 || not (storable r.kind)))
      bad_prepared_record
  check_prepared rs

-- No statement is sent for no record.
unfoldable pub store_all : Text → List PreparedRecord → Table → Result Error Table
store_all id [] t = ok t
store_all id (r ∷ rs) t = store_prepared_records id (r ∷ rs) t

-- In the caller's transaction, which is bound to the tenant `bound`.
unfoldable pub prepare_in : ℕ → Text → Claimed → List PreparedRecord → Table → Result Error Table
unfolding check_prepared store_all
prepare_in now bound c recs t = do
  refuse (length c.token == 0) lease_lost
  t' ← held (mark_prepared_row now bound c.id c.token t)
  check_prepared recs
  store_all c.id recs t'

unfoldable pub prepared_records : Claimed → Table → Result Error (List PreparedRecord)
prepared_records c t = tenant_tx c.tenant (λ t. ok (prepared_records_of c.tenant c.id t)) t

pub record DeadRecord : Type 0 where
  pub record_id : Text
  pub cause : Cause

abbrev pub reason_retries_exhausted : Text
reason_retries_exhausted = text "retries exhausted"

abbrev pub reason_not_retryable : Text
reason_not_retryable = text "not retryable"

abbrev pub reason_abandoned : Text
reason_abandoned = text "attempts exhausted without a recorded failure"

-- One turn of the loop: the record must be one that still waits.
unfoldable pub refuse_record : ℕ → Claimed → DeadRecord → Table → Result Error Table
refuse_record now c d t =
    elim (mark_record_dead now c.tenant c.id d.record_id reason_not_retryable
      (clip (cause_string d.cause)) t) [ none ↦ err no_such_record | some t' ↦ ok t' ]

-- The loop over the refused records.
unfoldable pub mark_records_dead : ℕ → Claimed → List DeadRecord → Table → Result Error Table
mark_records_dead now c [] t = ok t
mark_records_dead now c (d ∷ dead) t = do
  t' ← refuse_record now c d t
  mark_records_dead now c dead t'

unfoldable pub mark_delivered_in : ℕ → Claimed → List DeadRecord → Table → Result Error Table
mark_delivered_in now c dead = finish_in c λ t. do
  t' ← mark_records_dead now c dead t
  ok (mark_delivered_row now c.tenant c.id c.token (mark_records_delivered now c.tenant c.id t'))

unfoldable pub mark_delivered : ℕ → Claimed → List DeadRecord → Table → Result Error Table
mark_delivered now c dead = transition c (mark_delivered_in now c dead)

unfoldable pub halt : ℕ → Claimed → ℕ → Cause → Table → Result Error Table
halt now c pause cause t = do
  refuse (pause == 0) bad_argument
  transition c (λ t. held (halt_row now c.tenant c.id c.token pause (clip (cause_string cause)) t))
      t

unfoldable pub mark_dead_for : ℕ → Claimed → Text → Cause → Table → Result Error Table
mark_dead_for now c reason cause = transition c (
    finish_in c
      λ t. ok (mark_dead_row now c.tenant c.id c.token reason (clip (cause_string cause)) t))

-- The next rung of the ladder, or the end of it.
unfoldable pub fail : ℕ → Claimed → Ladder → Cause → Table → Result Error Table
fail now c ladder cause t = elim (next ladder c.attempt) [
  | none ↦ mark_dead_for now c reason_retries_exhausted cause t
  | some delay ↦
      transition c
        (λ t. held (retry_row now c.tenant c.id c.token delay (clip (cause_string cause)) t)) t
]

unfoldable pub mark_dead : ℕ → Claimed → Cause → Table → Result Error Table
mark_dead now c cause = mark_dead_for now c reason_not_retryable cause

unfoldable pub mark_abandoned : ℕ → Claimed → Table → Result Error Table
mark_abandoned now c = mark_dead_for now c reason_abandoned (new_cause worker_lost)

unfoldable pub replayed : Text → Text → Option Table → Result Error Table
replayed tenant id none = err not_found
replayed tenant id (some t) = ok (revive_dead_records tenant id t)

unfoldable pub replay : ℕ → Text → Text → Table → Result Error Table
unfolding replayed
replay now tenant id t = do
  refuse (not (storable id)) not_found
  tenant_tx tenant (λ t. replayed tenant id (replay_row now tenant id t)) t

-- GROUP BY and ORDER BY of the keys.
insert_key : Text → List Text → List Text
insert_key k [] = k ∷ []
insert_key k (j ∷ js) =
    let later = j ∷ insert_key k js in
    elim (compare_text k j) [ less ↦ k ∷ j ∷ js | same ↦ j ∷ js | more ↦ later ]

unfoldable pub group_keys : List Row → List Text
unfolding insert_key
group_keys [] = []
group_keys (r ∷ rs) = insert_key r.ordering_key (group_keys rs)

unfoldable pub stranded_keys : Text → ℕ → Table → Result Error (List Text)
unfolding group_keys
stranded_keys tenant limit t = do
  refuse (limit == 0) bad_argument
  tenant_tx tenant (λ t. ok (take (min limit max_batch) (group_keys (stranded_rows tenant t)))) t
