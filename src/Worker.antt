-- ===== src/Worker.antt =====
-- internal/worker/worker.go: the drain, which claims rows of the outbox, has the pipeline prepare
-- their records, offers these to the tenant's sink and records what came back.
-- An operation of the outbox that fails is logged, and leaves the table as it was. The log and the
-- recovery from a panic, which leaves a row to its lease, have no part in the model.
pub mod Options
pub mod Verdicts
pub mod HttpSink
pub mod Landing
mod Signed
mod Tests
use lawang.Prelude.{
  length, ℕ, Bool, true, false, ◌||◌, List, [], ◌∷◌, Option, none, some, if◌then◌else◌, any, Text,
  text, text_eq, Result, ok, err,
}
use lawang.Tenancy
use lawang.Sink.{
  Action, action_unset, action_retry, action_halt, Rejection, Answer, fault, broken, result,
}
use lawang.Outbox.{Table, Claimed, State, is_pending, Error, lease_lost, invalid_tenant}
use lawang.Outbox.Cause.{
  Class, Cause, new_cause, with_code, internal, normalizer, provider_unavailable, sink_unreadable,
}
use lawang.Outbox.Ladder.{Ladder, exhausted}
use lawang.Outbox.RecordQueries.{PreparedRecord}
use lawang.Outbox.Operations.{Work, claim, release, work}
use lawang.Outbox.Transitions.{
  DeadRecord, prepare_in, prepared_records, mark_delivered, halt, fail, mark_dead, mark_abandoned,
}

abbrev pub code_no_sink : Text
code_no_sink = text "no_sink"

abbrev pub code_sink_contract : Text
code_sink_contract = text "sink_contract"

abbrev pub code_stored_record : Text
code_stored_record = text "stored_record"

-- Whether an error of the pipeline wraps ErrDeadLetter.
pub data StageError : Type 0 where
  dead_letter failed_stage : StageError

-- What the drain calls outside of the outbox: the pipeline, the record format and the sinks. `N` is
-- what Normalize returns. `prepare` is Prepare and documentsOf, which end in the same transaction;
-- `others` is what the other users of the table commit while a call to the outside is running.
pub record Calls (N : Type 0) : Type 0 where
  pub normalize : Text → Text → Text → Text → Result StageError N
  pub prepare : Text → N → Result StageError (List PreparedRecord)
  pub reopen : PreparedRecord → Text → Text → Bool
  pub has_sink : Text → Bool
  pub sink_deliver : Text → List PreparedRecord → Answer
  pub others : Table → Table

-- The options that a row's work reads.
pub record Schedule : Type 0 where
  pub ladder : Ladder
  pub halt_pause : ℕ

pub data VerdictError : Type 0 where
  not_in_batch refused_twice : VerdictError

unfoldable pub offers : Text → List PreparedRecord → Bool
offers id recs = any (λ r. text_eq r.record_id id) recs

unfoldable pub was_seen : Text → List Text → Bool
was_seen id seen = any (text_eq id) seen

-- The loop of deadRecords, where `seen` are the ids already refused.
unfoldable pub dead_records_from :
    List Text → List Rejection → List PreparedRecord → Result VerdictError (List DeadRecord)
dead_records_from seen [] offered = ok []
dead_records_from seen (r ∷ rs) offered = elim (offers r.id offered) [
  | false ↦ err not_in_batch
  | true ↦ elim (was_seen r.id seen) [
    | true ↦ err refused_twice
    | false ↦ elim (dead_records_from (r.id ∷ seen) rs offered) [
      | err e ↦ err e
      | ok dead ↦ ok (record { record_id = r.id; cause = r.cause } ∷ dead)
    ]
  ]
]

unfoldable pub dead_records :
    List Rejection → List PreparedRecord → Result VerdictError (List DeadRecord)
dead_records rejected offered = dead_records_from [] rejected offered

-- The table after a transaction that may have failed.
unfoldable pub after : Result Error Table → Table → Table
after (ok s) t = s
after (err e) t = t

unfoldable pub coded : Text → Cause
coded code = with_code (new_cause internal) code

unfoldable pub fail_pipeline : Schedule → ℕ → Claimed → Class → StageError → Table → Table
fail_pipeline opts now c class dead_letter t = after (mark_dead now c (new_cause normalizer) t) t
fail_pipeline opts now c class failed_stage t = after (fail now c opts.ladder (new_cause class) t) t

-- What is recorded of a fault, by its action.
unfoldable pub on_fault : Schedule → ℕ → Claimed → Action → Cause → Table → Table
on_fault opts now c action_retry cause t = after (fail now c opts.ladder cause t) t
on_fault opts now c action_halt cause t = after (halt now c opts.halt_pause cause t) t
on_fault opts now c action_unset cause t =
    after (halt now c opts.halt_pause (coded code_sink_contract) t) t

-- What is recorded of a verdict.
unfoldable pub on_verdict :
    Schedule → ℕ → Claimed → Result VerdictError (List DeadRecord) → Table → Table
on_verdict opts now c (ok dead) t = after (mark_delivered now c dead t) t
on_verdict opts now c (err e) t = after (fail now c opts.ladder (new_cause sink_unreadable) t) t

unfoldable pub on_answer : Schedule → ℕ → Claimed → List PreparedRecord → Answer → Table → Table
on_answer opts now c recs (fault action cause) t = on_fault opts now c action cause t
on_answer opts now c recs broken t =
    after (halt now c opts.halt_pause (coded code_sink_contract) t) t
on_answer opts now c recs (result rejected) t = on_verdict opts now c (dead_records rejected recs) t

-- A failure inside the transaction that prepares a row: of the pipeline, or of the outbox.
pub data TxError : Type 0 where
  in_stage : StageError → TxError
  in_outbox : Error → TxError

-- What a row's records came to: a batch to offer, or nothing more to do.
pub data Ready : Type 0 where
  ready : List PreparedRecord → Table → Ready
  settled : Table → Ready

abbrev pub is_lease_lost : Error → Bool
is_lease_lost lease_lost = true
is_lease_lost _ = false

unfoldable pub on_prepare_error : Schedule → ℕ → Claimed → TxError → Table → Table
on_prepare_error opts now c (in_outbox e) t =
    if is_lease_lost e then t else fail_pipeline opts now c internal failed_stage t
on_prepare_error opts now c (in_stage e) t = fail_pipeline opts now c internal e t

module _ {N : Type 0} (calls : Calls N) (opts : Schedule) where
  -- `now` is the time at which the outcome is recorded, after the sink answered.
  unfoldable pub deliver : ℕ → Claimed → List PreparedRecord → Table → Table
  deliver now c [] t = after (mark_delivered now c [] t) t
  deliver now c (r ∷ rs) t =
      if calls.has_sink c.tenant
      then on_answer opts now c (r ∷ rs) (calls.sink_deliver c.tenant (r ∷ rs)) (calls.others t)
      else after (halt now c opts.halt_pause (coded code_no_sink) t) t

  -- Every stored record opens again.
  unfoldable pub reopens : List PreparedRecord → Text → Text → Bool
  reopens [] provider tenant = true
  reopens (s ∷ ss) provider tenant =
      let rest = reopens ss provider tenant in
      if calls.reopen s provider tenant then rest else false

  -- Pipeline.Prepare, documentsOf and PrepareIn in one transaction of the tenant.
  unfoldable pub prepare_tx : ℕ → Claimed → N → Table → Result TxError (List PreparedRecord × Table)
  prepare_tx now c n t = elim (Tenancy.parse c.tenant) [
    | err e ↦ err (in_outbox invalid_tenant)
    | ok id ↦ elim (calls.prepare c.tenant n) [
      | err e ↦ err (in_stage e)
      | ok recs ↦ elim (prepare_in now c.tenant c recs t) [
        | err e ↦ err (in_outbox e)
        | ok s ↦ ok (recs, s)
      ]
    ]
  ]

  -- A pending row: Normalize, outside of every transaction, then the transaction.
  unfoldable pub ready_pending : ℕ → Claimed → Text → Option Text → Table → Ready
  ready_pending now c provider body t =
      elim (calls.normalize c.tenant provider c.id (elim body [ none ↦ [] | some b ↦ b ])) [
        | err e ↦ settled (fail_pipeline opts now c provider_unavailable e (calls.others t))
        | ok n ↦ elim (prepare_tx now c n (calls.others t)) [
          | err e ↦ settled (on_prepare_error opts now c e (calls.others t))
          | ok (recs, s) ↦ ready recs s
        ]
      ]

  -- A prepared row: its records as the first transaction stored them.
  unfoldable pub ready_stored : ℕ → Claimed → Text → Table → Ready
  ready_stored now c provider t = elim (prepared_records c t) [
    | err e ↦ settled (after (fail now c opts.ladder (new_cause internal) t) t)
    | ok stored ↦
        if reopens stored provider c.tenant
        then ready stored t
        else settled (after (mark_dead now c (coded code_stored_record) t) t)
  ]

  unfoldable pub ready_records : ℕ → Claimed → Work → Table → Ready
  ready_records now c w t =
      if is_pending w.state
      then ready_pending now c w.provider w.body t
      else ready_stored now c w.provider t

  -- workRow: `started` is the time of the transactions before the sink is called, `ended` of those
  -- after.
  unfoldable pub work_row : ℕ → ℕ → Claimed → Table → Table
  work_row started ended c t =
      if exhausted opts.ladder c.attempt
      then after (mark_abandoned started c t) t
      else elim (work c t) [
        | err e ↦ after (fail started c opts.ladder (new_cause internal) t) t
        | ok w ↦ elim (ready_records started c w t) [
          | settled s ↦ s
          | ready recs s ↦ deliver ended c recs s
        ]
      ]

  -- What a stopping drain gives back.
  unfoldable pub release_all : List Claimed → Table → Table
  release_all [] t = t
  release_all (c ∷ cs) t = release_all cs (after (release c t) t)

  -- The batch of one claim, where `stops n` says that the drain is stopping before its row `n`.
  unfoldable pub work_batch : (ℕ → Bool) → ℕ → ℕ → List Claimed → Table → Table
  work_batch stops started ended [] t = t
  work_batch stops started ended (c ∷ cs) t = elim (stops (length cs)) [
    | true ↦ release_all (c ∷ cs) t
    | false ↦ work_batch stops started ended cs (work_row started ended c t)
  ]

  -- once: one claim and its batch, as the table after it and the number of rows claimed.
  unfoldable pub once :
      (ℕ → Bool) → (Text → Bool) → ℕ → ℕ → ℕ → ℕ → Text → Table → Result Error (ℕ × Table)
  once stops locked started ended batch lease token t =
      elim (claim started locked batch lease token t) [
        | err e ↦ err e
        | ok (claimed, s) ↦ ok (length claimed, work_batch stops started ended claimed s)
      ]
