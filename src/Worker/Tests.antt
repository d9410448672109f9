-- ===== src/Worker/Tests.antt =====
-- Runs of internal/worker/worker.go on the table with one accepted delivery.
use lawang.Prelude.{
  ◌⊎◌, ℕ, ◌≡◌, true, false, List, [], ◌∷◌, map, none, Text, text, Result, ok, err, refl, ◌↔◌,
}
use lawang.Sink.{Rejection, result}
use lawang.Outbox.{Row, Table, State, Claimed, delivered}
use lawang.Outbox.Operations.{Work, work, claim}
use lawang.Outbox.Landing.{LandsNothing}
use lawang.Outbox.Ladder.{exhausted}
use lawang.Worker.Landing.{IsAnswered, work_row_needs_the_sink}
use lawang.Outbox.Cause.{new_cause, sink_rejected}
use lawang.Outbox.Ladder.{default_ladder}
use lawang.Outbox.RecordQueries.{PreparedRecord}
use lawang.Outbox.Tests.{unlocked, stored}
use lawang.Worker.{Calls, Schedule, once, dead_records, work_row, ready_records, ready}
use lawang.Worker.Signed.{pos, negsuc}
use lawang.Worker.Options.{Options}
use lawang.Worker.Verdicts.{AreDistinct, AreOffered, verdict_of, dead_records_accepts}

abbrev task : PreparedRecord
task = record {
  record_id = text "rec_1";
  document = text "{}";
  op = text "upsert";
  kind = text "task";
}

abbrev note : PreparedRecord
note = record {
  record_id = text "rec_2";
  document = text "{}";
  op = text "upsert";
  kind = text "comment";
}

abbrev refusal : Rejection
refusal = record { id = text "rec_2"; cause = new_cause sink_rejected; detail = [] }

-- A provider with one task and one note, and a sink that refuses the note.
abbrev calls : Calls Text
calls = record {
  normalize = λ tenant provider id body. ok body;
  prepare = λ tenant n. ok (task ∷ note ∷ []);
  reopen = λ s provider tenant. true;
  has_sink = λ tenant. true;
  sink_deliver = λ tenant recs. result (refusal ∷ []);
  others = λ t. t;
}

abbrev opts : Schedule
opts = record { ladder = default_ladder; halt_pause = 60 }

abbrev ran : Result lawang.Outbox.Error (ℕ × Table)
ran = once calls opts (λ n. false) unlocked 20 30 5 120 (text "k1") stored

abbrev table_after : Result lawang.Outbox.Error (ℕ × Table) → Table
table_after (ok (n, t)) = t
table_after (err e) = lawang.Outbox.empty

worked : ran ≡ ok (1, table_after ran)
unfolding stored once
worked = refl

states : List Row → List State
states [] = []
states (r ∷ rs) = r.state ∷ states rs

worked_states : states (table_after ran).rows ≡ delivered ∷ []
unfolding stored once states lawang.Worker.work_batch lawang.Worker.work_row
    lawang.Outbox.Ladder.exhausted lawang.Outbox.Operations.work lawang.Worker.ready_records
    lawang.Worker.ready_pending lawang.Worker.prepare_tx lawang.Worker.deliver
    lawang.Worker.on_answer lawang.Worker.on_verdict dead_records lawang.Worker.dead_records_from
    lawang.Worker.offers lawang.Worker.was_seen lawang.Worker.after
worked_states = refl

-- Options that leave all but the batch open, which is -1.
abbrev no_options : Options
no_options = record {
  pool = pos 0;
  batch = negsuc 0;
  lease = pos 0;
  row_timeout = pos 0;
  poll = pos 0;
  halt_pause = pos 0;
  ladder = none;
}

dead_records_accepts_example :
    (dead_records (refusal ∷ []) (task ∷ note ∷ []) ≡ ok (verdict_of refusal ∷ [])) ↔ (
      (verdict_of refusal ∷ [] ≡ map verdict_of (refusal ∷ []))
      × AreDistinct (refusal ∷ [])
      × AreOffered (refusal ∷ []) (task ∷ note ∷ []))
dead_records_accepts_example =
    dead_records_accepts (refusal ∷ []) (task ∷ note ∷ []) (verdict_of refusal ∷ [])

abbrev working : Claimed
working = record { id = text "r1"; tenant = text "acme"; attempt = 1; token = text "k1" }

-- The table while the row is leased, under the lease `working`.
claimed_table : Table
claimed_table = claimed_of (claim 20 unlocked 5 120 (text "k1") stored)
  where
    claimed_of : Result lawang.Outbox.Error (List Claimed × Table) → Table
    claimed_of (ok (cs, t)) = t
    claimed_of (err e) = lawang.Outbox.empty

work_row_needs_the_sink_example :
    LandsNothing (text "r1") claimed_table (work_row calls opts 20 30 working claimed_table)
    ⊎ ((w : Work) × (recs : List PreparedRecord) × (s : Table) × (exhausted opts.ladder 1 ≡ false)
        × (work working claimed_table ≡ ok w)
        × (ready_records calls opts 20 working w claimed_table ≡ ready recs s)
        × IsAnswered calls opts (text "acme") recs)
work_row_needs_the_sink_example =
    work_row_needs_the_sink calls opts 20 30 working (text "r1") claimed_table (λ u x. x)
