-- ===== src/Outbox/RecordQueries.antt =====
-- The SQL statements of internal/outbox/outboxdb/queries.sql.go on `outbox_record`, the records
-- that a delivery was prepared into.
use lawang.Prelude.{
  ℕ, ◌+◌, Bool, false, ◌&&◌, ◌||◌, List, [], ◌∷◌, ◌++◌, map, Option, none, some, if◌then◌else◌, any,
  filter, Text, text_eq, Result, ok, err,
}
use lawang.Outbox.{
  ltb, RecordRow, Table, waiting, landed, refused, Error, constraint_violation, is_waiting,
  is_refused,
}
use lawang.Outbox.Queries.{records_of}

-- One record of a delivery, as the worker hands it over and reads it back.
pub record PreparedRecord : Type 0 where
  pub record_id : Text
  pub document : Text
  pub op : Text
  pub kind : Text

unfoldable pub update_records : (RecordRow → Bool) → (RecordRow → RecordRow) → Table → Table
update_records p f t = record t { records = map (λ x. if p x then f x else x) t.records }

-- A record that still waits for its delivery.
unfoldable pub awaits : Text → Text → Table → RecordRow → Bool
awaits tenant id t x = records_of tenant id t x && is_waiting x.state

unfoldable pub named : Text → RecordRow → Bool
named record_id x = text_eq x.record_id record_id

unfoldable pub refused_record : ℕ → Text → Text → RecordRow → RecordRow
refused_record now reason error x = record x {
  state = refused;
  dead_reason = reason;
  last_error = error;
  finished_at = some now;
}

-- MarkRecordDead: `none` where it changed no row.
unfoldable pub mark_record_dead : ℕ → Text → Text → Text → Text → Text → Table → Option Table
mark_record_dead now tenant id record_id reason error t =
    if any (λ x. awaits tenant id t x && named record_id x) t.records
    then some (
        update_records (λ x. awaits tenant id t x && named record_id x)
          (refused_record now reason error) t)
    else none

unfoldable pub landed_record : ℕ → RecordRow → RecordRow
landed_record now x = record x { state = landed; finished_at = some now }

-- MarkRecordsDelivered.
unfoldable pub mark_records_delivered : ℕ → Text → Text → Table → Table
mark_records_delivered now tenant id t = update_records (awaits tenant id t) (landed_record now) t

unfoldable pub revived_record : RecordRow → RecordRow
revived_record x = record x {
  state = waiting;
  dead_reason = [];
  last_error = [];
  finished_at = none;
}

-- ReviveDeadRecords.
unfoldable pub revive_dead_records : Text → Text → Table → Table
revive_dead_records tenant id t =
    update_records (λ x. records_of tenant id t x && is_refused x.state) revived_record t

-- The rows of StorePreparedRecords: `pos` counts from 0.
stored_records : Text → ℕ → List PreparedRecord → List RecordRow
stored_records id n [] = []
stored_records id n (r ∷ rs) = row ∷ stored_records id (n + 1) rs
  where
    row : RecordRow
    row = record {
      outbox_id = id;
      record_id = r.record_id;
      pos = n;
      document = r.document;
      op = r.op;
      kind = r.kind;
      state = waiting;
      dead_reason = [];
      last_error = [];
      finished_at = none;
    }

-- A record id named twice breaks the primary key (outbox_id, record_id).
has_twin : List RecordRow → Bool
has_twin [] = false
has_twin (x ∷ xs) =
    any (λ y. text_eq y.outbox_id x.outbox_id && text_eq y.record_id x.record_id) xs || has_twin xs

-- StorePreparedRecords. The primary key refuses the insert as a whole.
unfoldable pub store_prepared_records : Text → List PreparedRecord → Table → Result Error Table
unfolding has_twin stored_records
store_prepared_records id recs t =
    let records = stored_records id 0 recs ++ t.records in
    if has_twin records then err constraint_violation else ok (record t { records = records })

reads : RecordRow → PreparedRecord
reads x = record { record_id = x.record_id; document = x.document; op = x.op; kind = x.kind }

insert_pos : RecordRow → List RecordRow → List RecordRow
insert_pos x [] = x ∷ []
insert_pos x (y ∷ ys) =
    let later = y ∷ insert_pos x ys in if ltb x.pos y.pos then x ∷ y ∷ ys else later

sort_pos : List RecordRow → List RecordRow
unfolding insert_pos
sort_pos [] = []
sort_pos (x ∷ xs) = insert_pos x (sort_pos xs)

-- PreparedRecords, `ORDER BY pos`.
unfoldable pub prepared_records_of : Text → Text → Table → List PreparedRecord
unfolding sort_pos reads
prepared_records_of tenant id t = map reads (sort_pos (filter (awaits tenant id t) t.records))
