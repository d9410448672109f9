-- ===== src/Pipeline/Stages/Tests.antt =====
-- A delivery of internal/pipeline/pipeline.go that carries one record twice.
use lawang.Prelude.{
  false, some, ◌⊎◌, text_eq, ℕ, ◌+◌, ◌≡◌, refl, List, [], ◌∷◌, true, Option, none, In, length, Text,
  text, Result, ok, err,
}
use lawang.Pipeline.Ledger.{
  LedgerRow, Record, entry_of, Admission, prepare, skip, admit, entity_head, scope_returned,
}
use lawang.Pipeline.Ledger.Versions.{decimal_versions}
use lawang.Pipeline.Stages.{Normalized, Prepared, bound_to, prepare_unmasked}
use lawang.Pipeline.Stages.Counts.{
  IsKnown, prepare_counts_all, never_prepared_twice, Admits, prepared_of, skips, stales,
}

abbrev no_base64 : (Text → Option Text) × (Text → Option Text)
no_base64 = (λ s. none, λ s. none)

abbrev task : Record
task = record {
  id = text "rec_1";
  external_id = text "clickup:t1";
  version = text "9";
  scope = text "clickup:list:1";
  supersedes = none;
}

abbrev twice : Normalized
twice = record {
  provider = text "clickup";
  versions = decimal_versions;
  records = task ∷ task ∷ [];
  automation = 0;
  degraded = 0;
}

abbrev once_prepared : Prepared
once_prepared = record {
  records = task ∷ [];
  skipped = 1;
  stale_ones = 0;
  returned = 0;
  unordered = 0;
  automation = 0;
  degraded = 0;
}

abbrev one_row : List LedgerRow
one_row = entry_of (text "acme") (text "clickup") task ∷ []

twice_run :
    prepare_unmasked no_base64 (λ r. true) (bound_to (text "acme")) (text "acme") twice []
    ≡ ok (once_prepared, one_row)
unfolding prepare_unmasked lawang.Tenancy.parse lawang.Pipeline.Stages.check_bound
    lawang.Pipeline.Stages.check_records lawang.Pipeline.Stages.admit_all
    lawang.Pipeline.Stages.started lawang.Pipeline.Stages.count_admission
    lawang.Pipeline.Ledger.admit lawang.Pipeline.Ledger.admit_new lawang.Pipeline.Ledger.admit_known
    lawang.Pipeline.Ledger.entity_head lawang.Pipeline.Ledger.ledger_entry
    lawang.Pipeline.Ledger.is_head_of lawang.Pipeline.Ledger.is_entry
    lawang.Pipeline.Ledger.same_entity lawang.Pipeline.Ledger.insert_ledger_entry
    lawang.Pipeline.Ledger.entry_of lawang.Pipeline.Ledger.write_head
    lawang.Pipeline.Ledger.breaks_check lawang.Prelude.text_eq
twice_run = refl

prepare_counts_all_example :
    (whats : List Admission) × Admits no_base64 decimal_versions
      (text "acme")
      (text "clickup")
      twice.records
      whats
      []
      one_row
    × (length whats ≡ length twice.records)
    × (once_prepared.records ≡ prepared_of whats)
    × (once_prepared.skipped ≡ skips whats)
    × (once_prepared.stale_ones ≡ stales whats)
    × ((x : Record) → In x once_prepared.records → IsKnown (text "acme") x.id one_row)
prepare_counts_all_example =
    prepare_counts_all no_base64 (λ r. true) (bound_to (text "acme")) (text "acme") twice
      once_prepared [] one_row twice_run

first_run :
    admit no_base64 decimal_versions (text "acme") (text "clickup") task []
    ≡ ok (prepare task, one_row)
unfolding admit lawang.Pipeline.Ledger.ledger_entry lawang.Pipeline.Ledger.admit_new entity_head
    lawang.Pipeline.Ledger.write_head lawang.Pipeline.Ledger.insert_ledger_entry
    lawang.Pipeline.Ledger.breaks_check entry_of
first_run = refl

never_prepared_twice_example :
    (admit no_base64 decimal_versions (text "acme") (text "clickup") task one_row
      ≡ ok (skip, one_row))
    ⊎ ((h : LedgerRow) × (admit no_base64 decimal_versions
            (text "acme")
            (text "clickup")
            task
            one_row
          ≡ err scope_returned)
        × (entity_head (text "acme") (text "clickup") task.external_id one_row ≡ some h)
        × (text_eq h.scope task.scope ≡ false))
never_prepared_twice_example =
    never_prepared_twice no_base64 decimal_versions (text "acme") (text "clickup") task task task []
      [] [] one_row one_row first_run refl refl
