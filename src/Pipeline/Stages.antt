-- ===== src/Pipeline/Stages.antt =====
-- Prepare of internal/pipeline/pipeline.go up to the masking: its checks and the admission of the
-- records of one delivery, one after another. The locks of the entities are the database's.
pub mod Counts
mod Tests
use lawang.Prelude.{
  ℕ, ◌+◌, Bool, true, false, ◌&&◌, not, List, [], ◌∷◌, ◌++◌, Option, ltb, if◌then◌else◌, length,
  Text, text_eq, Result, ok, err,
}
use lawang.Tenancy
use lawang.Provider.{is_valid_order}
use lawang.Pipeline.Ledger.{
  Record, LedgerRow, Admission, prepare, skip, stale, LedgerError, scope_returned,
  version_not_comparable, constraint_violation, admit,
}
use lawang.Pipeline.Ledger.Versions.{VersionOrder}

abbrev pub max_external_id_bytes : ℕ
max_external_id_bytes = 2048

-- What Normalize hands on. The two counts are of what it left out and what it could only degrade.
pub record Normalized : Type 0 where
  pub provider : Text
  pub versions : VersionOrder
  pub records : List Record
  pub automation : ℕ
  pub degraded : ℕ

pub record Prepared : Type 0 where
  pub records : List Record
  pub skipped : ℕ
  pub stale_ones : ℕ
  pub returned : ℕ
  pub unordered : ℕ
  pub automation : ℕ
  pub degraded : ℕ

-- What tenancy.Current finds: the tenant that the transaction is bound to, none or no tenant id, or
-- an error of the database.
pub data Bound : Type 0 where
  bound_to : Text → Bound
  unbound current_failed : Bound

pub data PrepareError : Type 0 where
  bad_tenant not_bound bound_unread order_unknown not_sealed external_id_too_long : PrepareError
  in_ledger : LedgerError → PrepareError

-- checkBound.
unfoldable pub check_bound : Bound → Text → Result PrepareError (Unit {0})
check_bound unbound tenant = err not_bound
check_bound current_failed tenant = err bound_unread
check_bound (bound_to b) tenant = if text_eq b tenant then ok record {} else err not_bound

abbrev pub is_nil : List Record → Bool
is_nil [] = true
is_nil (r ∷ rs) = false

-- `sealed` is SealedFor of the tenant.
unfoldable pub check_records : (Record → Bool) → List Record → Result PrepareError (Unit {0})
check_records sealed [] = ok record {}
check_records sealed (r ∷ rs) =
    let rest = check_records sealed rs in
    if not (sealed r)
    then err not_sealed
    else if ltb max_external_id_bytes (length r.external_id)
    then err external_id_too_long
    else rest

-- `failed`: the counts alone.
unfoldable pub failed : Prepared → Prepared
failed out = record out { records = [] }

unfoldable pub count_admission : Admission → Prepared → Prepared
count_admission (prepare linked) out = record out { records = out.records ++ linked ∷ [] }
count_admission skip out = record out { skipped = out.skipped + 1 }
count_admission stale out = record out { stale_ones = out.stale_ones + 1 }

unfoldable pub count_failure : LedgerError → Prepared → Prepared
count_failure scope_returned out = record out { returned = out.returned + 1 }
count_failure version_not_comparable out = record out { unordered = out.unordered + 1 }
count_failure constraint_violation out = out

module _ (decode : (Text → Option Text) × (Text → Option Text)) (versions : VersionOrder)
    (tenant provider : Text) where
  -- The loop over the records.
  unfoldable pub admit_all :
      List Record
      → Prepared
      → List LedgerRow
      → Result (PrepareError × Prepared) (Prepared × List LedgerRow)
  admit_all [] out rows = ok (out, rows)
  admit_all (r ∷ rs) out rows = elim (admit decode versions tenant provider r rows) [
    | err e ↦ err (in_ledger e, failed (count_failure e out))
    | ok (what, more) ↦ admit_all rs (count_admission what out) more
  ]

unfoldable pub started : Normalized → Prepared
started n = record {
  records = [];
  skipped = 0;
  stale_ones = 0;
  returned = 0;
  unordered = 0;
  automation = n.automation;
  degraded = n.degraded;
}

-- Prepare, before the records are masked. A failure carries the counts.
unfoldable pub prepare_unmasked :
    (Text → Option Text) × (Text → Option Text)
    → (Record → Bool)
    → Bound
    → Text
    → Normalized
    → List LedgerRow
    → Result (PrepareError × Prepared) (Prepared × List LedgerRow)
prepare_unmasked decode sealed bound tenant n rows = elim (Tenancy.parse tenant) [
  | err e ↦ err (bad_tenant, failed (started n))
  | ok id ↦ elim (check_bound bound tenant) [
    | err e ↦ err (e, failed (started n))
    | ok u ↦
        if not (is_nil n.records) && not (is_valid_order n.versions)
        then err (order_unknown, failed (started n))
        else elim (check_records sealed n.records) [
          | err e ↦ err (e, failed (started n))
          | ok v ↦ admit_all decode n.versions tenant n.provider n.records (started n) rows
        ]
  ]
]
