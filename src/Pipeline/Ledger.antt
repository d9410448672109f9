-- ===== src/Pipeline/Ledger.antt =====
-- internal/pipeline/ledger.go: the ledger stage, which links each record to the one it supersedes,
-- over the statements of internal/pipeline/pipelinedb/queries.sql.go. The advisory locks of the
-- entities make each admission one step of the table.
pub mod Versions
pub mod Decimal
pub mod Chain
pub mod Locks
mod Tests
use lawang.Prelude.{
  ℕ, Bool, true, false, ◌&&◌, ◌||◌, not, List, [], ◌∷◌, map, Option, none, some, ltb, if◌then◌else◌,
  any, find, length, Text, text_eq, Order, less, Result, ok, err,
}
use lawang.Pipeline.Ledger.Versions.{VersionOrder, compare_versions}

-- A row of the table `record_ledger`.
pub record LedgerRow : Type 0 where
  pub tenant_id : Text
  pub record_id : Text
  pub provider : Text
  pub external_id : Text
  pub version : Text
  pub scope : Text
  pub supersedes : Option Text
  pub is_head : Bool

-- What the stage reads and writes of a record: `scope` is `Visibility.Scope`.
pub record Record : Type 0 where
  pub id : Text
  pub external_id : Text
  pub version : Text
  pub scope : Text
  pub supersedes : Option Text

-- What was decided of a record that is not refused.
pub data Admission : Type 0 where
  prepare : Record → Admission
  skip stale : Admission

pub data LedgerError : Type 0 where
  scope_returned version_not_comparable constraint_violation : LedgerError

unfoldable pub same_entity : Text → Text → Text → LedgerRow → Bool
same_entity tenant provider external_id r =
    text_eq r.tenant_id tenant && (text_eq r.provider provider && text_eq r.external_id external_id)

unfoldable pub is_head_of : Text → Text → Text → LedgerRow → Bool
is_head_of tenant provider external_id r = same_entity tenant provider external_id r && r.is_head

-- EntityHead.
unfoldable pub entity_head : Text → Text → Text → List LedgerRow → Option LedgerRow
entity_head tenant provider external_id rows = find (is_head_of tenant provider external_id) rows

unfoldable pub is_entry : Text → Text → LedgerRow → Bool
is_entry tenant record_id r = text_eq r.tenant_id tenant && text_eq r.record_id record_id

-- LedgerEntry: the row of a record id.
unfoldable pub ledger_entry : Text → Text → List LedgerRow → Option LedgerRow
ledger_entry tenant record_id rows = find (is_entry tenant record_id) rows

-- DemoteEntityHead.
unfoldable pub demote_entity_head : Text → Text → Text → List LedgerRow → List LedgerRow
demote_entity_head tenant provider external_id rows =
    map (λ r. if is_head_of tenant provider external_id r then record r { is_head = false } else r)
      rows

abbrev pub empty : Text → Bool
empty [] = true
empty (b ∷ bs) = false

abbrev pub names : Text → Option Text → Bool
names id none = false
names id (some s) = text_eq s id

-- The checks of a row: no empty column, an external id of at most 2048 bytes, no link to itself.
unfoldable pub breaks_check : LedgerRow → Bool
breaks_check r =
    ((empty r.record_id || empty r.provider)
      || (empty r.external_id || ltb 2048 (length r.external_id)))
    || ((empty r.version || empty r.scope) || names r.record_id r.supersedes)

-- InsertLedgerEntry, with the primary key (tenant, record id) and the index of one head per entity.
unfoldable pub insert_ledger_entry :
    LedgerRow → List LedgerRow → Result LedgerError (List LedgerRow)
insert_ledger_entry row rows =
    if breaks_check row
      || (any (is_entry row.tenant_id row.record_id) rows
          || any (is_head_of row.tenant_id row.provider row.external_id) rows)
    then err constraint_violation
    else ok (row ∷ rows)

unfoldable pub entry_of : Text → Text → Record → LedgerRow
entry_of tenant provider r = record {
  tenant_id = tenant;
  record_id = r.id;
  provider = provider;
  external_id = r.external_id;
  version = r.version;
  scope = r.scope;
  supersedes = r.supersedes;
  is_head = true;
}

-- The record takes the head of its entity: it is written, and goes to the sink.
unfoldable pub write_head :
    Text → Text → Record → List LedgerRow → Result LedgerError (Admission × List LedgerRow)
write_head tenant provider r rows = elim (insert_ledger_entry (entry_of tenant provider r) rows) [
  | err e ↦ err e
  | ok rows' ↦ ok (prepare r, rows')
]

unfoldable pub is_less : Order → Bool
is_less less = true
is_less _ = false

abbrev pub superseding : Record → Option LedgerRow → Record
superseding r none = r
superseding r (some h) = record r { supersedes = some h.record_id }

-- What becomes of a record whose id the ledger holds, in the row `k`.
unfoldable pub admit_known :
    Record
    → LedgerRow
    → Option LedgerRow
    → List LedgerRow
    → Result LedgerError (Admission × List LedgerRow)
admit_known r k none rows = ok (skip, rows)
admit_known r k (some h) rows =
    if not k.is_head && not (text_eq h.scope r.scope) then err scope_returned else ok (skip, rows)

-- What becomes of a record whose id is new. `decode` are base64.StdEncoding and RawStdEncoding.
unfoldable pub admit_new :
    (Text → Option Text) × (Text → Option Text)
    → VersionOrder
    → Text
    → Text
    → Record
    → Option LedgerRow
    → List LedgerRow
    → Result LedgerError (Admission × List LedgerRow)
admit_new decode versions tenant provider r none rows = write_head tenant provider r rows
admit_new decode versions tenant provider r (some h) rows =
    elim (compare_versions decode versions r.version h.version) [
      | none ↦ err version_not_comparable
      | some order ↦
          if is_less order
          then ok (stale, rows)
          else write_head tenant provider (superseding r (some h))
              (demote_entity_head tenant provider r.external_id rows)
    ]

-- admit. An error leaves the table as it was: the transaction of the delivery is rolled back.
unfoldable pub admit :
    (Text → Option Text) × (Text → Option Text)
    → VersionOrder
    → Text
    → Text
    → Record
    → List LedgerRow
    → Result LedgerError (Admission × List LedgerRow)
admit decode versions tenant provider r rows =
    let head = entity_head tenant provider r.external_id rows in
    elim (ledger_entry tenant r.id rows) [
      | some k ↦ admit_known r k head rows
      | none ↦ admit_new decode versions tenant provider r head rows
    ]
