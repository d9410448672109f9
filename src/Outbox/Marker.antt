-- ===== src/Outbox/Marker.antt =====
-- The head marker of internal/outbox: a stored column, which every writer keeps equal to "the
-- unfinished row of its key with the lowest seq" (docs/adr/0010-outbox-head-marker.md).
use lawang.Prelude.{
  ℕ, ◌≤◌, ◌<◌, ◌≡◌, Bool, true, false, ◌&&◌, List, [], ◌∷◌, map, Option, none, some, In, Text,
  arith, text_eq_iff,
}
use lawang.Outbox.{Row, Table, unfinished, of_key}
use lawang.Outbox.Queries.{update}
pub mod Stable
pub mod Insert
pub mod Promote
pub mod Finish
pub mod Return
pub mod Statements
pub mod Departures
pub mod Entry
pub mod Exit
pub mod Reach

-- Two rows of one ordering key of one tenant.
abbrev pub SameKey : Row → Row → Type 0
SameKey r u = (r.tenant_id ≡ u.tenant_id) × (r.ordering_key ≡ u.ordering_key)

pub record IsWellFormed (t : Table) : Type 0 where
  pub ids_differ : (r u : Row) → In r t.rows → In u t.rows → r.id ≡ u.id → r ≡ u
  pub seqs_differ : (r u : Row) → In r t.rows → In u t.rows → r.seq ≡ u.seq → r ≡ u
  pub seqs_below : (r : Row) → In r t.rows → r.seq < t.next_seq
  -- A head is unfinished.
  pub head_unfinished : (r : Row) → In r t.rows → r.is_head ≡ true → unfinished r.state ≡ true
  -- A head is the first of the unfinished rows of its key.
  pub head_first :
      (r u : Row)
      → In r t.rows
      → In u t.rows
      → r.is_head ≡ true
      → unfinished u.state ≡ true
      → SameKey r u
      → r.seq ≤ u.seq
  -- A key with an unfinished row has a head.
  pub has_head :
      (r : Row)
      → In r t.rows
      → unfinished r.state ≡ true
      → (h : Row) × In h t.rows × (h.is_head ≡ true) × SameKey h r
  -- Only a head is leased.
  pub leased_head :
      (r : Row) (token : Text) → In r t.rows → r.lease_token ≡ some token → r.is_head ≡ true

pub of_key-SameKey : (r u : Row) → of_key r.tenant_id r.ordering_key u ≡ true → SameKey r u
unfolding of_key
of_key-SameKey r u h =
    ground (arith, text_eq_iff u.tenant_id r.tenant_id, text_eq_iff u.ordering_key r.ordering_key)

pub SameKey-of_key :
    (tenant key : Text) (u : Row)
    → u.tenant_id ≡ tenant
    → u.ordering_key ≡ key
    → of_key tenant key u ≡ true
unfolding of_key
SameKey-of_key tenant key u h k =
    ground (arith, text_eq_iff u.tenant_id tenant, text_eq_iff u.ordering_key key)

pub of_key-eq :
    (tenant key : Text) (u : Row)
    → of_key tenant key u ≡ true
    → (u.tenant_id ≡ tenant) × (u.ordering_key ≡ key)
unfolding of_key
of_key-eq tenant key u h =
    ground (arith, text_eq_iff u.tenant_id tenant, text_eq_iff u.ordering_key key)
