-- ===== src/Outbox/Marker/Entry.antt =====
-- internal/outbox/outbox.go: an operation that answers leaves a well-formed table. Here the ones that
-- store a row, claim it and give it back.
use lawang.Prelude.{
  if◌then◌else◌, ltb, ◌||◌, ◌==◌, ◌>>◌, length, min, ℕ, ◌≡◌, subst, Bool, true, false, not, List,
  Option, none, some, Text, arith, Result, ok, >>=-eq_ok, refuse,
}
use lawang.Tenancy
use lawang.Ids
use lawang.Outbox.{Table, Claimed, Error, bad_ordering_key, bad_provider, bad_argument, lease_lost}
use lawang.Outbox.Cause.{Cause}
use lawang.Outbox.Queries.{claim_rows}
use lawang.Outbox.Operations.{
  max_batch, Delivery, ParkReason, accept, accept_in, max_ordering_key_len, max_batch, storable,
  minted, reasoned, park_reason_text, keeps_body, body_not_kept, claims, park, claim, release,
  tenant_tx, held, transition,
}
use lawang.Outbox.Transitions.{halt}
use lawang.Outbox.Marker.{IsWellFormed}
use lawang.Outbox.Marker.Statements.{
  accept_row-IsWellFormed, park_row-IsWellFormed, claim_rows-IsWellFormed, halt_row-IsWellFormed,
  release_row-IsWellFormed,
}

-- A statement on the records leaves the rows alone.
pub records-IsWellFormed :
    (t s : Table) → s.rows ≡ t.rows → s.next_seq ≡ t.next_seq → IsWellFormed t → IsWellFormed s
records-IsWellFormed t s e n v = record {
  ids_differ = rw e v.ids_differ;
  seqs_differ = rw e v.seqs_differ;
  seqs_below = rw (e, n) v.seqs_below;
  head_unfinished = rw e v.head_unfinished;
  head_first = rw e v.head_first;
  has_head = rw e v.has_head;
  leased_head = rw e v.leased_head;
}

-- What a check leaves, once it has passed.
pub refuse-ok :
    {A : Type 0} (bad : Bool) (x : Error) (m : Result Error A) {a : A}
    → (refuse bad x >> m) ≡ ok a
    → m ≡ ok a
refuse-ok true x m e = cc
refuse-ok false x m e = e

-- A transaction that answers has bound its tenant, and ran its body.
pub tenant_tx-ok :
    {A : Type 0} (tenant : Text) (body : Table → Result Error A) (t : Table) {a : A}
    → tenant_tx tenant body t ≡ ok a
    → body t ≡ ok a
unfolding tenant_tx
tenant_tx-ok tenant body t e = ground arith

pub transition-ok :
    (c : Claimed) (change : Table → Result Error Table) (t : Table) {s : Table}
    → transition c change t ≡ ok s
    → change t ≡ ok s
unfolding transition
transition-ok c change t e =
    tenant_tx-ok c.tenant change t (refuse-ok (length c.token == 0) lease_lost _ e)

pub held-ok : (o : Option Table) {s : Table} → held o ≡ ok s → o ≡ some s
unfolding held
held-ok none e = cc
held-ok (some t) e = ground arith

pub accept-IsWellFormed :
    (sum : Text → Text) (now : ℕ) (id tenant : Text) (d : Delivery) (t : Table)
    {o : Option Text × Table}
    → accept sum now id tenant d t ≡ ok o
    → IsWellFormed t
    → IsWellFormed o.1
unfolding accept accept_in
accept-IsWellFormed sum now id tenant d t e v =
    let k = tenant_tx-ok tenant (accept_in sum now id tenant d) t e in
    let k' =
      refuse-ok
        (length d.ordering_key == 0
          || (ltb max_ordering_key_len (length d.ordering_key) || not (storable d.ordering_key)))
        bad_ordering_key _ k in
    let (delivery, _, k'') = >>=-eq_ok (minted (Ids.delivery_id sum d.provider d.raw_body)) _ k' in
    let r = refuse-ok (not (storable d.provider)) bad_provider _ k'' in
    accept_row-IsWellFormed now id tenant d.provider delivery d.ordering_key d.raw_body t r v

pub park-IsWellFormed :
    (sum : Text → Text) (now : ℕ) (id provider body : Text) (reason : ParkReason) (t : Table)
    {o : Option Text × Table}
    → park sum now id provider body reason t ≡ ok o
    → IsWellFormed t
    → IsWellFormed o.1
unfolding park
park-IsWellFormed sum now id provider body reason t e v =
    let (why, _, k) = >>=-eq_ok (reasoned (park_reason_text reason)) _ e in
    let (body_id, _, k') = >>=-eq_ok (minted (Ids.delivery_id sum provider body)) _ k in
    let k'' = refuse-ok (not (storable provider)) bad_provider _ k' in
    let stored = if keeps_body reason then body else body_not_kept body_id (length body) in
    let (delivery, _, r) = >>=-eq_ok (minted (Ids.delivery_id sum provider stored)) _ k'' in
    park_row-IsWellFormed now id Tenancy.sentinel provider delivery stored why t
      (tenant_tx-ok Tenancy.sentinel _ t r) v

pub claim-IsWellFormed :
    (now : ℕ) (locked : Text → Bool) (batch lease : ℕ) (token : Text) (t : Table)
    {o : List Claimed × Table}
    → claim now locked batch lease token t ≡ ok o
    → IsWellFormed t
    → IsWellFormed o.1
unfolding claim
claim-IsWellFormed now locked batch lease token t e v =
    let k = refuse-ok (batch == 0 || lease == 0) bad_argument _ e in
    let (claimed, _, r) =
      >>=-eq_ok (claims token (claim_rows now locked (min batch max_batch) lease token t).0) _ k in
    subst IsWellFormed (ground arith)
      (claim_rows-IsWellFormed now locked (min batch max_batch) lease token t v)

pub release-IsWellFormed :
    (c : Claimed) (t : Table) {s : Table} → release c t ≡ ok s → IsWellFormed t → IsWellFormed s
unfolding release
release-IsWellFormed c t e v =
    release_row-IsWellFormed c.tenant c.id c.token t (held-ok _ (transition-ok c _ t e)) v

pub halt-IsWellFormed :
    (now : ℕ) (c : Claimed) (pause : ℕ) (cause : Cause) (t : Table) {s : Table}
    → halt now c pause cause t ≡ ok s
    → IsWellFormed t
    → IsWellFormed s
unfolding halt
halt-IsWellFormed now c pause cause t e v =
    let k = refuse-ok (pause == 0) bad_argument _ e in
    halt_row-IsWellFormed now c.tenant c.id c.token pause _ t (held-ok _ (transition-ok c _ t k)) v
