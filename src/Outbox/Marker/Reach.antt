-- ===== src/Outbox/Marker/Reach.antt =====
-- The operations of internal/outbox/outbox.go as steps of one table, in any order and with any
-- arguments, and what holds of every table that they reach.
use lawang.Prelude.{
  take-nil, min, Bool-cases, inl, inr, ◌==◌, any-eq_true_of, filter-eq_nil, ℕ, ◌≡◌, sym, Bool, not,
  ◌&&◌, List, [], Option, some, In, Text, arith, ok,
}
use lawang.Outbox.{bad_argument, Row, Table, Claimed, empty, unfinished, visible, of_key}
use lawang.Outbox.Cause.{Cause}
use lawang.Outbox.Ladder.{Ladder}
use lawang.Outbox.Queries.{stranded_rows}
use lawang.Outbox.RecordQueries.{PreparedRecord}
use lawang.Outbox.Operations.{max_batch, Delivery, ParkReason, accept, park, claim, release}
use lawang.Outbox.Transitions.{
  DeadRecord, prepare_in, mark_delivered, halt, fail, mark_dead, mark_abandoned, replay,
  stranded_keys, group_keys,
}
use lawang.Outbox.Marker.{IsWellFormed, SameKey, SameKey-of_key}
use lawang.Outbox.Marker.Entry.{
  refuse-ok, tenant_tx-ok, accept-IsWellFormed, park-IsWellFormed, claim-IsWellFormed,
  release-IsWellFormed, halt-IsWellFormed,
}
use lawang.Outbox.Marker.Exit.{
  prepare_in-IsWellFormed, mark_delivered-IsWellFormed, mark_dead_for-IsWellFormed,
  fail-IsWellFormed, replay-IsWellFormed,
}

-- One transaction of the ingress, of a worker or of an operator. A Claimed is any value at all: a
-- lease that ran out, or one of another tenant, is a step too where the code lets it through.
pub data Step (sum : Text → Text) : Table → Table → Type 0 where
  accepts :
      {t : Table} (now : ℕ) (id tenant : Text) (d : Delivery) (o : Option Text) (s : Table)
      → accept sum now id tenant d t ≡ ok (o, s)
      → Step sum t s
  parks :
      {t : Table} (now : ℕ) (id provider body : Text) (reason : ParkReason) (o : Option Text)
      (s : Table)
      → park sum now id provider body reason t ≡ ok (o, s)
      → Step sum t s
  claims :
      {t : Table} (now : ℕ) (locked : Text → Bool) (batch lease : ℕ) (token : Text)
      (cs : List Claimed) (s : Table)
      → claim now locked batch lease token t ≡ ok (cs, s)
      → Step sum t s
  releases : {t : Table} (c : Claimed) (s : Table) → release c t ≡ ok s → Step sum t s
  prepares :
      {t : Table} (now : ℕ) (bound : Text) (c : Claimed) (recs : List PreparedRecord) (s : Table)
      → prepare_in now bound c recs t ≡ ok s
      → Step sum t s
  delivers :
      {t : Table} (now : ℕ) (c : Claimed) (dead : List DeadRecord) (s : Table)
      → mark_delivered now c dead t ≡ ok s
      → Step sum t s
  halts :
      {t : Table} (now : ℕ) (c : Claimed) (pause : ℕ) (cause : Cause) (s : Table)
      → halt now c pause cause t ≡ ok s
      → Step sum t s
  fails :
      {t : Table} (now : ℕ) (c : Claimed) (ladder : Ladder) (cause : Cause) (s : Table)
      → fail now c ladder cause t ≡ ok s
      → Step sum t s
  kills :
      {t : Table} (now : ℕ) (c : Claimed) (cause : Cause) (s : Table)
      → mark_dead now c cause t ≡ ok s
      → Step sum t s
  abandons :
      {t : Table} (now : ℕ) (c : Claimed) (s : Table) → mark_abandoned now c t ≡ ok s → Step sum t s
  replays :
      {t : Table} (now : ℕ) (tenant id : Text) (s : Table)
      → replay now tenant id t ≡ ok s
      → Step sum t s

-- The tables that the operations reach from the empty one.
pub data Reach (sum : Text → Text) : Table → Type 0 where
  start : Reach sum empty
  later : {t s : Table} → Reach sum t → Step sum t s → Reach sum s

Step-IsWellFormed :
    (sum : Text → Text) {t s : Table} → Step sum t s → IsWellFormed t → IsWellFormed s
unfolding mark_dead mark_abandoned
Step-IsWellFormed sum (accepts {t} now id tenant d o s e) v =
    accept-IsWellFormed sum now id tenant d t e v
Step-IsWellFormed sum (parks {t} now id provider body reason o s e) v =
    park-IsWellFormed sum now id provider body reason t e v
Step-IsWellFormed sum (claims {t} now locked batch lease token cs s e) v =
    claim-IsWellFormed now locked batch lease token t e v
Step-IsWellFormed sum (releases {t} c s e) v = release-IsWellFormed c t e v
Step-IsWellFormed sum (prepares {t} now bound c recs s e) v =
    prepare_in-IsWellFormed now bound c recs t e v
Step-IsWellFormed sum (delivers {t} now c dead s e) v = mark_delivered-IsWellFormed now c dead t e v
Step-IsWellFormed sum (halts {t} now c pause cause s e) v =
    halt-IsWellFormed now c pause cause t e v
Step-IsWellFormed sum (fails {t} now c ladder cause s e) v =
    fail-IsWellFormed now c ladder cause t e v
Step-IsWellFormed sum (kills {t} now c cause s e) v = mark_dead_for-IsWellFormed now c _ cause t e v
Step-IsWellFormed sum (abandons {t} now c s e) v = mark_dead_for-IsWellFormed now c _ _ t e v
Step-IsWellFormed sum (replays {t} now tenant id s e) v = replay-IsWellFormed now tenant id t e v

empty-IsWellFormed : IsWellFormed empty
empty-IsWellFormed = record {
  ids_differ = λ r u m _ _. absurd m;
  seqs_differ = λ r u m _ _. absurd m;
  seqs_below = λ r m. absurd m;
  head_unfinished = λ r m _. absurd m;
  head_first = λ r u m _ _ _ _. absurd m;
  has_head = λ r m _. absurd m;
  leased_head = λ r token m _. absurd m;
}

-- In every table that accept, park, claim, release, prepare, deliver, halt, fail, kill, abandon and
-- replay reach from the empty one, in any order and with any arguments, row ids and seqs differ,
-- every head is unfinished and the first of its key, every key with an unfinished row has a head,
-- and only heads are leased.
pub Reach-IsWellFormed : (sum : Text → Text) {t : Table} → Reach sum t → IsWellFormed t
Reach-IsWellFormed sum start = empty-IsWellFormed
Reach-IsWellFormed sum (later r st) = Step-IsWellFormed sum st (Reach-IsWellFormed sum r)

-- In every reachable table, two rows of one ordering key that hold leases are one row: two rows of
-- a key are never in flight together.
pub never_two_leased :
    (sum : Text → Text) {t : Table}
    → Reach sum t
    → (r u : Row) (a b : Text) → In r t.rows
    → In u t.rows
    → SameKey r u
    → r.lease_token ≡ some a
    → u.lease_token ≡ some b
    → r ≡ u
never_two_leased sum {t} reach r u a b hr hu s la lb =
    let v = Reach-IsWellFormed sum reach in
    let hr' = v.leased_head r a hr la in
    let hu' = v.leased_head u b hu lb in
    v.seqs_differ r u hr hu (
      omega (
        arith,
        v.head_first r u hr hu hr' (v.head_unfinished u hu hu') s,
        v.head_first u r hu hr hu' (v.head_unfinished r hr hr') (sym s.0, sym s.1),
      ))

no_stranded_rows : (tenant : Text) (t : Table) → IsWellFormed t → stranded_rows tenant t ≡ []
unfolding stranded_rows
no_stranded_rows tenant t v = filter-eq_nil _ t.rows λ r m.
    elim (Bool-cases (visible tenant r && (unfinished r.state && not r.is_head))) [
      | inl q ↦
          let (h, hh, e, s) = v.has_head r m (ground arith) in
          let seen =
            any-eq_true_of (λ h. of_key r.tenant_id r.ordering_key h && h.is_head) t.rows h hh
              (rw (SameKey-of_key r.tenant_id r.ordering_key h s.0 s.1) e) in
          rw (q, seen)
      | inr q ↦ rw q
    ]

-- In every reachable table, StrandedKeys finds no key for any tenant: no unfinished row waits behind
-- nothing.
pub stranded_keys_nil :
    (sum : Text → Text) {t : Table}
    → Reach sum t
    → (tenant : Text) (limit : ℕ) {keys : List Text} → stranded_keys tenant limit t ≡ ok keys
    → keys ≡ []
unfolding stranded_keys group_keys
stranded_keys_nil sum {t} reach tenant limit e =
    let none_left = no_stranded_rows tenant t (Reach-IsWellFormed sum reach) in
    let k = tenant_tx-ok tenant _ t (refuse-ok (limit == 0) bad_argument _ e) in
    let k' = rw none_left at k in ground (arith, take-nil {A = Text} (min limit max_batch))
