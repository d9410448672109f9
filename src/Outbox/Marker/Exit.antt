-- ===== src/Outbox/Marker/Exit.antt =====
-- internal/outbox/outbox.go: the ones that prepare, deliver, fail and replay a row.
use lawang.Prelude.{
  ◌==◌, length, ℕ, ◌≡◌, refl, subst, Bool, not, List, [], ◌∷◌, Option, none, some, Text, arith,
  Result, ok, err, >>=-eq_ok,
}
use lawang.Outbox.{RecordRow, Table, Claimed, Error, lease_lost, not_found}
use lawang.Outbox.Cause.{Cause, cause_string}
use lawang.Outbox.Ladder.{Ladder, next}
use lawang.Outbox.Queries.{replay_row, mark_prepared_row, promote_next_head}
use lawang.Outbox.RecordQueries.{
  PreparedRecord, mark_records_delivered, awaits, landed_record, update_records, mark_record_dead,
  revive_dead_records, store_prepared_records,
}
use lawang.Outbox.Operations.{clip, storable, held, finish_in}
use lawang.Outbox.Transitions.{
  reason_retries_exhausted, DeadRecord, prepare_in, mark_delivered, mark_delivered_in,
  mark_records_dead, refuse_record, store_all, check_prepared, replayed, fail, mark_dead_for,
  replay,
}
use lawang.Outbox.Marker.{IsWellFormed}
use lawang.Outbox.Marker.Statements.{retry_row-IsWellFormed, mark_prepared_row-IsWellFormed}
use lawang.Outbox.Marker.Departures.{
  mark_delivered_row-IsWellFormed, mark_dead_row-IsWellFormed, replay_row-IsWellFormed,
}
use lawang.Outbox.Marker.Entry.{
  records-IsWellFormed, refuse-ok, tenant_tx-ok, transition-ok, held-ok,
}

store_all-IsWellFormed :
    (id : Text) (recs : List PreparedRecord) (t : Table) {s : Table}
    → store_all id recs t ≡ ok s
    → IsWellFormed t
    → IsWellFormed s
unfolding store_all store_prepared_records
store_all-IsWellFormed id [] t {s} e v = subst IsWellFormed (ground arith) v
store_all-IsWellFormed id (r ∷ recs) t {s} e v =
    records-IsWellFormed t s (ground arith) (ground arith) v

pub prepare_in-IsWellFormed :
    (now : ℕ) (bound : Text) (c : Claimed) (recs : List PreparedRecord) (t : Table) {s : Table}
    → prepare_in now bound c recs t ≡ ok s
    → IsWellFormed t
    → IsWellFormed s
unfolding prepare_in
prepare_in-IsWellFormed now bound c recs t e v =
    let k = refuse-ok (length c.token == 0) lease_lost _ e in
    let (u, h, k') = >>=-eq_ok (held (mark_prepared_row now bound c.id c.token t)) _ k in
    let (_, _, r) = >>=-eq_ok (check_prepared recs) _ k' in
    store_all-IsWellFormed c.id recs u r
      (mark_prepared_row-IsWellFormed now bound c.id c.token t (held-ok _ h) v)

update_records-IsWellFormed :
    (p : RecordRow → Bool) (f : RecordRow → RecordRow) (t : Table)
    → IsWellFormed t
    → IsWellFormed (update_records p f t)
unfolding update_records
update_records-IsWellFormed p f t = records-IsWellFormed t (update_records p f t) refl refl

refuse_record-IsWellFormed :
    (now : ℕ) (c : Claimed) (d : DeadRecord) (t : Table) {s : Table}
    → refuse_record now c d t ≡ ok s
    → IsWellFormed t
    → IsWellFormed s
unfolding refuse_record mark_record_dead update_records
refuse_record-IsWellFormed now c d t {s} e = records-IsWellFormed t s (ground arith) (ground arith)

mark_records_dead-IsWellFormed :
    (now : ℕ) (c : Claimed) (dead : List DeadRecord) (t : Table) {s : Table}
    → mark_records_dead now c dead t ≡ ok s
    → IsWellFormed t
    → IsWellFormed s
unfolding mark_records_dead
mark_records_dead-IsWellFormed now c [] t e v = subst IsWellFormed (ground arith) v
mark_records_dead-IsWellFormed now c (d ∷ dead) t e v =
    let (u, h, k) = >>=-eq_ok (refuse_record now c d t) _ e in
    mark_records_dead-IsWellFormed now c dead u k (refuse_record-IsWellFormed now c d t h v)

-- A finish that answers has taken a row, and handed the marker on.
pub finish_in-ok :
    (c : Claimed) (finish : Table → Result Error (Option (Text × Table))) (t : Table) {s : Table}
    → finish_in c finish t ≡ ok s
    → (key : Text) × (u : Table) × (finish t ≡ ok (some (key, u)))
      × (s ≡ promote_next_head c.tenant key u)
unfolding finish_in
finish_in-ok c finish t {s} e = let (o, h, k) = >>=-eq_ok (finish t) _ e in go o h k
  where
    go :
        (o : Option (Text × Table))
        → finish t ≡ ok o
        → elim o [ none ↦ err lease_lost | some (key, t') ↦ ok (promote_next_head c.tenant key t') ]
          ≡ ok s
        → (key : Text) × (u : Table) × (finish t ≡ ok (some (key, u)))
          × (s ≡ promote_next_head c.tenant key u)
    go none h k = cc
    go (some (key, u)) h k = (key, u, h, ground arith)

pub mark_delivered-IsWellFormed :
    (now : ℕ) (c : Claimed) (dead : List DeadRecord) (t : Table) {s : Table}
    → mark_delivered now c dead t ≡ ok s
    → IsWellFormed t
    → IsWellFormed s
unfolding mark_delivered mark_delivered_in mark_records_delivered
mark_delivered-IsWellFormed now c dead t e v =
    let (key, u, h, q) = finish_in-ok c _ t (transition-ok c (mark_delivered_in now c dead) t e) in
    let (t', a, b) = >>=-eq_ok (mark_records_dead now c dead t) _ h in
    rw q (
      mark_delivered_row-IsWellFormed now c.tenant c.id c.token
        (mark_records_delivered now c.tenant c.id t') (ground arith)
        (update_records-IsWellFormed (awaits c.tenant c.id t') (landed_record now) t'
          (mark_records_dead-IsWellFormed now c dead t a v)))

pub mark_dead_for-IsWellFormed :
    (now : ℕ) (c : Claimed) (reason : Text) (cause : Cause) (t : Table) {s : Table}
    → mark_dead_for now c reason cause t ≡ ok s
    → IsWellFormed t
    → IsWellFormed s
unfolding mark_dead_for
mark_dead_for-IsWellFormed now c reason cause t e v =
    let (key, u, h, q) = finish_in-ok c _ t (transition-ok c _ t e) in
    rw q (
      mark_dead_row-IsWellFormed now c.tenant c.id c.token reason (clip (cause_string cause)) t
        (ground arith) v)

pub fail-IsWellFormed :
    (now : ℕ) (c : Claimed) (ladder : Ladder) (cause : Cause) (t : Table) {s : Table}
    → fail now c ladder cause t ≡ ok s
    → IsWellFormed t
    → IsWellFormed s
unfolding fail
fail-IsWellFormed now c ladder cause t {s} e v = go (next ladder c.attempt) refl
  where
    go : (o : Option ℕ) → next ladder c.attempt ≡ o → IsWellFormed s
    go none q =
        mark_dead_for-IsWellFormed now c reason_retries_exhausted cause t (rw (q, fail) at e) v
    go (some delay) q =
        let k = rw (q, fail) at e in
        retry_row-IsWellFormed now c.tenant c.id c.token delay _ t
          (held-ok _ (transition-ok c _ t k)) v

pub replay-IsWellFormed :
    (now : ℕ) (tenant id : Text) (t : Table) {s : Table}
    → replay now tenant id t ≡ ok s
    → IsWellFormed t
    → IsWellFormed s
unfolding replay replayed revive_dead_records update_records
replay-IsWellFormed now tenant id t {s} e v =
    let k = refuse-ok (not (storable id)) not_found _ e in
    go (replay_row now tenant id t) refl (tenant_tx-ok tenant _ t k)
  where
    go :
        (o : Option Table)
        → replay_row now tenant id t ≡ o
        → replayed tenant id o ≡ ok s
        → IsWellFormed s
    go none q h = ground arith
    go (some u) q h = subst IsWellFormed (ground arith) (
        records-IsWellFormed u (revive_dead_records tenant id u) refl refl
          (replay_row-IsWellFormed now tenant id t q v))
