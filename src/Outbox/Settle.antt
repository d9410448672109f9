-- ===== src/Outbox/Settle.antt =====
-- internal/outbox/outbox.go, MarkDelivered: a sink's answer settles every record that waits.
use lawang.Prelude.{
  map-id_lem, ℕ, ◌≡◌, refl, sym, ap, ◌∙◌, inl, inr, Bool, false, ◌&&◌, if◌then◌else◌, any, find,
  map, map-map_lem, map-eq_map_of, Bool-cases, List, [], ◌∷◌, none, some, Text, text_eq, arith, ok,
  >>=-eq_ok,
}
use lawang.Outbox.{Row, has_id, visible, RecordRow, Table, Claimed, is_waiting}
use lawang.Outbox.Cause.{cause_string}
use lawang.Outbox.Queries.{
  records_of, update, promote_next_head, promote, finish_held, mark_delivered_row,
  finished_delivered,
}
use lawang.Outbox.RecordQueries.{
  awaits, named, refused_record, landed_record, update_records, mark_record_dead,
  mark_records_delivered,
}
use lawang.Outbox.Operations.{clip}
use lawang.Outbox.Transitions.{
  DeadRecord, reason_not_retryable, refuse_record, mark_records_dead, mark_delivered_in,
  mark_delivered,
}
use lawang.Outbox.Marker.Entry.{transition-ok}
use lawang.Outbox.Marker.Exit.{finish_in-ok}

-- The record as the refusal `d` leaves it.
abbrev refused_as : ℕ → DeadRecord → RecordRow → RecordRow
refused_as now d = refused_record now reason_not_retryable (clip (cause_string d.cause))

-- What the answer says of one record: refused under the cause that names it, or delivered.
pub verdict : ℕ → List DeadRecord → RecordRow → RecordRow
verdict now dead x = elim (find (λ d. named d.record_id x) dead) [
  | none ↦ landed_record now x
  | some d ↦ refused_as now d x
]

-- A record that waited gets its verdict, and any other stays as it is.
pub settled : ℕ → Claimed → List DeadRecord → Table → RecordRow → RecordRow
unfolding verdict
settled now c dead t x = if awaits c.tenant c.id t x then verdict now dead x else x

-- The refusals alone, over the records that `wait` takes.
sifted : ℕ → (RecordRow → Bool) → List DeadRecord → RecordRow → RecordRow
sifted now wait [] x = x
sifted now wait (d ∷ dead) x =
    sifted now wait dead (if wait x && named d.record_id x then refused_as now d x else x)

refuse_record-eq :
    (now : ℕ) (c : Claimed) (d : DeadRecord) (t s : Table)
    → refuse_record now c d t ≡ ok s
    → s ≡ update_records (λ x. awaits c.tenant c.id t x && named d.record_id x) (refused_as now d) t
unfolding refuse_record mark_record_dead
refuse_record-eq now c d t s e = ground arith

-- Whether a record waits depends on its own state and on the rows.
awaits-rows :
    (tenant id : Text) (t s : Table) → s.rows ≡ t.rows → awaits tenant id s ≡ awaits tenant id t
unfolding awaits records_of
awaits-rows tenant id t s e = λ i x.
    (text_eq x.outbox_id id && any (λ o. has_id x.outbox_id o && visible tenant o) (e i))
    && is_waiting x.state

mark_records_dead-eq :
    (now : ℕ) (c : Claimed) (dead : List DeadRecord) (t s : Table)
    → mark_records_dead now c dead t ≡ ok s
    → (s.rows ≡ t.rows) × (s.records ≡ map (sifted now (awaits c.tenant c.id t) dead) t.records)
unfolding mark_records_dead sifted update_records
mark_records_dead-eq now c [] t s e =
    let q : t ≡ s = ground arith in
    (
      ap (λ (u : Table). u.rows) (sym q),
      ap (λ (u : Table). u.records) (sym q) ∙ sym (map-id_lem t.records),
    )
mark_records_dead-eq now c (d ∷ dead) t s e =
    let (u, h, k) = >>=-eq_ok (refuse_record now c d t) (mark_records_dead now c dead) e in
    let q = refuse_record-eq now c d t u h in
    let same : u.rows ≡ t.rows = ap (λ (w : Table). w.rows) q in
    let (r, l) = mark_records_dead-eq now c dead u s k in
    let l' = rw (awaits-rows c.tenant c.id t u same) at l in
    (
      r ∙ same,
      l'
          ∙ ap (map (sifted now (awaits c.tenant c.id t) dead)) (ap (λ (w : Table). w.records) q)
          ∙ map-map_lem _ (sifted now (awaits c.tenant c.id t) dead) t.records,
    )

-- A refused record waits no more, so no later refusal finds it.
sifted_refused :
    (now : ℕ) (tenant id : Text) (t : Table) (dead : List DeadRecord) (d : DeadRecord)
    (x : RecordRow)
    → sifted now (awaits tenant id t) dead (refused_as now d x) ≡ refused_as now d x
unfolding sifted awaits refused_record
sifted_refused now tenant id t [] d x = refl
sifted_refused now tenant id t (d' ∷ dead) d x =
    ground (arith, sifted_refused now tenant id t dead d x)

refused-awaits :
    (now : ℕ) (tenant id : Text) (t : Table) (d : DeadRecord) (x : RecordRow)
    → awaits tenant id t (refused_as now d x) ≡ false
unfolding awaits refused_record
refused-awaits now tenant id t d x = ground arith

-- The refusals and then the deliveries come to the verdict.
sifted-settled :
    (now : ℕ) (c : Claimed) (t : Table) (dead : List DeadRecord) (x : RecordRow)
    → (if awaits c.tenant c.id t (sifted now (awaits c.tenant c.id t) dead x)
        then landed_record now (sifted now (awaits c.tenant c.id t) dead x)
        else sifted now (awaits c.tenant c.id t) dead x)
      ≡ settled now c dead t x
unfolding sifted settled verdict
sifted-settled now c t [] x = refl
sifted-settled now c t (d ∷ dead) x = elim (Bool-cases (awaits c.tenant c.id t x)) [
  | inl w ↦ elim (Bool-cases (named d.record_id x)) [
    | inl n ↦
        ground (
          arith,
          sifted_refused now c.tenant c.id t dead d x,
          refused-awaits now c.tenant c.id t d x,
        )
    | inr n ↦ ground (arith, sifted-settled now c t dead x)
  ]
  | inr w ↦ ground (arith, sifted-settled now c t dead x)
]

-- The record statement of MarkDelivered, and what the rest of it keeps.
finish_held-records :
    (tenant id token : Text) (f : Row → Row) (t : Table) {key : Text} {u : Table}
    → finish_held tenant id token f t ≡ some (key, u)
    → u.records ≡ t.records
unfolding finish_held update
finish_held-records tenant id token f t e = ground arith

promote_next_head-records :
    (tenant key : Text) (t : Table) → (promote_next_head tenant key t).records ≡ t.records
unfolding promote_next_head promote update
promote_next_head-records tenant key t = ground arith

-- MarkDelivered, when it answers, gives every record of the delivery that waited its verdict: refused
-- under the cause of the answer that names it, or delivered. No other record changes.
pub mark_delivered_settles :
    (now : ℕ) (c : Claimed) (dead : List DeadRecord) (t : Table) {s : Table}
    → mark_delivered now c dead t ≡ ok s
    → s.records ≡ map (settled now c dead t) t.records
unfolding mark_delivered mark_delivered_in mark_delivered_row mark_records_delivered update_records
mark_delivered_settles now c dead t {s} e =
    let (key, u, h, q) = finish_in-ok c _ t (transition-ok c (mark_delivered_in now c dead) t e) in
    let (t', a, b) = >>=-eq_ok (mark_records_dead now c dead t) _ h in
    let (r, l) = mark_records_dead-eq now c dead t t' a in
    let k =
      finish_held-records c.tenant c.id c.token (finished_delivered now)
        (mark_records_delivered now c.tenant c.id t') {key = key} {u = u} (ground arith) in
    let k' = rw (awaits-rows c.tenant c.id t t' r, l) at k in
    ap (λ (w : Table). w.records) q
    ∙ promote_next_head-records c.tenant key u
    ∙ k'
    ∙ map-map_lem (sifted now (awaits c.tenant c.id t) dead) _ t.records
    ∙ map-eq_map_of _ _ t.records (λ x m. sifted-settled now c t dead x)
