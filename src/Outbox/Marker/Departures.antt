-- ===== src/Outbox/Marker/Departures.antt =====
-- MarkDelivered, MarkDead and Replay of internal/outbox/outboxdb/queries.sql.go keep the table well
-- formed, with PromoteNextHead behind the first two.
use lawang.Prelude.{
  ℕ, ◌≡◌, refl, sym, subst, ◌∙◌, inl, inr, true, false, none, some, In, any, find, any-eq_true,
  find-eq_some, Text, text_eq_iff, arith, Bool-cases, Option-cases,
}
use lawang.Outbox.{Row, Table, unfinished, has_id, visible}
use lawang.Outbox.Queries.{
  update, finish_held, held_row, mark_delivered_row, finished_delivered, mark_dead_row,
  finished_dead, replay_row, revived, replayable, promote_next_head,
}
use lawang.Outbox.Marker.{IsWellFormed}
use lawang.Outbox.Marker.Promote.{IsBetween, promote_next_head-IsWellFormed}
use lawang.Outbox.Marker.Finish.{Only, Leaves, leave-IsBetween}
use lawang.Outbox.Marker.Return.{Returns, return-IsWellFormed}

held_row-eq :
    (tenant id token : Text) (r : Row)
    → held_row tenant id token r ≡ true
    → (r.tenant_id ≡ tenant) × (r.id ≡ id) × (unfinished r.state ≡ true)
unfolding held_row visible has_id
held_row-eq tenant id token r h =
    ground (arith, text_eq_iff r.tenant_id tenant, text_eq_iff r.id id)

held_row-Only :
    (tenant id token : Text) (t : Table) (r : Row)
    → IsWellFormed t
    → In r t.rows
    → held_row tenant id token r ≡ true
    → Only (held_row tenant id token) t.rows r
held_row-Only tenant id token t r v m h u mu hu =
    v.ids_differ u r mu m
      ((held_row-eq tenant id token u hu).1 ∙ sym (held_row-eq tenant id token r h).1)

finish_held-some :
    (tenant id token : Text) (f : Row → Row) (t : Table) (r : Row) (key : Text) (s : Table)
    → find (held_row tenant id token) t.rows ≡ some r
    → finish_held tenant id token f t ≡ some (key, s)
    → (key ≡ r.ordering_key) × (s ≡ update (held_row tenant id token) f t)
unfolding finish_held
finish_held-some tenant id token f t r key s q e = ground arith

finish_held-none :
    (tenant id token : Text) (f : Row → Row) (t : Table)
    → find (held_row tenant id token) t.rows ≡ none
    → finish_held tenant id token f t ≡ none
unfolding finish_held
finish_held-none tenant id token f t q = ground arith

finish_held-IsBetween :
    (tenant id token : Text) (f : Row → Row) (t : Table) {key : Text} {s : Table}
    → ((r : Row) → Leaves f r)
    → finish_held tenant id token f t ≡ some (key, s)
    → IsWellFormed t
    → IsBetween tenant key s
finish_held-IsBetween tenant id token f t {key} {s} leaves e v =
    elim (Option-cases (find (held_row tenant id token) t.rows)) [
      | inl q ↦ absurd (cc (finish_held-none tenant id token f t q))
      | inr (r, q) ↦
          let (m, h) = find-eq_some (held_row tenant id token) t.rows r q in
          let (ek, es) = finish_held-some tenant id token f t r key s q e in
          let (ht, _, _) = held_row-eq tenant id token r h in
          let b =
            leave-IsBetween (held_row tenant id token) f t r m h
              (held_row-Only tenant id token t r v m h) (leaves r) v in
          subst (λ (k : Text). IsBetween tenant k s) (sym ek)
            (subst (λ (u : Table). IsBetween tenant r.ordering_key u) (sym es)
              (subst
                (λ (n : Text). IsBetween n r.ordering_key (update (held_row tenant id token) f t))
                ht b))
    ]

-- A delivered row hands its marker on.
pub mark_delivered_row-IsWellFormed :
    (now : ℕ) (tenant id token : Text) (t : Table) {key : Text} {s : Table}
    → mark_delivered_row now tenant id token t ≡ some (key, s)
    → IsWellFormed t
    → IsWellFormed (promote_next_head tenant key s)
unfolding mark_delivered_row finished_delivered
mark_delivered_row-IsWellFormed now tenant id token t e v =
    promote_next_head-IsWellFormed _ _ _
      (finish_held-IsBetween tenant id token (finished_delivered now) t (λ r. ground arith) e v)

-- A dead row hands its marker on.
pub mark_dead_row-IsWellFormed :
    (now : ℕ) (tenant id token reason error : Text) (t : Table) {key : Text} {s : Table}
    → mark_dead_row now tenant id token reason error t ≡ some (key, s)
    → IsWellFormed t
    → IsWellFormed (promote_next_head tenant key s)
unfolding mark_dead_row finished_dead
mark_dead_row-IsWellFormed now tenant id token reason error t e v =
    promote_next_head-IsWellFormed _ _ _ (
      finish_held-IsBetween tenant id token (finished_dead now reason error) t (λ r. ground arith) e
        v)

replayable-eq :
    (tenant id : Text) (t : Table) (r : Row)
    → replayable tenant id t r ≡ true
    → (r.id ≡ id) × (unfinished r.state ≡ false)
unfolding replayable has_id
replayable-eq tenant id t r h = ground (arith, text_eq_iff r.id id)

-- A finished row holds no lease, so neither does the row that comes back.
revived-Returns :
    (now : ℕ) (t : Table) (r : Row)
    → IsWellFormed t
    → In r t.rows
    → unfinished r.state ≡ false
    → Returns t (revived now t) r
unfolding revived
revived-Returns now t r v m h = record {
  was_finished = h;
  id_same = refl;
  tenant_same = refl;
  key_same = refl;
  at_back = refl;
  reopened = ground arith;
  head_if_idle = refl;
  not_leased = elim (Option-cases r.lease_token) [
    | inl q ↦ q
    | inr (token, q) ↦ ground (arith, v.leased_head r token m q, v.head_unfinished r m)
  ];
}

-- A replayed row goes to the back of its queue.
pub replay_row-IsWellFormed :
    (now : ℕ) (tenant id : Text) (t : Table) {s : Table}
    → replay_row now tenant id t ≡ some s
    → IsWellFormed t
    → IsWellFormed s
unfolding replay_row
replay_row-IsWellFormed now tenant id t {s} e v =
    elim (Bool-cases (any (replayable tenant id t) t.rows)) [
      | inl q ↦
          let (r, m, h) = any-eq_true (replayable tenant id t) t.rows q in
          let (hi, hf) = replayable-eq tenant id t r h in
          subst IsWellFormed (ground arith) (
            return-IsWellFormed (replayable tenant id t) (revived now t) t r m h
              (λ u mu hu. v.ids_differ u r mu m ((replayable-eq tenant id t u hu).0 ∙ sym hi))
              (revived-Returns now t r v m hf) v)
      | inr q ↦ ground arith
    ]
