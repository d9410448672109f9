-- ===== src/Outbox/Landing.antt =====
-- Which operations of internal/outbox/outbox.go leave a row undelivered.
use lawang.Prelude.{
  ℕ, ◌≡◌, refl, sym, ◌∙◌, inl, inr, Bool, Bool-cases, List, [], ◌∷◌, Option, none, some,
  Option-cases, In, Text, arith, ok, >>=-eq_ok, length, ◌==◌, if◌then◌else◌, map, find, subst,
}
use lawang.Outbox.{Row, Table, Claimed, delivered, lease_lost, bad_argument}
use lawang.Outbox.Cause.{Cause, cause_string}
use lawang.Outbox.Ladder.{Ladder, next}
use lawang.Outbox.Queries.{
  update, promote, promote_next_head, finish_held, update_held, mark_dead_row, retry_row, halt_row,
  mark_prepared_row, finished_dead, retried, halted, marked_prepared, first_of, busy, preparable,
  held_row,
}
use lawang.Outbox.RecordQueries.{PreparedRecord, store_prepared_records}
use lawang.Outbox.Operations.{clip, held}
use lawang.Outbox.Transitions.{
  prepare_in, check_prepared, store_all, halt, mark_dead_for, fail, reason_retries_exhausted,
}
use lawang.Outbox.Marker.Entry.{refuse-ok, transition-ok, held-ok}
use lawang.Outbox.Marker.Exit.{finish_in-ok}

-- The table holds a delivered row of this id.
abbrev pub IsLanded : Text → List Row → Type 0
IsLanded id rows = (q : Row) × In q rows × (q.id ≡ id) × (q.state ≡ delivered)

-- No row of this id is delivered in `u` that was not in `t`.
abbrev pub LandsNothing : Text → Table → Table → Type 0
LandsNothing id t u = IsLanded id u.rows → IsLanded id t.rows

-- A change of one row that does not deliver it.
abbrev Spares : (Row → Row) → Type 0
Spares f = (r : Row) → ((f r).id ≡ r.id) × ((f r).state ≡ delivered → r.state ≡ delivered)

update-LandsNothing :
    (id : Text) (p : Row → Bool) (f : Row → Row) (t : Table)
    → Spares f
    → LandsNothing id t (update p f t)
unfolding update
update-LandsNothing id p f t h (q, m, i, e) = go t.rows m
  where
    go : (rows : List Row) → In q (map (λ x. if p x then f x else x) rows) → IsLanded id rows
    go [] m = absurd m
    go (x ∷ xs) (inr n) = let (u, k, j, d) = go xs n in (u, inr k, j, d)
    go (x ∷ xs) (inl k) = elim (Bool-cases (p x)) [
      | inl b ↦
          let changed : q ≡ f x = k ∙ rw b refl in
          (
            x,
            inl refl,
            sym (h x).0 ∙ subst (λ z. z.id ≡ id) changed i,
            (h x).1 (subst (λ z. z.state ≡ delivered) changed e),
          )
      | inr b ↦
          let same_row : q ≡ x = k ∙ rw b refl in
          (
            x,
            inl refl,
            subst (λ z. z.id ≡ id) same_row i,
            subst (λ z. z.state ≡ delivered) same_row e,
          )
    ]

promote-LandsNothing : (id : Text) (o : Option Row) (t : Table) → LandsNothing id t (promote o t)
unfolding promote
promote-LandsNothing id none t h = h
promote-LandsNothing id (some n) t h = update-LandsNothing id _ _ t (λ r. (refl, λ e. e)) h

update_held-LandsNothing :
    (id tenant own token : Text) (f : Row → Row) (t s : Table)
    → Spares f
    → update_held tenant own token f t ≡ some s
    → LandsNothing id t s
unfolding update_held
update_held-LandsNothing id tenant own token f t s h e =
    let done : s ≡ update (held_row tenant own token) f t = ground arith in
    rw done (update-LandsNothing id (held_row tenant own token) f t h)

mark_dead_row-LandsNothing :
    (id : Text) (now : ℕ) (tenant own token reason error key : Text) (t s : Table)
    → mark_dead_row now tenant own token reason error t ≡ some (key, s)
    → LandsNothing id t s
unfolding mark_dead_row finish_held finished_dead
mark_dead_row-LandsNothing id now tenant own token reason error key t s e =
    elim (Option-cases (find (held_row tenant own token) t.rows)) [
      | inl n ↦ absurd (ground (arith, n))
      | inr (r, n) ↦
          let done : s ≡ update (held_row tenant own token) (finished_dead now reason error) t =
            ground (arith, n) in
          rw done (
            update-LandsNothing id (held_row tenant own token) (finished_dead now reason error) t
              (λ x. (refl, λ q. absurd (ground arith))))
    ]

pub mark_dead_for-LandsNothing :
    (id : Text) (now : ℕ) (c : Claimed) (reason : Text) (cause : Cause) (t s : Table)
    → mark_dead_for now c reason cause t ≡ ok s
    → LandsNothing id t s
unfolding mark_dead_for promote_next_head
mark_dead_for-LandsNothing id now c reason cause t s e landed =
    let (key, u, h, q) = finish_in-ok c _ t (transition-ok c _ t e) in
    mark_dead_row-LandsNothing id now c.tenant c.id c.token reason (clip (cause_string cause)) key t
      u (ground arith)
      (promote-LandsNothing id (first_of (busy c.tenant key) u.rows) u
        (subst (λ (z : Table). IsLanded id z.rows) q landed))

pub fail-LandsNothing :
    (id : Text) (now : ℕ) (c : Claimed) (ladder : Ladder) (cause : Cause) (t s : Table)
    → fail now c ladder cause t ≡ ok s
    → LandsNothing id t s
unfolding fail retry_row retried
fail-LandsNothing id now c ladder cause t s e = elim (Option-cases (next ladder c.attempt)) [
  | inl q ↦
      mark_dead_for-LandsNothing id now c reason_retries_exhausted cause t s (rw (q, fail) at e)
  | inr (delay, q) ↦
      let k = rw (q, fail) at e in
      update_held-LandsNothing id c.tenant c.id c.token (retried now delay _) t s
        (λ x. (refl, λ d. d)) (held-ok _ (transition-ok c _ t k))
]

pub halt-LandsNothing :
    (id : Text) (now : ℕ) (c : Claimed) (pause : ℕ) (cause : Cause) (t s : Table)
    → halt now c pause cause t ≡ ok s
    → LandsNothing id t s
unfolding halt halt_row halted
halt-LandsNothing id now c pause cause t s e =
    let k = refuse-ok (pause == 0) bad_argument _ e in
    update_held-LandsNothing id c.tenant c.id c.token (halted now pause _) t s (λ x. (refl, λ d. d))
      (held-ok _ (transition-ok c _ t k))

pub prepare_in-LandsNothing :
    (id : Text) (now : ℕ) (bound : Text) (c : Claimed) (recs : List PreparedRecord) (t s : Table)
    → prepare_in now bound c recs t ≡ ok s
    → LandsNothing id t s
unfolding prepare_in mark_prepared_row marked_prepared store_all store_prepared_records
prepare_in-LandsNothing id now bound c recs t s e =
    let k = refuse-ok (length c.token == 0) lease_lost _ e in
    let (u, h, k') = >>=-eq_ok (held (mark_prepared_row now bound c.id c.token t)) _ k in
    let (_, _, r) = >>=-eq_ok (check_prepared recs) _ k' in
    let marked : u ≡ update (preparable bound c.id c.token) (marked_prepared now) t =
      done u (held-ok _ h) in
    let still = store_all-rows c.id recs u s r in
    λ landed.
      update-LandsNothing id (preparable bound c.id c.token) (marked_prepared now) t
        (λ x. (refl, λ q. absurd (ground arith)))
        (subst (λ (z : Table). IsLanded id z.rows) marked (subst (IsLanded id) still landed))
  where
    done :
        (u : Table)
        → mark_prepared_row now bound c.id c.token t ≡ some u
        → u ≡ update (preparable bound c.id c.token) (marked_prepared now) t
    done u h = ground arith

    store_all-rows :
        (own : Text) (recs : List PreparedRecord) (u s : Table)
        → store_all own recs u ≡ ok s
        → s.rows ≡ u.rows
    store_all-rows own [] u s r = ground arith
    store_all-rows own (x ∷ xs) u s r = ground arith
