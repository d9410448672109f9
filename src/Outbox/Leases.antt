-- ===== src/Outbox/Leases.antt =====
-- internal/outbox/outbox.go: a worker whose lease was taken over changes nothing (ErrLeaseLost).
use lawang.Prelude.{
  text_eq_self, any-eq_true_of, text_eq→eq, any-eq_false_of, find-eq_none_of, ℕ, ◌≡◌, ◌≢◌, refl,
  ◌∙◌, inl, inr, Bool, true, false, ◌==◌, if◌then◌else◌, any, length, min, List, [], ◌∷◌, Option,
  none, some, In, In-map, Text, text_eq, text_eq_iff, arith, Bool-cases, Result, ok, >>=-eq_ok,
}
use lawang.Outbox.{Row, Table, Claimed, Error, lease_lost, bad_argument, has_id}
use lawang.Outbox.Cause.{Cause, cause_string}
use lawang.Outbox.Ladder.{Ladder, next}
use lawang.Outbox.Queries.{
  update_held, finish_held, released, halted, retried, preparable, mark_prepared_row, mark_dead_row,
  mark_delivered_row, finished_dead, finished_delivered, release_row, halt_row, retry_row,
  claim_batch, claim_rows, update, leased, held_row, token_is,
}
use lawang.Outbox.RecordQueries.{
  PreparedRecord, mark_record_dead, update_records, mark_records_delivered,
}
use lawang.Outbox.Operations.{clip, claim, release, max_batch, held}
use lawang.Outbox.Transitions.{
  reason_retries_exhausted, mark_records_dead, refuse_record, mark_delivered_in, DeadRecord,
  prepare_in, mark_delivered, halt, fail, mark_dead_for, mark_dead, mark_abandoned,
}
use lawang.Outbox.Marker.{IsWellFormed}
use lawang.Outbox.Marker.Statements.{claim_batch-claimable}
use lawang.Outbox.Marker.Entry.{refuse-ok, transition-ok}
use lawang.Outbox.Claims.{claims-In, IsLeaseOf, claim-eq}
use lawang.Outbox.Marker.Exit.{finish_in-ok}

-- The operation answers on no table: it fails, and its transaction leaves the table as it was.
abbrev pub IsRefused : (Table → Result Error Table) → Table → Type 0
IsRefused f t = (u : Table) → f t ≢ ok u

-- No row of the table is held under the lease `d`.
abbrev pub IsLost : Claimed → Table → Type 0
IsLost d s = (r : Row) → In r s.rows → held_row d.tenant d.id d.token r ≡ false

module _ (d : Claimed) (s : Table) (lost : IsLost d s) where
  update_held-lost : (f : Row → Row) → update_held d.tenant d.id d.token f s ≡ none
  unfolding update_held
  update_held-lost f = ground (arith, any-eq_false_of (held_row d.tenant d.id d.token) s.rows lost)

  finish_held-lost :
      (f : Row → Row) (t : Table) → t.rows ≡ s.rows → finish_held d.tenant d.id d.token f t ≡ none
  unfolding finish_held
  finish_held-lost f t e =
      ground (arith, find-eq_none_of (held_row d.tenant d.id d.token) s.rows lost)

  release-lost : IsRefused (release d) s
  unfolding release release_row held
  release-lost u e = ground (arith, transition-ok d _ s e, update_held-lost released)

  halt-lost : (now pause : ℕ) (cause : Cause) → IsRefused (halt now d pause cause) s
  unfolding halt halt_row held
  halt-lost now pause cause u e =
      let k = transition-ok d _ s (refuse-ok (pause == 0) bad_argument _ e) in
      ground (arith, update_held-lost (halted now pause (clip (cause_string cause))))

  prepare_in-lost :
      (now : ℕ) (recs : List PreparedRecord) → IsRefused (prepare_in now d.tenant d recs) s
  unfolding prepare_in mark_prepared_row preparable held
  prepare_in-lost now recs u e =
      let k = refuse-ok (length d.token == 0) lease_lost _ e in
      ground (
        arith,
        any-eq_false_of (preparable d.tenant d.id d.token) s.rows (λ r m. ground (arith, lost r m)),
      )

  mark_dead_for-lost :
      (now : ℕ) (reason : Text) (cause : Cause) → IsRefused (mark_dead_for now d reason cause) s
  unfolding mark_dead_for mark_dead_row
  mark_dead_for-lost now reason cause u e =
      let (key, w, h, _) = finish_in-ok d _ s (transition-ok d _ s e) in
      ground (arith, finish_held-lost (finished_dead now reason (clip (cause_string cause))) s refl)

  fail-lost : (now : ℕ) (ladder : Ladder) (cause : Cause) → IsRefused (fail now d ladder cause) s
  unfolding fail retry_row held
  fail-lost now ladder cause u e = go (next ladder d.attempt) refl
    where
      go : (o : Option ℕ) → next ladder d.attempt ≡ o → ⊥
      go none q = mark_dead_for-lost now reason_retries_exhausted cause u (rw (q, fail) at e)
      go (some delay) q = ground (
        arith,
        transition-ok d _ s (rw (q, fail) at e),
        update_held-lost (retried now delay (clip (cause_string cause))),
      )

mark_records_dead-rows :
    (now : ℕ) (c : Claimed) (dead : List DeadRecord) (t : Table) {s : Table}
    → mark_records_dead now c dead t ≡ ok s
    → s.rows ≡ t.rows
unfolding mark_records_dead refuse_record mark_record_dead update_records
mark_records_dead-rows now c [] t e = ground arith
mark_records_dead-rows now c (d ∷ dead) t e =
    let (u, h, k) = >>=-eq_ok (refuse_record now c d t) _ e in
    mark_records_dead-rows now c dead u k ∙ ground arith

mark_delivered-lost :
    (d : Claimed) (s : Table)
    → IsLost d s
    → (now : ℕ) (dead : List DeadRecord) → IsRefused (mark_delivered now d dead) s
unfolding mark_delivered mark_delivered_in mark_delivered_row mark_records_delivered update_records
mark_delivered-lost d s lost now dead u e =
    let (key, w, h, _) = finish_in-ok d _ s (transition-ok d (mark_delivered_in now d dead) s e) in
    let (t', a, b) = >>=-eq_ok (mark_records_dead now d dead s) _ h in
    ground (
      arith,
      finish_held-lost d s lost (finished_delivered now)
          (mark_records_delivered now d.tenant d.id t') (mark_records_dead-rows now d dead s a),
    )

has_id_self : (x : Row) → has_id x.id x ≡ true
unfolding has_id
has_id_self x = text_eq_self x.id

leased-not_held :
    (now lease : ℕ) (d : Claimed) (token : Text) (y : Row)
    → d.token ≢ token
    → held_row d.tenant d.id d.token (leased now lease token y) ≡ false
unfolding held_row leased token_is
leased-not_held now lease d token y other = ground (arith, text_eq_iff token d.token)

-- A row under another id, which the claim may have taken, is not held.
other_row-not_held :
    (b : Bool) (now lease : ℕ) (d : Claimed) (token : Text) (y : Row)
    → text_eq y.id d.id ≡ false
    → held_row d.tenant d.id d.token (if b then leased now lease token y else y) ≡ false
unfolding held_row has_id leased
other_row-not_held b now lease d token y h = ground arith

takeover-IsLost :
    (now : ℕ) (locked : Text → Bool) (batch lease : ℕ) (token : Text) (t : Table)
    {cs : List Claimed} {s : Table}
    → IsWellFormed t
    → claim now locked batch lease token t ≡ ok (cs, s)
    → (c d : Claimed) → In c cs
    → d.id ≡ c.id
    → d.token ≢ token
    → IsLost d s
unfolding claim_rows update
takeover-IsLost now locked batch lease token t {cs} {s} v e c d m same other r mr =
    let (h, q) = claim-eq now locked batch lease token t e in
    let (x, hx, l) = claims-In token _ _ c h m in
    let (inside, _) = claim_batch-claimable now locked (min batch max_batch) t x hx in
    let mr' = rw q at mr in
    let (y, hy, ey) =
      In-map
        (λ (r : Row).
          if any (has_id r.id) (claim_batch now locked (min batch max_batch) t)
          then leased now lease token r
          else r)
        t.rows r mr' in
    go y hy ey x inside hx l
  where
    go :
        (y : Row)
        → In y t.rows
        → r ≡ (
            if any (has_id y.id) (claim_batch now locked (min batch max_batch) t)
            then leased now lease token y
            else y)
        → (x : Row) → In x t.rows
        → In x (claim_batch now locked (min batch max_batch) t)
        → IsLeaseOf token c x
        → held_row d.tenant d.id d.token r ≡ false
    go y hy ey x inside hx l = elim (Bool-cases (text_eq y.id d.id)) [
      | inl hit ↦
          let i : y ≡ x = v.ids_differ y x hy inside (text_eq→eq y.id d.id hit ∙ same ∙ l.id_of) in
          let b : any (has_id y.id) (claim_batch now locked (min batch max_batch) t) ≡ true =
            any-eq_true_of (has_id y.id) _ x hx (rw i (has_id_self x)) in
          let k : r ≡ leased now lease token y = ey ∙ rw b refl in
          rw k (leased-not_held now lease d token y other)
      | inr miss ↦ rw ey (other_row-not_held _ now lease d token y miss)
    ]

-- Once another worker has claimed the row of a lease under another token, every operation on the
-- old lease fails: prepare, deliver, halt, fail, kill, abandon and release, whatever their
-- arguments.
pub takeover_refuses :
    (now : ℕ) (locked : Text → Bool) (batch lease : ℕ) (token : Text) (t : Table)
    {cs : List Claimed} {s : Table}
    → IsWellFormed t
    → claim now locked batch lease token t ≡ ok (cs, s)
    → (c d : Claimed) → In c cs
    → d.id ≡ c.id
    → d.token ≢ token
    → (at : ℕ) (recs : List PreparedRecord) (dead : List DeadRecord) (pause : ℕ) (ladder : Ladder)
      (cause : Cause)
    → IsRefused (prepare_in at d.tenant d recs) s
      × IsRefused (mark_delivered at d dead) s
      × IsRefused (halt at d pause cause) s
      × IsRefused (fail at d ladder cause) s
      × IsRefused (mark_dead at d cause) s
      × IsRefused (mark_abandoned at d) s
      × IsRefused (release d) s
unfolding mark_dead mark_abandoned
takeover_refuses now locked batch lease token t {cs} {s} v e c d m same other at recs dead pause
      ladder cause =
    let lost = takeover-IsLost now locked batch lease token t v e c d m same other in
    (
      prepare_in-lost d s lost at recs,
      mark_delivered-lost d s lost at dead,
      halt-lost d s lost at pause cause,
      fail-lost d s lost at ladder cause,
      mark_dead_for-lost d s lost at _ cause,
      mark_dead_for-lost d s lost at _ _,
      release-lost d s lost,
    )
