-- ===== src/Worker/Landing.antt =====
-- When the work of internal/worker/worker.go on a row ends with the row delivered.
use lawang.Prelude.{
  subst, ℕ, ◌≡◌, ◌⊎◌, inl, inr, Bool-cases, true, false, List, [], ◌∷◌, Option, none, some, Text,
  Result, ok, err, Result-cases, arith, refl,
}
use lawang.Tenancy
use lawang.Sink.{
  Rejection, Action, action_unset, action_retry, action_halt, Answer, fault, broken, result,
}
use lawang.Outbox.{Table, Claimed, Error, is_pending}
use lawang.Outbox.Cause.{Class, Cause}
use lawang.Outbox.Ladder.{exhausted}
use lawang.Outbox.RecordQueries.{PreparedRecord}
use lawang.Outbox.Operations.{Work, work}
use lawang.Outbox.Transitions.{mark_abandoned, mark_dead, DeadRecord, prepare_in, prepared_records}
use lawang.Outbox.Landing.{
  LandsNothing, mark_dead_for-LandsNothing, fail-LandsNothing, halt-LandsNothing,
  prepare_in-LandsNothing,
}
use lawang.Worker.{
  Calls, Schedule, after, StageError, dead_letter, failed_stage, fail_pipeline, on_fault,
  on_verdict, on_answer, TxError, in_stage, in_outbox, Ready, ready, settled, on_prepare_error,
  is_lease_lost, deliver, reopens, prepare_tx, ready_pending, ready_stored, ready_records, work_row,
  dead_records,
}

after-LandsNothing :
    (id : Text) (m : Result Error Table) (t : Table)
    → ((s : Table) → m ≡ ok s → LandsNothing id t s)
    → LandsNothing id t (after m t)
unfolding after
after-LandsNothing id (ok s) t h = h s refl
after-LandsNothing id (err e) t h = λ x. x

fail_pipeline-LandsNothing :
    (id : Text) (opts : Schedule) (now : ℕ) (c : Claimed) (class : Class) (e : StageError)
    (t : Table)
    → LandsNothing id t (fail_pipeline opts now c class e t)
unfolding fail_pipeline after lawang.Outbox.Transitions.mark_dead
fail_pipeline-LandsNothing id opts now c class dead_letter t =
    after-LandsNothing id _ t (mark_dead_for-LandsNothing id now c _ _ t)
fail_pipeline-LandsNothing id opts now c class failed_stage t =
    after-LandsNothing id _ t (fail-LandsNothing id now c _ _ t)

on_fault-LandsNothing :
    (id : Text) (opts : Schedule) (now : ℕ) (c : Claimed) (a : Action) (cause : Cause) (t : Table)
    → LandsNothing id t (on_fault opts now c a cause t)
unfolding on_fault
on_fault-LandsNothing id opts now c action_retry cause t =
    after-LandsNothing id _ t (fail-LandsNothing id now c _ _ t)
on_fault-LandsNothing id opts now c action_halt cause t =
    after-LandsNothing id _ t (halt-LandsNothing id now c _ _ t)
on_fault-LandsNothing id opts now c action_unset cause t =
    after-LandsNothing id _ t (halt-LandsNothing id now c _ _ t)

on_prepare_error-LandsNothing :
    (id : Text) (opts : Schedule) (now : ℕ) (c : Claimed) (e : TxError) (t : Table)
    → LandsNothing id t (on_prepare_error opts now c e t)
unfolding on_prepare_error
on_prepare_error-LandsNothing id opts now c (in_stage e) t =
    fail_pipeline-LandsNothing id opts now c _ e t
on_prepare_error-LandsNothing id opts now c (in_outbox e) t = elim (Bool-cases (is_lease_lost e)) [
  | inl k ↦ rw (k, on_prepare_error) (λ x. x)
  | inr k ↦ rw (k, on_prepare_error) (fail_pipeline-LandsNothing id opts now c _ failed_stage t)
]

module _ {N : Type 0} (calls : Calls N) (opts : Schedule) where
  -- The sink of the tenant was given the records and answered with a result whose refusals are
  -- accepted, or there was no record to give.
  abbrev pub IsAnswered : Text → List PreparedRecord → Type 0
  IsAnswered tenant recs =
      (recs ≡ [])
      ⊎ ((calls.has_sink tenant ≡ true)
          × (rejected : List Rejection) × (dead : List DeadRecord) × (calls.sink_deliver tenant recs
              ≡ result rejected)
          × (dead_records rejected recs ≡ ok dead))

  on_answer-LandsNothing :
      (id : Text) (now : ℕ) (c : Claimed) (recs : List PreparedRecord) (a : Answer) (t : Table)
      → LandsNothing id t (on_answer opts now c recs a t)
        ⊎ ((rejected : List Rejection) × (dead : List DeadRecord) × (a ≡ result rejected)
            × (dead_records rejected recs ≡ ok dead))
  unfolding on_answer on_verdict
  on_answer-LandsNothing id now c recs (fault a cause) t =
      inl (on_fault-LandsNothing id opts now c a cause t)
  on_answer-LandsNothing id now c recs broken t =
      inl (after-LandsNothing id _ t (halt-LandsNothing id now c _ _ t))
  on_answer-LandsNothing id now c recs (result rejected) t =
      elim (Result-cases (dead_records rejected recs)) [
        | inl (e, k) ↦
            inl (rw (k, on_verdict) (after-LandsNothing id _ t (fail-LandsNothing id now c _ _ t)))
        | inr (dead, k) ↦ inr (rejected, dead, refl, k)
      ]

  deliver-LandsNothing :
      (id : Text)
      → ((t : Table) → LandsNothing id t (calls.others t))
      → (now : ℕ) (c : Claimed) (recs : List PreparedRecord) (t : Table)
      → LandsNothing id t (deliver calls opts now c recs t) ⊎ IsAnswered c.tenant recs
  unfolding deliver
  deliver-LandsNothing id others now c [] t = inr (inl refl)
  deliver-LandsNothing id others now c (r ∷ rs) t = elim (Bool-cases (calls.has_sink c.tenant)) [
    | inr e ↦ inl (rw (e, deliver) (after-LandsNothing id _ t (halt-LandsNothing id now c _ _ t)))
    | inl e ↦
        elim (on_answer-LandsNothing id now c (r ∷ rs) (calls.sink_deliver c.tenant (r ∷ rs))
          (calls.others t)) [
            | inl k ↦ inl (rw (e, deliver) (λ x. others t (k x)))
            | inr (rejected, dead, a, d) ↦ inr (inr (e, rejected, dead, a, d))
          ]
  ]

  abbrev ReadyLandsNothing : Text → Table → Ready → Type 0
  ReadyLandsNothing id t (ready recs s) = LandsNothing id t s
  ReadyLandsNothing id t (settled s) = LandsNothing id t s

  prepare_tx-LandsNothing :
      (id : Text) (now : ℕ) (c : Claimed) (n : N) (t s : Table) (recs : List PreparedRecord)
      → prepare_tx calls opts now c n t ≡ ok (recs, s)
      → LandsNothing id t s
  unfolding prepare_tx
  prepare_tx-LandsNothing id now c n t s recs e = elim (Result-cases (Tenancy.parse c.tenant)) [
    | inl (x, k) ↦ absurd (ground (arith, k))
    | inr (x, k) ↦ elim (Result-cases (calls.prepare c.tenant n)) [
      | inl (y, l) ↦ absurd (ground (arith, k, l))
      | inr (recs', l) ↦ elim (Result-cases (prepare_in now c.tenant c recs' t)) [
        | inl (y, m) ↦ absurd (ground (arith, k, l, m))
        | inr (s', m) ↦
            let same_table : s' ≡ s = ground (arith, k, l, m) in
            prepare_in-LandsNothing id now c.tenant c recs' t s (rw (← same_table) m)
      ]
    ]
  ]

  ready_pending-LandsNothing :
      (id : Text)
      → ((t : Table) → LandsNothing id t (calls.others t))
      → (now : ℕ) (c : Claimed) (provider : Text) (body : Option Text) (t : Table)
      → ReadyLandsNothing id t (ready_pending calls opts now c provider body t)
  unfolding ready_pending
  ready_pending-LandsNothing id others now c provider body t =
      elim (Result-cases
        (calls.normalize c.tenant provider c.id (elim body [ none ↦ [] | some b ↦ b ]))) [
          | inl (e, k) ↦
              rw (k, ready_pending)
                (λ x. others t (fail_pipeline-LandsNothing id opts now c _ e (calls.others t) x))
          | inr (n, k) ↦ elim (Result-cases (prepare_tx calls opts now c n (calls.others t))) [
            | inl (e, l) ↦
                rw (k, l, ready_pending)
                  (λ x. others t (on_prepare_error-LandsNothing id opts now c e (calls.others t) x))
            | inr ((recs, s), l) ↦
                rw (k, l, ready_pending)
                  (λ x. others t (prepare_tx-LandsNothing id now c n (calls.others t) s recs l x))
          ]
        ]

  ready_stored-LandsNothing :
      (id : Text) (now : ℕ) (c : Claimed) (provider : Text) (t : Table)
      → ReadyLandsNothing id t (ready_stored calls opts now c provider t)
  unfolding ready_stored mark_dead
  ready_stored-LandsNothing id now c provider t = elim (Result-cases (prepared_records c t)) [
    | inl (e, k) ↦
        rw (k, ready_stored) (after-LandsNothing id _ t (fail-LandsNothing id now c _ _ t))
    | inr (stored, k) ↦ elim (Bool-cases (reopens calls opts stored provider c.tenant)) [
      | inl l ↦ rw (k, ready_stored) (rw l (λ x. x))
      | inr l ↦
          rw (k, ready_stored)
            (rw l (after-LandsNothing id _ t (mark_dead_for-LandsNothing id now c _ _ t)))
    ]
  ]

  ready_records-LandsNothing :
      (id : Text)
      → ((t : Table) → LandsNothing id t (calls.others t))
      → (now : ℕ) (c : Claimed) (w : Work) (t : Table)
      → ReadyLandsNothing id t (ready_records calls opts now c w t)
  unfolding ready_records
  ready_records-LandsNothing id others now c w t = elim (Bool-cases (is_pending w.state)) [
    | inl e ↦ rw (e, ready_records) (ready_pending-LandsNothing id others now c w.provider w.body t)
    | inr e ↦ rw (e, ready_records) (ready_stored-LandsNothing id now c w.provider t)
  ]

-- Where what others commit meanwhile delivers no row of an id, the work on a claimed row delivers
-- none of it either; or else the attempt was within the ladder, the records of the claimed row
-- were made ready, and there was none of them, or the tenant's sink was given just these and
-- answered with a result whose refusals are accepted.
pub work_row_needs_the_sink :
    {N : Type 0} (calls : Calls N) (opts : Schedule) (started ended : ℕ) (c : Claimed) (id : Text)
    (t : Table)
    → ((u : Table) → LandsNothing id u (calls.others u))
    → LandsNothing id t (work_row calls opts started ended c t)
      ⊎ ((w : Work) × (recs : List PreparedRecord) × (s : Table) × (exhausted opts.ladder c.attempt
            ≡ false)
          × (work c t ≡ ok w)
          × (ready_records calls opts started c w t ≡ ready recs s)
          × IsAnswered calls opts c.tenant recs)
unfolding work_row mark_abandoned
work_row_needs_the_sink calls opts started ended c id t others =
    elim (Bool-cases (exhausted opts.ladder c.attempt)) [
      | inl e ↦ inl (
          rw (e, work_row)
            (after-LandsNothing id _ t (mark_dead_for-LandsNothing id started c _ _ t)))
      | inr e ↦ elim (Result-cases (work c t)) [
        | inl (x, k) ↦
            inl (
              rw (e, k, work_row)
                (after-LandsNothing id _ t (fail-LandsNothing id started c _ _ t)))
        | inr (w, k) ↦ elim (ready_cases (ready_records calls opts started c w t)) [
          | inl (s, q) ↦ inl (
              rw (e, k, work_row)
                (rw q (
                  subst (ReadyLandsNothing calls opts id t) q
                    (ready_records-LandsNothing calls opts id others started c w t))))
          | inr (recs, s, q) ↦ elim (deliver-LandsNothing calls opts id others ended c recs s) [
            | inr a ↦ inr (w, recs, s, e, k, q, a)
            | inl l ↦
                let before =
                  subst (ReadyLandsNothing calls opts id t) q
                    (ready_records-LandsNothing calls opts id others started c w t) in
                inl (rw (e, k, work_row) (rw q (λ x. before (l x))))
          ]
        ]
      ]
    ]
  where
    ready_cases :
        (r : Ready)
        → ((s : Table) × (r ≡ settled s))
          ⊎ ((recs : List PreparedRecord) × (s : Table) × (r ≡ ready recs s))
    ready_cases (settled s) = inl (s, refl)
    ready_cases (ready recs s) = inr (recs, s, refl)
