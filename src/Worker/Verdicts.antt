-- ===== src/Worker/Verdicts.antt =====
-- The verdicts of a sink that internal/worker/worker.go accepts.
use lawang.Prelude.{
  ap, subst, sym, ◌∙◌, ◌↔◌, ◌≡◌, inl, inr, true, false, Bool-cases, List, [], ◌∷◌, map, In, Text,
  text_eq, text_eq→eq, text_eq_self, any-eq_true, any-eq_true_of, ok, Result-cases, arith, refl,
}
use lawang.Sink.{Rejection}
use lawang.Outbox.RecordQueries.{PreparedRecord}
use lawang.Outbox.Transitions.{DeadRecord}
use lawang.Worker.{offers, was_seen, dead_records_from, dead_records}

-- No id occurs twice.
abbrev pub AreDistinct : List Rejection → Type 0
AreDistinct [] = Unit
AreDistinct (r ∷ rs) = (((x : Rejection) → In x rs → x.id ≡ r.id → ⊥) × AreDistinct rs)

abbrev pub verdict_of : Rejection → DeadRecord
verdict_of r = record { record_id = r.id; cause = r.cause }

-- Each names a record of the batch.
abbrev pub AreOffered : List Rejection → List PreparedRecord → Type 0
AreOffered rejected offered =
    (r : Rejection) → In r rejected → (x : PreparedRecord) × In x offered × (x.record_id ≡ r.id)

abbrev NotSeen : List Text → List Rejection → Type 0
NotSeen seen rejected = (r : Rejection) → In r rejected → was_seen r.id seen ≡ false

was_seen-cons :
    (id x : Text) (seen : List Text)
    → was_seen id (x ∷ seen) ≡ false
    → (was_seen id seen ≡ false) × (id ≡ x → ⊥)
unfolding was_seen
was_seen-cons id x seen h = (
  ground arith,
  λ e. true-not_false (sym (subst (λ z. text_eq id z ≡ true) e (text_eq_self id)) ∙ ground arith),
)
  where
    true-not_false : true ≡ false → ⊥
    true-not_false q = cc

offers-In :
    (id : Text) (recs : List PreparedRecord)
    → offers id recs ≡ true
    → (x : PreparedRecord) × In x recs × (x.record_id ≡ id)
unfolding offers
offers-In id recs h =
    let (x, m, e) = any-eq_true (λ r. text_eq r.record_id id) recs h in
    (x, m, text_eq→eq x.record_id id e)

offers-of :
    (id : Text) (recs : List PreparedRecord) (x : PreparedRecord)
    → In x recs
    → x.record_id ≡ id
    → offers id recs ≡ true
unfolding offers
offers-of id recs x m e =
    any-eq_true_of (λ r. text_eq r.record_id id) recs x m (rw e (text_eq_self id))

dead_records_from_sound :
    (seen : List Text) (rejected : List Rejection) (offered : List PreparedRecord)
    (dead : List DeadRecord)
    → dead_records_from seen rejected offered ≡ ok dead
    → (dead ≡ map verdict_of rejected)
      × NotSeen seen rejected
      × AreDistinct rejected
      × AreOffered rejected offered
unfolding dead_records_from
dead_records_from_sound seen [] offered dead h =
    (ground arith, λ r m. absurd m, tt, λ r m. absurd m)
dead_records_from_sound seen (r ∷ rs) offered dead h = elim (Bool-cases (offers r.id offered)) [
  | inr e ↦ absurd (ground (arith, e))
  | inl e ↦ elim (Bool-cases (was_seen r.id seen)) [
    | inl k ↦ absurd (ground (arith, e, k))
    | inr k ↦ elim (Result-cases (dead_records_from (r.id ∷ seen) rs offered)) [
      | inl (x, l) ↦ absurd (ground (arith, e, k, l))
      | inr (rest, l) ↦
          let (same_list, fresh, apart, inside) =
            dead_records_from_sound (r.id ∷ seen) rs offered rest l in
          let whole : dead ≡ verdict_of r ∷ rest = ground (arith, e, k, l) in
          (
            whole ∙ ap (λ z. verdict_of r ∷ z) same_list,
            λ x m. elim m [ inl q ↦ rw q k | inr n ↦ (was_seen-cons x.id r.id seen (fresh x n)).0 ],
            (λ x m q. (was_seen-cons x.id r.id seen (fresh x m)).1 q, apart),
            λ x m. elim m [ inl q ↦ rw q (offers-In r.id offered e) | inr n ↦ inside x n ],
          )
    ]
  ]
]

was_seen-cons_of :
    (id x : Text) (seen : List Text)
    → was_seen id seen ≡ false
    → (id ≡ x → ⊥)
    → was_seen id (x ∷ seen) ≡ false
unfolding was_seen
was_seen-cons_of id x seen h n = elim (Bool-cases (text_eq id x)) [
  | inl e ↦ absurd (n (text_eq→eq id x e))
  | inr e ↦ ground arith
]

dead_records_from_complete :
    (seen : List Text) (rejected : List Rejection) (offered : List PreparedRecord)
    → NotSeen seen rejected
    → AreDistinct rejected
    → AreOffered rejected offered
    → dead_records_from seen rejected offered ≡ ok (map verdict_of rejected)
unfolding dead_records_from
dead_records_from_complete seen [] offered s d o = refl
dead_records_from_complete seen (r ∷ rs) offered s d o =
    let (x, m, e) = o r (inl refl) in
    let rest =
      dead_records_from_complete (r.id ∷ seen) rs offered
        (λ y n. was_seen-cons_of y.id r.id seen (s y (inr n)) (d.0 y n)) d.1 (λ y n. o y (inr n)) in
    rw (offers-of r.id offered x m e, s r (inl refl), dead_records_from) (rw rest refl)

-- A sink's refusals are accepted exactly where no two name one record and each names a record of
-- the batch, and they become dead letters one by one, in their order and with their causes.
pub dead_records_accepts :
    (rejected : List Rejection) (offered : List PreparedRecord) (dead : List DeadRecord)
    → (dead_records rejected offered ≡ ok dead)
      ↔ ((dead ≡ map verdict_of rejected) × AreDistinct rejected × AreOffered rejected offered)
unfolding dead_records was_seen
dead_records_accepts rejected offered dead = (
  λ h. let (e, s, d, o) = dead_records_from_sound [] rejected offered dead h in (e, d, o),
  λ k. rw k.0 (dead_records_from_complete [] rejected offered (λ r m. refl) k.1 k.2),
)
