-- ===== src/Pipeline/Stages/Counts.antt =====
-- Prepare of internal/pipeline/pipeline.go accounts for each record of a delivery.
use lawang.Prelude.{
  false, text_eq, err, find-eq_none, ◌⊎◌, any-eq_true, find, subst, ℕ, ◌+◌, ◌≡◌, Bool, true, ◌&&◌,
  not, Bool-cases, List, [], ◌∷◌, ◌++◌, Option, none, some, Option-cases, any, In, inl, inr, length,
  Text, text_eq_self, ok, Result-cases, arith, refl, ◌∙◌, sym,
}
use mathlib.Core.List.{append-nil, append_assoc}
use lawang.Tenancy
use lawang.Provider.{is_valid_order}
use lawang.Pipeline.Ledger.{
  admit_known, Record, LedgerRow, Admission, prepare, skip, stale, admit, admit_new, entry_of,
  entity_head, ledger_entry, is_entry, is_head_of, demote_entity_head, is_less, superseding,
  scope_returned,
}
use lawang.Pipeline.Ledger.Chain.{
  write_head-eq_ok, admit_known-eq_ok, admit-unknown, admit-known, admit-prepare,
}
use lawang.Pipeline.Ledger.Versions.{VersionOrder, compare_versions}
use lawang.Pipeline.Stages.{
  Normalized, Prepared, Bound, count_admission, admit_all, started, prepare_unmasked, check_bound,
  check_records, is_nil,
}

-- The ledger has a row for a record id.
abbrev pub IsKnown : Text → Text → List LedgerRow → Type 0
IsKnown tenant id rows = any (is_entry tenant id) rows ≡ true

demote_entity_head-IsKnown :
    (tenant provider external id : Text) (rows : List LedgerRow)
    → IsKnown tenant id rows
    → IsKnown tenant id (demote_entity_head tenant provider external rows)
unfolding demote_entity_head is_entry
demote_entity_head-IsKnown tenant provider external id [] h = h
demote_entity_head-IsKnown tenant provider external id (r ∷ rs) h =
    elim (Bool-cases (is_head_of tenant provider external r)) [
      | inl b ↦ ground (arith, b, demote_entity_head-IsKnown tenant provider external id rs)
      | inr b ↦ ground (arith, b, demote_entity_head-IsKnown tenant provider external id rs)
    ]

module _ (decode : (Text → Option Text) × (Text → Option Text)) (versions : VersionOrder)
    (tenant provider : Text) where
  admit_new-IsKnown :
      (r : Record) (head : Option LedgerRow) (rows more : List LedgerRow) (a : Admission)
      (id : Text)
      → admit_new decode versions tenant provider r head rows ≡ ok (a, more)
      → IsKnown tenant id rows
      → IsKnown tenant id more
  unfolding admit_new
  admit_new-IsKnown r none rows more a id h k =
      let (e, x) = write_head-eq_ok tenant provider r rows more a h in rw e (ground arith)
  admit_new-IsKnown r (some u) rows more a id h k =
      elim (Option-cases (compare_versions decode versions r.version u.version)) [
        | inl n ↦ absurd (ground (arith, n))
        | inr (order, c) ↦ elim (Bool-cases (is_less order)) [
          | inl l ↦ let still : rows ≡ more = ground (arith, c, l) in rw (← still) k
          | inr l ↦
              let (e, x) =
                write_head-eq_ok tenant provider (superseding r (some u))
                  (demote_entity_head tenant provider r.external_id rows) more a
                  (ground (arith, c, l)) in
              let kept = demote_entity_head-IsKnown tenant provider r.external_id id rows k in
              rw e (ground (arith, kept))
        ]
      ]

  admit-IsKnown :
      (r : Record) (rows more : List LedgerRow) (a : Admission) (id : Text)
      → admit decode versions tenant provider r rows ≡ ok (a, more)
      → IsKnown tenant id rows
      → IsKnown tenant id more
  admit-IsKnown r rows more a id h k = elim (Option-cases (ledger_entry tenant r.id rows)) [
    | inl n ↦
        admit_new-IsKnown r (entity_head tenant provider r.external_id rows) rows more a id
          (sym (admit-unknown decode versions tenant provider r rows n) ∙ h) k
    | inr (u, e) ↦
        let (x, q) =
          admit_known-eq_ok decode versions tenant provider r u
            (entity_head tenant provider r.external_id rows) rows more a
            (sym (admit-known decode versions tenant provider r u rows e) ∙ h) in
        rw q k
  ]

  admit-IsKnown_prepared :
      (r linked : Record) (rows more : List LedgerRow)
      → admit decode versions tenant provider r rows ≡ ok (prepare linked, more)
      → IsKnown tenant linked.id more
  unfolding entry_of is_entry
  admit-IsKnown_prepared r linked rows more h =
      let (rest, e, x, y) = admit-prepare decode versions tenant provider r linked rows more h in
      rw (e, text_eq_self tenant, text_eq_self linked.id) refl

  -- The records of a delivery, admitted one after another: each admission is the one that the code
  -- decides on the ledger that the records before have left.
  abbrev pub Admits : List Record → List Admission → List LedgerRow → List LedgerRow → Type 0
  Admits [] [] rows more = rows ≡ more
  Admits [] (a ∷ ws) rows more = ⊥
  Admits (r ∷ rs) [] rows more = ⊥
  Admits (r ∷ rs) (a ∷ ws) rows more =
      (next : List LedgerRow) × (admit decode versions tenant provider r rows ≡ ok (a, next))
      × Admits rs ws next more

-- The records that are prepared among the admissions, and how many are skipped and stale.
abbrev pub prepared_of : List Admission → List Record
prepared_of [] = []
prepared_of (prepare r ∷ ws) = r ∷ prepared_of ws
prepared_of (skip ∷ ws) = prepared_of ws
prepared_of (stale ∷ ws) = prepared_of ws

abbrev pub skips : List Admission → ℕ
skips [] = 0
skips (prepare r ∷ ws) = skips ws
skips (skip ∷ ws) = skips ws + 1
skips (stale ∷ ws) = skips ws

abbrev pub stales : List Admission → ℕ
stales [] = 0
stales (prepare r ∷ ws) = stales ws
stales (skip ∷ ws) = stales ws
stales (stale ∷ ws) = stales ws + 1

-- What was counted before, and what `whats` add.
CountsOf : List Admission → Prepared → Prepared → Type 0
CountsOf whats out done =
    (done.records ≡ out.records ++ prepared_of whats)
    × (done.skipped ≡ out.skipped + skips whats)
    × (done.stale_ones ≡ out.stale_ones + stales whats)

count_admission_lem :
    (a : Admission) (whats : List Admission) (out done : Prepared)
    → CountsOf whats (count_admission a out) done
    → CountsOf (a ∷ whats) out done
unfolding count_admission CountsOf
count_admission_lem (prepare r) whats out done (a, b, c) =
    (a ∙ append_assoc out.records (r ∷ []) (prepared_of whats), b, c)
count_admission_lem skip whats out done (a, b, c) = (a, omega (arith, b), c)
count_admission_lem stale whats out done (a, b, c) = (a, b, omega (arith, c))

module _ (decode : (Text → Option Text) × (Text → Option Text)) (versions : VersionOrder)
    (tenant provider : Text) where
  admit_all-Admits :
      (rs : List Record) (out done : Prepared) (rows more : List LedgerRow)
      → admit_all decode versions tenant provider rs out rows ≡ ok (done, more)
      → (whats : List Admission) × Admits decode versions tenant provider rs whats rows more
        × CountsOf whats out done
  unfolding admit_all CountsOf
  admit_all-Admits [] out done rows more h =
      let (a, b) : (out ≡ done) × (rows ≡ more) = ground arith in
      ([], b, rw (← a) (sym (append-nil out.records), omega arith, omega arith))
  admit_all-Admits (r ∷ rs) out done rows more h =
      elim (Result-cases (admit decode versions tenant provider r rows)) [
        | inl (e, q) ↦ absurd (ground (arith, q))
        | inr ((a, next), q) ↦
            let (whats, steps, counts) =
              admit_all-Admits rs (count_admission a out) done next more (ground (arith, q)) in
            (a ∷ whats, (next, q, steps), count_admission_lem a whats out done counts)
      ]

  Admits-length :
      (rs : List Record) (whats : List Admission) (rows more : List LedgerRow)
      → Admits decode versions tenant provider rs whats rows more
      → length whats ≡ length rs
  Admits-length [] [] rows more s = refl
  Admits-length [] (a ∷ ws) rows more s = absurd s
  Admits-length (r ∷ rs) [] rows more s = absurd s
  Admits-length (r ∷ rs) (a ∷ ws) rows more (next, h, s) =
      omega (arith, Admits-length rs ws next more s)

  -- Once the ledger has a record, it has it after each later admission.
  Admits-IsKnown :
      (rs : List Record) (whats : List Admission) (rows more : List LedgerRow) (id : Text)
      → Admits decode versions tenant provider rs whats rows more
      → IsKnown tenant id rows
      → IsKnown tenant id more
  Admits-IsKnown [] [] rows more id s k = subst (IsKnown tenant id) s k
  Admits-IsKnown [] (a ∷ ws) rows more id s k = absurd s
  Admits-IsKnown (r ∷ rs) [] rows more id s k = absurd s
  Admits-IsKnown (r ∷ rs) (a ∷ ws) rows more id (next, h, s) k =
      Admits-IsKnown rs ws next more id s
        (admit-IsKnown decode versions tenant provider r rows next a id h k)

  Admits-prepared :
      (rs : List Record) (whats : List Admission) (rows more : List LedgerRow)
      → Admits decode versions tenant provider rs whats rows more
      → (x : Record) → In x (prepared_of whats)
      → IsKnown tenant x.id more
  Admits-prepared [] [] rows more s x m = absurd m
  Admits-prepared [] (a ∷ ws) rows more s x m = absurd s
  Admits-prepared (r ∷ rs) [] rows more s x m = absurd s
  Admits-prepared (r ∷ rs) (skip ∷ ws) rows more (next, h, s) x m =
      Admits-prepared rs ws next more s x m
  Admits-prepared (r ∷ rs) (stale ∷ ws) rows more (next, h, s) x m =
      Admits-prepared rs ws next more s x m
  Admits-prepared (r ∷ rs) (prepare p ∷ ws) rows more (next, h, s) x (inr m) =
      Admits-prepared rs ws next more s x m
  Admits-prepared (r ∷ rs) (prepare p ∷ ws) rows more (next, h, s) x (inl e) = rw e (
      Admits-IsKnown rs ws next more p.id s
        (admit-IsKnown_prepared decode versions tenant provider r p rows next h))

-- When the checks and the admission of Prepare succeed, each record was admitted in its turn, on
-- the ledger that the ones before it left; the records answered are those prepared, in their
-- order, the counts of skipped and of stale records are the numbers of those admissions, and each
-- prepared record stands in the ledger of the tenant.
pub prepare_counts_all :
    (decode : (Text → Option Text) × (Text → Option Text)) (sealed : Record → Bool) (bound : Bound)
    (tenant : Text) (n : Normalized) (out : Prepared) (rows more : List LedgerRow)
    → prepare_unmasked decode sealed bound tenant n rows ≡ ok (out, more)
    → (whats : List Admission) × Admits decode n.versions tenant n.provider n.records whats rows
        more
      × (length whats ≡ length n.records)
      × (out.records ≡ prepared_of whats)
      × (out.skipped ≡ skips whats)
      × (out.stale_ones ≡ stales whats)
      × ((x : Record) → In x out.records → IsKnown tenant x.id more)
unfolding prepare_unmasked started CountsOf
prepare_counts_all decode sealed bound tenant n out rows more h =
    elim (Result-cases (Tenancy.parse tenant)) [
      | inl (e, p) ↦ absurd (ground (arith, p))
      | inr (id, p) ↦ elim (Result-cases (check_bound bound tenant)) [
        | inl (e, b) ↦ absurd (ground (arith, p, b))
        | inr (u, b) ↦
            elim (Bool-cases (not (is_nil n.records) && not (is_valid_order n.versions))) [
              | inl o ↦ absurd (ground (arith, p, b, o))
              | inr o ↦ elim (Result-cases (check_records sealed n.records)) [
                | inl (e, c) ↦ absurd (ground (arith, p, b, o, c))
                | inr (v, c) ↦
                    let run : admit_all decode n.versions tenant n.provider n.records (started n)
                          rows
                        ≡ ok (out, more) =
                      ground (arith, p, b, o, c) in
                    let (whats, steps, (rs, sk, st)) =
                      admit_all-Admits decode n.versions tenant n.provider n.records (started n) out
                        rows more run in
                    (
                      whats,
                      steps,
                      Admits-length decode n.versions tenant n.provider n.records whats rows more
                          steps,
                      rs,
                      omega (arith, sk),
                      omega (arith, st),
                      λ x m.
                          Admits-prepared decode n.versions tenant n.provider n.records whats rows
                            more steps x (subst (In x) rs m),
                    )
              ]
            ]
      ]
    ]

-- The ledger has the record, in a row that stands for it.
known_entry :
    (tenant id : Text) (rows : List LedgerRow)
    → IsKnown tenant id rows
    → (k : LedgerRow) × (ledger_entry tenant id rows ≡ some k)
unfolding ledger_entry
known_entry tenant id rows h = elim (Option-cases (find (is_entry tenant id) rows)) [
  | inr k ↦ k
  | inl n ↦
      let (x, m, e) = any-eq_true (is_entry tenant id) rows h in
      absurd (let wrong = find-eq_none (is_entry tenant id) rows x n m in cc)
]

-- A record id that was prepared is not prepared again, however many records the ledger has
-- admitted since: asking for it answers skip and leaves the ledger as it is, or fails as a
-- returned scope where the head of the entity has another scope.
pub never_prepared_twice :
    (decode : (Text → Option Text) × (Text → Option Text)) (versions : VersionOrder)
    (tenant provider : Text) (r linked again : Record) (later : List Record)
    (whats : List Admission) (rows next more : List LedgerRow)
    → admit decode versions tenant provider r rows ≡ ok (prepare linked, next)
    → Admits decode versions tenant provider later whats next more
    → again.id ≡ linked.id
    → (admit decode versions tenant provider again more ≡ ok (skip, more))
      ⊎ ((h : LedgerRow) × (admit decode versions tenant provider again more ≡ err scope_returned)
          × (entity_head tenant provider again.external_id more ≡ some h)
          × (text_eq h.scope again.scope ≡ false))
unfolding admit_known
never_prepared_twice decode versions tenant provider r linked again later whats rows next more h s
      q =
    let first = admit-IsKnown_prepared decode versions tenant provider r linked rows next h in
    let still =
      Admits-IsKnown decode versions tenant provider later whats next more linked.id s first in
    let (k, e) = known_entry tenant again.id more (rw q still) in
    let run = admit-known decode versions tenant provider again k more e in
    elim (Option-cases (entity_head tenant provider again.external_id more)) [
      | inl n ↦ inl (run ∙ rw n refl)
      | inr (u, n) ↦ elim (Bool-cases (not k.is_head && not (text_eq u.scope again.scope))) [
        | inr b ↦ inl (run ∙ rw (n, admit_known, b) refl)
        | inl b ↦ inr (u, run ∙ rw (n, admit_known, b) refl, n, ground arith)
      ]
    ]
