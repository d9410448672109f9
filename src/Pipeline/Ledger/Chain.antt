-- ===== src/Pipeline/Ledger/Chain.antt =====
-- The links between the records of an entity that internal/pipeline/ledger.go admits.
use lawang.Prelude.{
  ◌∙◌, Order, ℕ, ◌≡◌, inl, inr, true, false, Bool-cases, ◌&&◌, List, [], ◌∷◌, arith, refl, Text,
  text_eq_self, ok, Result-cases, Option, none, some, Option-cases, ap, subst, sym, Order, ◌≤◌,
}
use lawang.Pipeline.Ledger.{
  is_less, compare_versions, LedgerRow, Record, Admission, prepare, skip, insert_ledger_entry,
  entry_of, write_head, admit, admit_known, admit_new, entity_head, ledger_entry, is_head_of,
  is_entry, same_entity, superseding, demote_entity_head,
}
use lawang.Pipeline.Ledger.Versions.{
  all_digits, compare_decimal, VersionOrder, decimal_versions, compare_versions, is_decimal,
  compare_nat,
}
use lawang.Pipeline.Ledger.Decimal.{number, compare_decimal_as_numbers}

pub insert_ledger_entry-eq_ok :
    (row : LedgerRow) (rows rows' : List LedgerRow)
    → insert_ledger_entry row rows ≡ ok rows'
    → rows' ≡ row ∷ rows
unfolding insert_ledger_entry
insert_ledger_entry-eq_ok row rows rows' h = ground arith

pub write_head-eq_ok :
    (tenant provider : Text) (r : Record) (rows rows' : List LedgerRow) (a : Admission)
    → write_head tenant provider r rows ≡ ok (a, rows')
    → (rows' ≡ entry_of tenant provider r ∷ rows) × (a ≡ prepare r)
unfolding write_head
write_head-eq_ok tenant provider r rows rows' a h =
    elim (Result-cases (insert_ledger_entry (entry_of tenant provider r) rows)) [
      | inl (e, k) ↦ absurd (ground (arith, k))
      | inr (new, k) ↦
          let q = insert_ledger_entry-eq_ok (entry_of tenant provider r) rows new k in
          ground (arith, k, q)
    ]

module _ (decode : (Text → Option Text) × (Text → Option Text)) (versions : VersionOrder)
    (tenant provider : Text) where
  -- What a record that is prepared was admitted over: the head `head` of its entity.
  abbrev pub IsAdmittedOver : Record → List LedgerRow → List LedgerRow → Option LedgerRow → Type 0
  IsAdmittedOver r rows rest none = rest ≡ rows
  IsAdmittedOver r rows rest (some h) =
      (order : Order) × (compare_versions decode versions r.version h.version ≡ some order)
      × (is_less order ≡ false)
      × (rest ≡ demote_entity_head tenant provider r.external_id rows)

  admit_new-prepare :
      (r r' : Record) (head : Option LedgerRow) (rows rows' : List LedgerRow)
      → admit_new decode versions tenant provider r head rows ≡ ok (prepare r', rows')
      → (rest : List LedgerRow) × (rows' ≡ entry_of tenant provider r' ∷ rest)
        × (r' ≡ superseding r head)
        × IsAdmittedOver r rows rest head
  unfolding admit_new
  admit_new-prepare r r' none rows rows' h =
      let (e, a) = write_head-eq_ok tenant provider r rows rows' (prepare r') h in
      let same_record : r' ≡ r = ground arith in (rows, rw same_record e, same_record, refl)
  admit_new-prepare r r' (some u) rows rows' h =
      elim (Option-cases (compare_versions decode versions r.version u.version)) [
        | inl n ↦ absurd (ground (arith, n))
        | inr (order, k) ↦ elim (Bool-cases (is_less order)) [
          | inl l ↦ absurd (ground (arith, k, l))
          | inr l ↦
              let (e, a) =
                write_head-eq_ok tenant provider (superseding r (some u))
                  (demote_entity_head tenant provider r.external_id rows) rows' (prepare r')
                  (ground (arith, k, l)) in
              let linked : r' ≡ superseding r (some u) = ground arith in
              (
                demote_entity_head tenant provider r.external_id rows,
                rw linked e,
                linked,
                (order, k, l, refl),
              )
        ]
      ]

  pub admit_known-eq_ok :
      (r : Record) (k : LedgerRow) (head : Option LedgerRow) (rows rows' : List LedgerRow)
      (a : Admission)
      → admit_known r k head rows ≡ ok (a, rows')
      → (a ≡ skip) × (rows' ≡ rows)
  unfolding admit_known
  admit_known-eq_ok r k none rows rows' a h = ground arith
  admit_known-eq_ok r k (some u) rows rows' a h = ground arith

  pub admit-unknown :
      (r : Record) (rows : List LedgerRow)
      → ledger_entry tenant r.id rows ≡ none
      → admit decode versions tenant provider r rows
        ≡ admit_new decode versions tenant provider r
            (entity_head tenant provider r.external_id rows)
            rows
  unfolding admit
  admit-unknown r rows n = rw (n, admit) refl

  pub admit-known :
      (r : Record) (k : LedgerRow) (rows : List LedgerRow)
      → ledger_entry tenant r.id rows ≡ some k
      → admit decode versions tenant provider r rows
        ≡ admit_known r k (entity_head tenant provider r.external_id rows) rows
  unfolding admit
  admit-known r k rows n = rw (n, admit) refl

  pub admit-prepare :
      (r r' : Record) (rows rows' : List LedgerRow)
      → admit decode versions tenant provider r rows ≡ ok (prepare r', rows')
      → (rest : List LedgerRow) × (rows' ≡ entry_of tenant provider r' ∷ rest)
        × (r' ≡ superseding r (entity_head tenant provider r.external_id rows))
        × IsAdmittedOver r rows rest (entity_head tenant provider r.external_id rows)
  unfolding admit
  admit-prepare r r' rows rows' h = elim (Option-cases (ledger_entry tenant r.id rows)) [
    | inl n ↦
        admit_new-prepare r r' (entity_head tenant provider r.external_id rows) rows rows'
          (sym (admit-unknown r rows n) ∙ h)
    | inr (k, e) ↦
        let (q, w) =
          admit_known-eq_ok r k (entity_head tenant provider r.external_id rows) rows rows'
            (prepare r') (sym (admit-known r k rows e) ∙ h) in
        absurd cc
  ]

entry_of-head :
    (tenant provider : Text) (r : Record) (rest : List LedgerRow)
    → entity_head tenant provider r.external_id (entry_of tenant provider r ∷ rest)
      ≡ some (entry_of tenant provider r)
unfolding entity_head is_head_of same_entity entry_of
entry_of-head tenant provider r rest =
    rw (text_eq_self tenant, text_eq_self provider, text_eq_self r.external_id) refl

entry_of-entry :
    (tenant provider : Text) (r : Record) (rest : List LedgerRow)
    → ledger_entry tenant r.id (entry_of tenant provider r ∷ rest)
      ≡ some (entry_of tenant provider r)
unfolding ledger_entry is_entry entry_of
entry_of-entry tenant provider r rest = rw (text_eq_self tenant, text_eq_self r.id) refl

superseding-id :
    (r : Record) (h : Option LedgerRow)
    → ((superseding r h).id ≡ r.id)
      × ((superseding r h).external_id ≡ r.external_id)
      × ((superseding r h).version ≡ r.version)
superseding-id r none = (refl, refl, refl)
superseding-id r (some h) = (refl, refl, refl)

is_decimal-all_digits : (s : Text) → is_decimal s ≡ true → all_digits s ≡ true
unfolding is_decimal
is_decimal-all_digits [] h = cc
is_decimal-all_digits (c ∷ cs) h = h

compare_nat-ge : (m n : ℕ) → is_less (compare_nat m n) ≡ false → n ≤ m
unfolding compare_nat is_less
compare_nat-ge m n h = ground arith

compare_versions-decimal :
    (decode : (Text → Option Text) × (Text → Option Text)) (v head : Text) (order : Order)
    → compare_versions decode decimal_versions v head ≡ some order
    → is_less order ≡ false
    → number head ≤ number v
unfolding compare_versions
compare_versions-decimal decode v head order h l =
    elim (Bool-cases (is_decimal v && is_decimal head)) [
      | inl e ↦
          let dv = is_decimal-all_digits v (ground arith) in
          let dh = is_decimal-all_digits head (ground arith) in
          let q : compare_decimal v head ≡ order = ground arith in
          let w = compare_decimal_as_numbers v head dv dh in
          compare_nat-ge (number v) (number head) (subst (λ z. is_less z ≡ false) (sym q ∙ w) l)
      | inr e ↦ absurd (ground arith)
    ]

-- Where the provider declares decimal versions and the entity has a head, a record that is
-- prepared has a version that is no smaller a number than that of the head it was admitted over;
-- it supersedes that head, and is the head of its entity from then on.
pub head_moves_forward :
    (decode : (Text → Option Text) × (Text → Option Text)) (tenant provider : Text) (r r' : Record)
    (h : LedgerRow) (rows rows' : List LedgerRow)
    → entity_head tenant provider r.external_id rows ≡ some h
    → admit decode decimal_versions tenant provider r rows ≡ ok (prepare r', rows')
    → (number h.version ≤ number r'.version)
      × (r'.supersedes ≡ some h.record_id)
      × (entity_head tenant provider r.external_id rows' ≡ some (entry_of tenant provider r'))
head_moves_forward decode tenant provider r r' h rows rows' k a =
    let (rest, e, l, o) = admit-prepare decode decimal_versions tenant provider r r' rows rows' a in
    let over =
      subst (λ z. IsAdmittedOver decode decimal_versions tenant provider r rows rest z) k o in
    let link : r' ≡ superseding r (some h) = l ∙ ap (superseding r) k in
    (
      rw link (compare_versions-decimal decode r.version h.version over.0 over.1 over.2),
      ap (λ z. z.supersedes) link,
      rw (e, sym (ap (λ z. z.external_id) link)) (entry_of-head tenant provider r' rest),
    )
