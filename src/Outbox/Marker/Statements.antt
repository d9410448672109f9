-- ===== src/Outbox/Marker/Statements.antt =====
-- Every statement of internal/outbox/outboxdb/queries.sql.go that writes the table keeps it well
-- formed.
use lawang.Prelude.{
  text_eq→eq, ℕ, ◌+◌, ◌≡◌, refl, subst, ◌⊎◌, inl, inr, Bool, true, false, ◌&&◌, List, [], ◌∷◌,
  Option, some, In, zero, suc, take, In-filter, any, any-eq_true, any-eq_false, Text, text_eq,
  text_eq_iff, arith, Bool-cases, ok,
}
use lawang.Outbox.{Row, Table, has_id}
use lawang.Outbox.Queries.{
  update_held, held_row, accept_row, new_row, park_row, parked_row, claim_rows, claim_batch, leased,
  claimable, retry_row, retried, halt_row, halted, release_row, released, mark_prepared_row,
  marked_prepared, preparable, insert_due, sort_due,
}
use lawang.Outbox.Marker.{IsWellFormed}
use lawang.Outbox.Marker.Stable.{IsInPlace, update-IsWellFormed}
use lawang.Outbox.Marker.Insert.{insert-IsWellFormed}

new_id-apart :
    (id : Text) (t : Table) (u : Row) → any (has_id id) t.rows ≡ false → In u t.rows → ¬ (u.id ≡ id)
unfolding has_id
new_id-apart id t u h m e =
    ground (arith, any-eq_false (has_id id) t.rows u h m, text_eq_iff u.id id)

skip-IsWellFormed :
    (t : Table) → IsWellFormed t → IsWellFormed (record t { next_seq = t.next_seq + 1 })
skip-IsWellFormed t v = record {
  ids_differ = v.ids_differ;
  seqs_differ = v.seqs_differ;
  seqs_below = λ r m. omega (arith, v.seqs_below r m);
  head_unfinished = v.head_unfinished;
  head_first = v.head_first;
  has_head = v.has_head;
  leased_head = v.leased_head;
}

pub accept_row-IsWellFormed :
    (now : ℕ) (id tenant provider delivery key body : Text) (t : Table) {o : Option Text × Table}
    → accept_row now id tenant provider delivery key body t ≡ ok o
    → IsWellFormed t
    → IsWellFormed o.1
unfolding accept_row new_row
accept_row-IsWellFormed now id tenant provider delivery key body t e v =
    elim (Bool-cases
      (any (λ u. text_eq u.tenant_id tenant && text_eq u.delivery_id delivery) t.rows)) [
        | inl q ↦ subst IsWellFormed (ground arith) (skip-IsWellFormed t v)
        | inr q ↦ elim (Bool-cases (any (has_id id) t.rows)) [
          | inl dup ↦ ground arith
          | inr apart ↦ subst IsWellFormed (ground arith) (
              insert-IsWellFormed t (new_row now id tenant provider delivery key body t)
                (record {
                  at_back = refl;
                  new_id = λ u m. new_id-apart id t u apart m;
                  head_if_idle = λ h. refl;
                  not_head_if_finished = λ h. cc;
                  not_leased = refl;
                })
                v)
        ]
      ]

pub park_row-IsWellFormed :
    (now : ℕ) (id tenant provider delivery body reason : Text) (t : Table) {o : Option Text × Table}
    → park_row now id tenant provider delivery body reason t ≡ ok o
    → IsWellFormed t
    → IsWellFormed o.1
unfolding park_row parked_row
park_row-IsWellFormed now id tenant provider delivery body reason t e v =
    elim (Bool-cases
      (any (λ u. text_eq u.tenant_id tenant && text_eq u.delivery_id delivery) t.rows)) [
        | inl q ↦ subst IsWellFormed (ground arith) (skip-IsWellFormed t v)
        | inr q ↦ elim (Bool-cases (any (has_id id) t.rows)) [
          | inl dup ↦ ground arith
          | inr apart ↦ subst IsWellFormed (ground arith) (
              insert-IsWellFormed t (parked_row now id tenant provider delivery body reason t)
                (record {
                  at_back = refl;
                  new_id = λ u m. new_id-apart id t u apart m;
                  head_if_idle = λ h. cc;
                  not_head_if_finished = λ h. refl;
                  not_leased = refl;
                })
                v)
        ]
      ]

In-take : (n : ℕ) (rows : List Row) (r : Row) → In r (take n rows) → In r rows
In-take zero rows r m = absurd m
In-take (suc n) [] r m = absurd m
In-take (suc n) (x ∷ rows) r (inl e) = inl e
In-take (suc n) (x ∷ rows) r (inr m) = inr (In-take n rows r m)

In-insert_due :
    (x : Row) (rows : List Row) (r : Row) → In r (insert_due x rows) → (r ≡ x) ⊎ In r rows
unfolding insert_due
In-insert_due x [] r (inl e) = inl e
In-insert_due x [] r (inr m) = absurd m
In-insert_due x (y ∷ rows) r m = ground (arith, In-insert_due x rows r)

In-sort_due : (rows : List Row) (r : Row) → In r (sort_due rows) → In r rows
unfolding sort_due
In-sort_due [] r m = absurd m
In-sort_due (x ∷ rows) r m = elim (In-insert_due x (sort_due rows) r m) [
  | inl e ↦ inl e
  | inr k ↦ inr (In-sort_due rows r k)
]

-- A claimed row is a row of the table that was claimable.
pub claim_batch-claimable :
    (now : ℕ) (locked : Text → Bool) (batch : ℕ) (t : Table) (r : Row)
    → In r (claim_batch now locked batch t)
    → In r t.rows × (claimable now locked r ≡ true)
unfolding claim_batch
claim_batch-claimable now locked batch t r m =
    In-filter (claimable now locked) t.rows r (In-sort_due _ r (In-take batch _ r m))

-- The update of Claim takes only heads that were due.
pub claim_takes :
    (now : ℕ) (locked : Text → Bool) (batch : ℕ) (t : Table) (r : Row)
    → IsWellFormed t
    → In r t.rows
    → any (has_id r.id) (claim_batch now locked batch t) ≡ true
    → claimable now locked r ≡ true
unfolding has_id
claim_takes now locked batch t r v m h =
    let (b, hb, e) = any-eq_true (has_id r.id) (claim_batch now locked batch t) h in
    let (inside, c) = claim_batch-claimable now locked batch t b hb in
    let i : b ≡ r = v.ids_differ b r inside m (text_eq→eq b.id r.id e) in rw i at c

pub claim_rows-IsWellFormed :
    (now : ℕ) (locked : Text → Bool) (batch lease : ℕ) (token : Text) (t : Table)
    → IsWellFormed t
    → IsWellFormed (claim_rows now locked batch lease token t).1
unfolding claim_rows leased claimable
claim_rows-IsWellFormed now locked batch lease token t v =
    update-IsWellFormed (λ r. any (has_id r.id) (claim_batch now locked batch t))
      (leased now lease token) t
      (λ r m h. record {
        id_same = refl;
        seq_same = refl;
        tenant_same = refl;
        key_same = refl;
        head_same = refl;
        unfinished_same = refl;
        lease_needs_head = λ u e. inl (ground (arith, claim_takes now locked batch t r v m h));
      })
      v

-- An update of a held row that keeps it in place.
update_held-IsWellFormed :
    (tenant id token : Text) (f : Row → Row) (t : Table) {s : Table}
    → ((r : Row) → IsInPlace f r)
    → update_held tenant id token f t ≡ some s
    → IsWellFormed t
    → IsWellFormed s
unfolding update_held
update_held-IsWellFormed tenant id token f t place e v =
    elim (Bool-cases (any (held_row tenant id token) t.rows)) [
      | inl q ↦
          subst IsWellFormed (ground arith)
            (update-IsWellFormed (held_row tenant id token) f t (λ r _ _. place r) v)
      | inr q ↦ ground arith
    ]

pub retry_row-IsWellFormed :
    (now : ℕ) (tenant id token : Text) (delay : ℕ) (error : Text) (t : Table) {s : Table}
    → retry_row now tenant id token delay error t ≡ some s
    → IsWellFormed t
    → IsWellFormed s
unfolding retry_row retried
retry_row-IsWellFormed now tenant id token delay error t =
    update_held-IsWellFormed tenant id token (retried now delay error) t (λ r. ground arith)

pub halt_row-IsWellFormed :
    (now : ℕ) (tenant id token : Text) (pause : ℕ) (error : Text) (t : Table) {s : Table}
    → halt_row now tenant id token pause error t ≡ some s
    → IsWellFormed t
    → IsWellFormed s
unfolding halt_row halted
halt_row-IsWellFormed now tenant id token pause error t =
    update_held-IsWellFormed tenant id token (halted now pause error) t (λ r. ground arith)

pub release_row-IsWellFormed :
    (tenant id token : Text) (t : Table) {s : Table}
    → release_row tenant id token t ≡ some s
    → IsWellFormed t
    → IsWellFormed s
unfolding release_row released
release_row-IsWellFormed tenant id token t =
    update_held-IsWellFormed tenant id token released t (λ r. ground arith)

pub mark_prepared_row-IsWellFormed :
    (now : ℕ) (tenant id token : Text) (t : Table) {s : Table}
    → mark_prepared_row now tenant id token t ≡ some s
    → IsWellFormed t
    → IsWellFormed s
unfolding mark_prepared_row marked_prepared preparable
mark_prepared_row-IsWellFormed now tenant id token t e v =
    elim (Bool-cases (any (preparable tenant id token) t.rows)) [
      | inl q ↦ subst IsWellFormed (ground arith) (
          update-IsWellFormed (preparable tenant id token) (marked_prepared now) t
            (λ r m h. record {
              id_same = refl;
              seq_same = refl;
              tenant_same = refl;
              key_same = refl;
              head_same = refl;
              unfinished_same = ground arith;
              lease_needs_head = λ u k. inr k;
            })
            v)
      | inr q ↦ ground arith
    ]
