-- ===== src/Outbox/Duplicates.antt =====
-- Accept of internal/outbox/outbox.go on a delivery that the tenant already has.
use lawang.Prelude.{
  ℕ, ◌≡◌, refl, inl, true, ◌&&◌, any, any-eq_true_of, ◌∷◌, Option, none, some, In, Text, text_eq,
  text_eq_self, arith, ok, >>=-eq_ok, length, ltb, ◌==◌, ◌||◌, not,
}
use lawang.Ids
use lawang.Outbox.{Row, Table, bad_ordering_key, bad_provider}
use lawang.Outbox.Queries.{accept_row, new_row}
use lawang.Outbox.Operations.{Delivery, accept, accept_in, minted, storable, max_ordering_key_len}
use lawang.Outbox.Marker.Entry.{tenant_tx-ok, refuse-ok}

-- A delivery that answers has been minted an id, and its insert ran.
pub accept-ok :
    (sum : Text → Text) (now : ℕ) (id tenant : Text) (d : Delivery) (t : Table)
    {o : Option Text × Table}
    → accept sum now id tenant d t ≡ ok o
    → (delivery : Text) × (minted (Ids.delivery_id sum d.provider d.raw_body) ≡ ok delivery)
      × (accept_row now id tenant d.provider delivery d.ordering_key d.raw_body t ≡ ok o)
unfolding accept accept_in
accept-ok sum now id tenant d t e =
    let k = tenant_tx-ok tenant (accept_in sum now id tenant d) t e in
    let k' =
      refuse-ok
        (length d.ordering_key == 0
          || (ltb max_ordering_key_len (length d.ordering_key) || not (storable d.ordering_key)))
        bad_ordering_key _ k in
    let (delivery, h, k'') = >>=-eq_ok (minted (Ids.delivery_id sum d.provider d.raw_body)) _ k' in
    (delivery, h, refuse-ok (not (storable d.provider)) bad_provider _ k'')

-- The row that a fresh delivery adds carries the id of its provider and body.
accept_row-fresh :
    (now : ℕ) (id tenant provider delivery key body : Text) (t s : Table) (i : Text)
    → accept_row now id tenant provider delivery key body t ≡ ok (some i, s)
    → s.rows ≡ new_row now id tenant provider delivery key body t ∷ t.rows
unfolding accept_row
accept_row-fresh now id tenant provider delivery key body t s i e = ground arith

accept_row-known :
    (now : ℕ) (id tenant provider delivery key body : Text) (t : Table) (o : Option Text × Table)
    → any (λ u. text_eq u.tenant_id tenant && text_eq u.delivery_id delivery) t.rows ≡ true
    → accept_row now id tenant provider delivery key body t ≡ ok o
    → (o.0 ≡ none) × (o.1.rows ≡ t.rows)
unfolding accept_row
accept_row-known now id tenant provider delivery key body t o h e = ground arith

-- Once a tenant has accepted a delivery, in every later table where its row still stands, claimed,
-- tried, delivered or dead meanwhile, accepting the same provider and body again, under any new
-- id, key and time, is answered "not fresh" and adds no row.
pub accept_twice :
    (sum : Text → Text) (now later : ℕ) (id id' tenant key : Text) (d : Delivery) (t s : Table)
    (i : Text) (u : Table) (o : Option Text × Table)
    → accept sum now id tenant d t ≡ ok (some i, s)
    → ((r : Row)
        → In r s.rows
        → (w : Row) × In w u.rows × (w.tenant_id ≡ r.tenant_id) × (w.delivery_id ≡ r.delivery_id))
    → accept sum later id' tenant (record d { ordering_key = key }) u ≡ ok o
    → (o.0 ≡ none) × (o.1.rows ≡ u.rows)
unfolding new_row
accept_twice sum now later id id' tenant key d t s i u o e kept e' =
    let (delivery, h, k) = accept-ok sum now id tenant d t e in
    let (delivery', h', k') =
      accept-ok sum later id' tenant (record d { ordering_key = key }) u e' in
    let same : delivery ≡ delivery' = ground arith in
    let row = new_row now id tenant d.provider delivery d.ordering_key d.raw_body t in
    let rows =
      accept_row-fresh now id tenant d.provider delivery d.ordering_key d.raw_body t s i k in
    let inside : In row s.rows = rw rows (inl refl) in
    let (w, stands, a, b) = kept row inside in
    accept_row-known later id' tenant d.provider delivery' key d.raw_body u o
      (any-eq_true_of _ u.rows w stands
        (rw (a, b, ← same, text_eq_self tenant, text_eq_self delivery) refl))
      k'
