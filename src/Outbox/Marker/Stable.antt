-- ===== src/Outbox/Marker/Stable.antt =====
-- The statements of internal/outbox/outboxdb/queries.sql.go that keep a row in its place: they
-- change neither its key, its seq, its marker nor whether it is finished.
use lawang.Prelude.{
  if◌then◌else◌, Bool-cases, inr, inl, ◌≡◌, ◌⊎◌, true, map, some, In, In-map, In-map_of, Text,
  arith,
}
use lawang.Outbox.{Bool, Row, Table, unfinished}
use lawang.Outbox.Queries.{update}
use lawang.Outbox.Marker.{update, IsWellFormed}

-- `f` keeps the place of `r`, and leases it only if it is a head.
pub record IsInPlace (f : Row → Row) (r : Row) : Type 0 where
  pub id_same : (f r).id ≡ r.id
  pub seq_same : (f r).seq ≡ r.seq
  pub tenant_same : (f r).tenant_id ≡ r.tenant_id
  pub key_same : (f r).ordering_key ≡ r.ordering_key
  pub head_same : (f r).is_head ≡ r.is_head
  pub unfinished_same : unfinished (f r).state ≡ unfinished r.state
  pub lease_needs_head :
      (token : Text)
      → (f r).lease_token ≡ some token
      → (r.is_head ≡ true) ⊎ (r.lease_token ≡ some token)

pub map-IsWellFormed :
    (f : Row → Row) (t : Table)
    → ((r : Row) → In r t.rows → IsInPlace f r)
    → IsWellFormed t
    → IsWellFormed (record t { rows = map f t.rows })
map-IsWellFormed f t place v = record {
  ids_differ = λ r u hr hu e.
      let (x, hx, ex) = In-map f t.rows r hr in
      let (y, hy, ey) = In-map f t.rows u hu in
      let s : x ≡ y = v.ids_differ x y hx hy (ground (arith, place x hx, place y hy)) in cc;
  seqs_differ = λ r u hr hu e.
      let (x, hx, ex) = In-map f t.rows r hr in
      let (y, hy, ey) = In-map f t.rows u hu in
      let s : x ≡ y = v.seqs_differ x y hx hy (ground (arith, place x hx, place y hy)) in cc;
  seqs_below = λ r hr.
      let (x, hx, ex) = In-map f t.rows r hr in ground (arith, place x hx, v.seqs_below x hx);
  head_unfinished = λ r hr h.
      let (x, hx, ex) = In-map f t.rows r hr in ground (arith, place x hx, v.head_unfinished x hx);
  head_first = λ r u hr hu h k s.
      let (x, hx, ex) = In-map f t.rows r hr in
      let (y, hy, ey) = In-map f t.rows u hu in
      ground (arith, place x hx, place y hy, v.head_first x y hx hy);
  has_head = λ r hr h.
      let (x, hx, ex) = In-map f t.rows r hr in
      let (y, hy, hh, s) = v.has_head x hx (ground (arith, place x hx)) in
      (
        f y,
        In-map_of f t.rows y hy,
        ground (arith, place y hy),
        ground (arith, place x hx, place y hy),
      );
  leased_head = λ r token hr h.
      let (x, hx, ex) = In-map f t.rows r hr in
      ground (arith, place x hx, (place x hx).lease_needs_head token, v.leased_head x token hx);
}

-- An update of rows that keeps each row that it changes in place.
pub update-IsWellFormed :
    (p : Row → Bool) (f : Row → Row) (t : Table)
    → ((r : Row) → In r t.rows → p r ≡ true → IsInPlace f r)
    → IsWellFormed t
    → IsWellFormed (update p f t)
unfolding update
update-IsWellFormed p f t place =
    map-IsWellFormed (λ r. if p r then f r else r) t
      λ r hr. elim (Bool-cases (p r)) [
        | inl e ↦
            let q = place r hr e in
            record {
              id_same = rw e q.id_same;
              seq_same = rw e q.seq_same;
              tenant_same = rw e q.tenant_same;
              key_same = rw e q.key_same;
              head_same = rw e q.head_same;
              unfinished_same = rw e q.unfinished_same;
              lease_needs_head = λ token. rw e (q.lease_needs_head token);
            }
        | inr e ↦ record {
          id_same = rw e;
          seq_same = rw e;
          tenant_same = rw e;
          key_same = rw e;
          head_same = rw e;
          unfinished_same = rw e;
          lease_needs_head = λ token. rw e (λ h. inr h);
        }
      ]
