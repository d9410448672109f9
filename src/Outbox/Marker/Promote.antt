-- ===== src/Outbox/Marker/Promote.antt =====
-- PromoteNextHead of internal/outbox/outboxdb/queries.sql.go: the marker goes to the unfinished row
-- of the key with the lowest seq.
use lawang.Prelude.{
  map, ◌≤◌, ◌<◌, ◌≡◌, refl, ◌⊎◌, inl, inr, Bool, true, false, List, [], ◌∷◌, Option, none, some, In,
  ltb, Text, In-map, In-map_of, if◌then◌else◌, arith, Bool-cases, text_eq_iff,
}
use lawang.Outbox.{Row, Table, unfinished, of_key, has_id}
use lawang.Outbox.Queries.{update, first_of, earlier_seq, busy, promote, promote_next_head}
use lawang.Outbox.Marker.{IsWellFormed, SameKey, SameKey-of_key, of_key-eq}

-- `n` is the row with the least seq among those that `p` takes.
abbrev Least : (Row → Bool) → List Row → Option Row → Type 0
Least p rows none = (u : Row) → In u rows → p u ≡ false
Least p rows (some n) =
    In n rows × (p n ≡ true) × ((u : Row) → In u rows → p u ≡ true → n.seq ≤ u.seq)

first_of-Least : (p : Row → Bool) (rows : List Row) → Least p rows (first_of p rows)
unfolding first_of earlier_seq
first_of-Least p [] = λ u m. absurd m
first_of-Least p (r ∷ rs) = go (p r) refl (first_of p rs) (first_of-Least p rs)
  where
    go :
        (b : Bool)
        → p r ≡ b
        → (best : Option Row) → Least p rs best
        → Least p (r ∷ rs) (if b then earlier_seq r best else best)
    go true e none l =
        (inl refl, e, λ u m q. elim m [ inl a ↦ ground arith | inr a ↦ ground (arith, l u a) ])
    go true e (some n) l = elim (Bool-cases (ltb n.seq r.seq)) [
      | inl lt ↦ rw lt (inr l.0, l.1, λ u m q. elim m [ inl a ↦ ground arith | inr a ↦ l.2 u a q ])
      | inr ge ↦
          rw ge (
            inl refl,
            e,
            λ u m q. elim m [ inl a ↦ ground arith | inr a ↦ ground (arith, l.2 u a) ],
          )
    ]
    go false e none l = λ u m. elim m [ inl a ↦ ground arith | inr a ↦ l u a ]
    go false e (some n) l =
        (inr l.0, l.1, λ u m q. elim m [ inl a ↦ ground arith | inr a ↦ l.2 u a q ])

-- The table between the two statements: all but the head of the key of the row that left.
pub record IsBetween (tenant key : Text) (t : Table) : Type 0 where
  pub ids_differ : (r u : Row) → In r t.rows → In u t.rows → r.id ≡ u.id → r ≡ u
  pub seqs_differ : (r u : Row) → In r t.rows → In u t.rows → r.seq ≡ u.seq → r ≡ u
  pub seqs_below : (r : Row) → In r t.rows → r.seq < t.next_seq
  pub head_unfinished : (r : Row) → In r t.rows → r.is_head ≡ true → unfinished r.state ≡ true
  pub head_first :
      (r u : Row)
      → In r t.rows
      → In u t.rows
      → r.is_head ≡ true
      → unfinished u.state ≡ true
      → SameKey r u
      → r.seq ≤ u.seq
  pub has_head :
      (r : Row)
      → In r t.rows
      → unfinished r.state ≡ true
      → of_key tenant key r ≡ false
      → (h : Row) × In h t.rows × (h.is_head ≡ true) × SameKey h r
  pub leased_head :
      (r : Row) (token : Text) → In r t.rows → r.lease_token ≡ some token → r.is_head ≡ true

-- The promoted rows are the old ones, but for the marker of one.
abbrev crowned : Row → Row → Row
crowned n r = if has_id n.id r then record r { is_head = true } else r

record IsCrowned (n r : Row) : Type 0 where
  id_same : (crowned n r).id ≡ r.id
  seq_same : (crowned n r).seq ≡ r.seq
  tenant_same : (crowned n r).tenant_id ≡ r.tenant_id
  key_same : (crowned n r).ordering_key ≡ r.ordering_key
  state_same : (crowned n r).state ≡ r.state
  lease_same : (crowned n r).lease_token ≡ r.lease_token
  head_kept : r.is_head ≡ true → (crowned n r).is_head ≡ true
  head_new : (crowned n r).is_head ≡ true → (r.is_head ≡ true) ⊎ (r.id ≡ n.id)
  head_given : r.id ≡ n.id → (crowned n r).is_head ≡ true

promote-IsCrowned : (n r : Row) → IsCrowned n r
unfolding has_id
promote-IsCrowned n r = ground (arith, text_eq_iff r.id n.id)

busy-eq :
    (tenant key : Text) (u : Row)
    → busy tenant key u ≡ true
    → (u.tenant_id ≡ tenant) × (u.ordering_key ≡ key) × (unfinished u.state ≡ true)
unfolding busy
busy-eq tenant key u h = ground (arith, of_key-eq tenant key u)

busy_of :
    (tenant key : Text) (u : Row)
    → of_key tenant key u ≡ true
    → unfinished u.state ≡ true
    → busy tenant key u ≡ true
unfolding busy
busy_of tenant key u h k = rw h k

module _ (tenant key : Text) (t : Table) (b : IsBetween tenant key t) (n : Row)
    (member : In n t.rows) (wanted : busy tenant key n ≡ true)
    (least : (u : Row) → In u t.rows → busy tenant key u ≡ true → n.seq ≤ u.seq) where
  crown-IsWellFormed : IsWellFormed (record t { rows = map (crowned n) t.rows })
  crown-IsWellFormed = record {
    ids_differ = λ r u hr hu e.
        let (x, hx, ex) = In-map (crowned n) t.rows r hr in
        let (y, hy, ey) = In-map (crowned n) t.rows u hu in
        let s : x ≡ y =
          b.ids_differ x y hx hy (ground (arith, promote-IsCrowned n x, promote-IsCrowned n y)) in
        cc;
    seqs_differ = λ r u hr hu e.
        let (x, hx, ex) = In-map (crowned n) t.rows r hr in
        let (y, hy, ey) = In-map (crowned n) t.rows u hu in
        let s : x ≡ y =
          b.seqs_differ x y hx hy (ground (arith, promote-IsCrowned n x, promote-IsCrowned n y)) in
        cc;
    seqs_below = λ r hr.
        let (x, hx, ex) = In-map (crowned n) t.rows r hr in
        ground (arith, promote-IsCrowned n x, b.seqs_below x hx);
    head_unfinished = λ r hr h.
        let (x, hx, ex) = In-map (crowned n) t.rows r hr in
        rw (ex, (promote-IsCrowned n x).state_same)
          (live x hx ((promote-IsCrowned n x).head_new (ground arith)));
    head_first = λ r u hr hu h k s.
        let (x, hx, ex) = In-map (crowned n) t.rows r hr in
        let (y, hy, ey) = In-map (crowned n) t.rows u hu in
        let d = promote-IsCrowned n y in
        let c = promote-IsCrowned n x in
        rw (ex, ey, c.seq_same, d.seq_same)
          (first x y hx hy (c.head_new (ground arith)) (ground (arith, d)) (ground (arith, c, d)));
    has_head = λ r hr k.
        let (x, hx, ex) = In-map (crowned n) t.rows r hr in
        let c = promote-IsCrowned n x in
        let (h, hh, e, s) = heads x hx (ground (arith, c)) in (h, hh, e, ground (arith, c));
    leased_head = λ r token hr h.
        let (x, hx, ex) = In-map (crowned n) t.rows r hr in
        let c = promote-IsCrowned n x in
        rw ex (c.head_kept (b.leased_head x token hx (ground (arith, c))));
  }
    where
      of_n : (x : Row) → In x t.rows → x.id ≡ n.id → x ≡ n
      of_n x hx e = b.ids_differ x n hx member e

      live :
          (x : Row) → In x t.rows → (x.is_head ≡ true) ⊎ (x.id ≡ n.id) → unfinished x.state ≡ true
      live x hx (inl h) = b.head_unfinished x hx h
      live x hx (inr e) = ground (arith, of_n x hx e, busy-eq tenant key n wanted)

      first :
          (x y : Row)
          → In x t.rows
          → In y t.rows
          → (x.is_head ≡ true) ⊎ (x.id ≡ n.id)
          → unfinished y.state ≡ true
          → SameKey x y
          → x.seq ≤ y.seq
      first x y hx hy (inl h) k s = b.head_first x y hx hy h k s
      first x y hx hy (inr e) k s =
          let i = of_n x hx e in
          let w = busy-eq tenant key n wanted in
          rw i (
            least y hy
              (busy_of tenant key y (SameKey-of_key tenant key y (ground arith) (ground arith)) k))

      heads :
          (x : Row)
          → In x t.rows
          → unfinished x.state ≡ true
          → (h : Row) × In h (map (crowned n) t.rows) × (h.is_head ≡ true) × SameKey h x
      heads x hx k = elim (Bool-cases (of_key tenant key x)) [
        | inl q ↦
            let w = busy-eq tenant key n wanted in
            let c = promote-IsCrowned n n in
            (
              crowned n n,
              In-map_of (crowned n) t.rows n member,
              c.head_given refl,
              ground (arith, c, of_key-eq tenant key x q),
            )
        | inr q ↦
            let (h, hh, e, s) = b.has_head x hx k q in
            let c = promote-IsCrowned n h in
            (crowned n h, In-map_of (crowned n) t.rows h hh, c.head_kept e, ground (arith, c))
      ]

-- After the marker is handed on, the table is well formed again.
pub promote_next_head-IsWellFormed :
    (tenant key : Text) (t : Table)
    → IsBetween tenant key t
    → IsWellFormed (promote_next_head tenant key t)
unfolding promote_next_head promote update
promote_next_head-IsWellFormed tenant key t b =
    go (first_of (busy tenant key) t.rows) (first_of-Least (busy tenant key) t.rows)
  where
    go : (best : Option Row) → Least (busy tenant key) t.rows best → IsWellFormed (promote best t)
    go none l = record {
      ids_differ = b.ids_differ;
      seqs_differ = b.seqs_differ;
      seqs_below = b.seqs_below;
      head_unfinished = b.head_unfinished;
      head_first = b.head_first;
      has_head = λ r hr k. elim (Bool-cases (of_key tenant key r)) [
        | inl q ↦ absurd (cc (l r hr, busy_of tenant key r q k))
        | inr q ↦ b.has_head r hr k q
      ];
      leased_head = b.leased_head;
    }
    go (some n) l = crown-IsWellFormed tenant key t b n l.0 l.1 l.2
