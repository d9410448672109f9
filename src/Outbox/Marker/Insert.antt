-- ===== src/Outbox/Marker/Insert.antt =====
-- Accept, Park and Replay of internal/outbox: a row that enters the queue of its key at the back.
use lawang.Prelude.{
  ◌+◌, ◌≤◌, ◌<◌, ◌≡◌, refl, sym, ap, ◌∙◌, inl, inr, true, false, not, ◌∷◌, none, some, In, any,
  any-eq_false, any-eq_true, Text, arith, Bool-cases,
}
use lawang.Outbox.{Row, Table, unfinished}
use lawang.Outbox.Queries.{busy}
use lawang.Outbox.Marker.{IsWellFormed, SameKey, SameKey-of_key, of_key-eq}

-- No unfinished row of the key stands in the table.
pub busy-eq_false :
    (t : Table) (r u : Row)
    → any (busy r.tenant_id r.ordering_key) t.rows ≡ false
    → In u t.rows
    → SameKey u r
    → unfinished u.state ≡ false
unfolding busy
busy-eq_false t r u h hu s = ground (
  arith,
  any-eq_false (busy r.tenant_id r.ordering_key) t.rows u h hu,
  SameKey-of_key r.tenant_id r.ordering_key u,
)

-- A busy key has a head.
pub busy-head :
    (t : Table) (r : Row)
    → IsWellFormed t
    → any (busy r.tenant_id r.ordering_key) t.rows ≡ true
    → (h : Row) × In h t.rows × (h.is_head ≡ true) × SameKey h r
unfolding busy
busy-head t r v h =
    let (u, hu, e) = any-eq_true (busy r.tenant_id r.ordering_key) t.rows h in
    let s = of_key-eq r.tenant_id r.ordering_key u (ground arith) in
    let (x, hx, k, q) = v.has_head u hu (ground arith) in (x, hx, k, ground arith)

-- What a row brings along when it enters at the back of the queue.
pub record Enters (t : Table) (n : Row) : Type 0 where
  pub at_back : n.seq ≡ t.next_seq
  pub new_id : (u : Row) → In u t.rows → ¬ (u.id ≡ n.id)
  pub head_if_idle :
      unfinished n.state ≡ true → n.is_head ≡ not (any (busy n.tenant_id n.ordering_key) t.rows)
  pub not_head_if_finished : unfinished n.state ≡ false → n.is_head ≡ false
  pub not_leased : n.lease_token ≡ none

pub insert-IsWellFormed :
    (t : Table) (n : Row)
    → Enters t n
    → IsWellFormed t
    → IsWellFormed (record t { rows = n ∷ t.rows; next_seq = t.next_seq + 1 })
insert-IsWellFormed t n e v = record {
  ids_differ = ids;
  seqs_differ = seqs;
  seqs_below = below;
  head_unfinished = live;
  head_first = first;
  has_head = heads;
  leased_head = leases;
}
  where
    ids : (r u : Row) → In r (n ∷ t.rows) → In u (n ∷ t.rows) → r.id ≡ u.id → r ≡ u
    ids r u (inl a) (inl b) h = a ∙ sym b
    ids r u (inl a) (inr b) h = absurd (e.new_id u b (sym h ∙ ap (λ (x : Row). x.id) a))
    ids r u (inr a) (inl b) h = absurd (e.new_id r a (h ∙ ap (λ (x : Row). x.id) b))
    ids r u (inr a) (inr b) h = v.ids_differ r u a b h

    seqs : (r u : Row) → In r (n ∷ t.rows) → In u (n ∷ t.rows) → r.seq ≡ u.seq → r ≡ u
    seqs r u (inl a) (inl b) h = a ∙ sym b
    seqs r u (inl a) (inr b) h = ground (arith, e, v.seqs_below u b)
    seqs r u (inr a) (inl b) h = ground (arith, e, v.seqs_below r a)
    seqs r u (inr a) (inr b) h = v.seqs_differ r u a b h

    below : (r : Row) → In r (n ∷ t.rows) → r.seq < t.next_seq + 1
    below r (inl a) = ground (arith, e)
    below r (inr a) = omega (arith, v.seqs_below r a)

    live : (r : Row) → In r (n ∷ t.rows) → r.is_head ≡ true → unfinished r.state ≡ true
    live r (inl a) h = ground (arith, e)
    live r (inr a) h = v.head_unfinished r a h

    first :
        (r u : Row)
        → In r (n ∷ t.rows)
        → In u (n ∷ t.rows)
        → r.is_head ≡ true
        → unfinished u.state ≡ true
        → SameKey r u
        → r.seq ≤ u.seq
    first r u (inl a) (inl b) h k s = ground arith
    first r u (inl a) (inr b) h k s = ground (arith, e, live r (inl a) h, busy-eq_false t n u)
    first r u (inr a) (inl b) h k s = ground (arith, e, v.seqs_below r a)
    first r u (inr a) (inr b) h k s = v.head_first r u a b h k s

    heads :
        (r : Row)
        → In r (n ∷ t.rows)
        → unfinished r.state ≡ true
        → (h : Row) × In h (n ∷ t.rows) × (h.is_head ≡ true) × SameKey h r
    heads r (inl a) k = elim (Bool-cases (any (busy n.tenant_id n.ordering_key) t.rows)) [
      | inl q ↦ let (h, hh, p, s) = busy-head t n v q in (h, inr hh, p, ground arith)
      | inr q ↦ (n, inl refl, ground (arith, e), ground arith)
    ]
    heads r (inr a) k = let (h, hh, p, s) = v.has_head r a k in (h, inr hh, p, s)

    leases :
        (r : Row) (token : Text) → In r (n ∷ t.rows) → r.lease_token ≡ some token → r.is_head ≡ true
    leases r token (inl a) h = ground (arith, e)
    leases r token (inr a) h = v.leased_head r token a h
