-- ===== src/Outbox/Marker/Return.antt =====
-- Replay of internal/outbox: a finished row goes back to the end of the queue of its key.
use lawang.Prelude.{
  ◌+◌, ◌≤◌, ◌<◌, ◌≡◌, sym, ap, ◌∙◌, ◌⊎◌, inl, inr, Bool, true, false, not, none, some, In, any,
  Text, arith, Bool-cases,
}
use lawang.Outbox.{Row, Table, unfinished}
use lawang.Outbox.Queries.{busy, update}
use lawang.Outbox.Marker.{IsWellFormed, SameKey}
use lawang.Outbox.Marker.Insert.{busy-eq_false, busy-head}
use lawang.Outbox.Marker.Finish.{Only, update_cases, update_kept}

pub record Returns (t : Table) (f : Row → Row) (x : Row) : Type 0 where
  pub was_finished : unfinished x.state ≡ false
  pub id_same : (f x).id ≡ x.id
  pub tenant_same : (f x).tenant_id ≡ x.tenant_id
  pub key_same : (f x).ordering_key ≡ x.ordering_key
  pub at_back : (f x).seq ≡ t.next_seq
  pub reopened : unfinished (f x).state ≡ true
  pub head_if_idle : (f x).is_head ≡ not (any (busy x.tenant_id x.ordering_key) t.rows)
  pub not_leased : (f x).lease_token ≡ none

module _ (p : Row → Bool) (f : Row → Row) (t : Table) (x : Row) (member : In x t.rows)
    (taken : p x ≡ true) (only : Only p t.rows x) (l : Returns t f x) (v : IsWellFormed t) where
  pub return-IsWellFormed : IsWellFormed (record (update p f t) { next_seq = t.next_seq + 1 })
  return-IsWellFormed = record {
    ids_differ = ids;
    seqs_differ = seqs;
    seqs_below = below;
    head_unfinished = live;
    head_first = first;
    has_head = heads;
    leased_head = leases;
  }
    where
      cases : (r : Row) → In r (update p f t).rows → (r ≡ f x) ⊎ (In r t.rows × (p r ≡ false))
      cases = update_cases p f t x only

      ids : (r u : Row) → In r (update p f t).rows → In u (update p f t).rows → r.id ≡ u.id → r ≡ u
      ids r u hr hu h = elim (cases r hr) [
        | inl a ↦ elim (cases u hu) [
          | inl b ↦ a ∙ sym b
          | inr b ↦ let e = v.ids_differ x u member b.0 (ground (arith, l)) in absurd (cc (ap p e))
        ]
        | inr a ↦ elim (cases u hu) [
          | inl b ↦ let e = v.ids_differ x r member a.0 (ground (arith, l)) in absurd (cc (ap p e))
          | inr b ↦ v.ids_differ r u a.0 b.0 h
        ]
      ]

      seqs :
          (r u : Row) → In r (update p f t).rows → In u (update p f t).rows → r.seq ≡ u.seq → r ≡ u
      seqs r u hr hu h = elim (cases r hr) [
        | inl a ↦ elim (cases u hu) [
          | inl b ↦ a ∙ sym b
          | inr b ↦ ground (arith, l, v.seqs_below u b.0)
        ]
        | inr a ↦ elim (cases u hu) [
          | inl b ↦ ground (arith, l, v.seqs_below r a.0)
          | inr b ↦ v.seqs_differ r u a.0 b.0 h
        ]
      ]

      below : (r : Row) → In r (update p f t).rows → r.seq < t.next_seq + 1
      below r hr = elim (cases r hr) [
        | inl a ↦ ground (arith, l)
        | inr a ↦ omega (arith, v.seqs_below r a.0)
      ]

      live : (r : Row) → In r (update p f t).rows → r.is_head ≡ true → unfinished r.state ≡ true
      live r hr h = elim (cases r hr) [
        | inl a ↦ ground (arith, l)
        | inr a ↦ v.head_unfinished r a.0 h
      ]

      first :
          (r u : Row)
          → In r (update p f t).rows
          → In u (update p f t).rows
          → r.is_head ≡ true
          → unfinished u.state ≡ true
          → SameKey r u
          → r.seq ≤ u.seq
      first r u hr hu h k s = elim (cases r hr) [
        | inl a ↦ elim (cases u hu) [
          | inl b ↦ ground arith
          | inr b ↦ ground (arith, l, busy-eq_false t x u)
        ]
        | inr a ↦ elim (cases u hu) [
          | inl b ↦ ground (arith, l, v.seqs_below r a.0)
          | inr b ↦ v.head_first r u a.0 b.0 h k s
        ]
      ]

      -- A head was unfinished, so it is not the row that comes back.
      stays : (h : Row) → In h t.rows → h.is_head ≡ true → In h (update p f t).rows
      stays h hh e =
          let apart : p h ≡ false = elim (Bool-cases (p h)) [
            | inl q ↦ let i : h ≡ x = only h hh q in ground (arith, l, v.head_unfinished h hh e)
            | inr q ↦ q
          ] in
          update_kept p f t x only h hh apart

      itself : (r : Row) → In r (update p f t).rows → r ≡ f x → In (f x) (update p f t).rows
      itself r hr a = rw a at hr

      heads :
          (r : Row)
          → In r (update p f t).rows
          → unfinished r.state ≡ true
          → (h : Row) × In h (update p f t).rows × (h.is_head ≡ true) × SameKey h r
      heads r hr k = elim (cases r hr) [
        | inl a ↦ elim (Bool-cases (any (busy x.tenant_id x.ordering_key) t.rows)) [
          | inl q ↦ let (h, hh, e, s) = busy-head t x v q in (h, stays h hh e, e, ground (arith, l))
          | inr q ↦ (f x, itself r hr a, ground (arith, l), ground arith)
        ]
        | inr a ↦ let (h, hh, e, s) = v.has_head r a.0 k in (h, stays h hh e, e, s)
      ]

      leases :
          (r : Row) (token : Text)
          → In r (update p f t).rows
          → r.lease_token ≡ some token
          → r.is_head ≡ true
      leases r token hr h = elim (cases r hr) [
        | inl a ↦ ground (arith, l)
        | inr a ↦ v.leased_head r token a.0 h
      ]
