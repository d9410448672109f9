-- ===== src/Outbox/Marker/Finish.antt =====
-- MarkDelivered and MarkDead of internal/outbox: the row leaves the queue, and PromoteNextHead hands
-- the marker to the next row of its key.
use lawang.Prelude.{
  subst, sym, ◌≤◌, ◌<◌, ◌≡◌, refl, ap, ◌∙◌, ◌⊎◌, inl, inr, Bool, true, false, List, none, some, In,
  Text, In-map, In-map_of, if◌then◌else◌, arith, Bool-cases,
}
use lawang.Outbox.{Row, Table, unfinished, of_key}
use lawang.Outbox.Queries.{update}
use lawang.Outbox.Marker.Promote.{IsBetween}
use lawang.Outbox.Marker.{IsWellFormed, SameKey, SameKey-of_key}

-- What finishing does to the row that it takes.
pub record Leaves (f : Row → Row) (x : Row) : Type 0 where
  pub id_same : (f x).id ≡ x.id
  pub seq_same : (f x).seq ≡ x.seq
  pub tenant_same : (f x).tenant_id ≡ x.tenant_id
  pub key_same : (f x).ordering_key ≡ x.ordering_key
  pub no_head : (f x).is_head ≡ false
  pub finished : unfinished (f x).state ≡ false
  pub no_lease : (f x).lease_token ≡ none

-- `p` takes the row `x` and no other.
abbrev pub Only : (Row → Bool) → List Row → Row → Type 0
Only p rows x = (r : Row) → In r rows → p r ≡ true → r ≡ x

module _ (p : Row → Bool) (f : Row → Row) (t : Table) (x : Row) (only : Only p t.rows x) where
  pub update_cases :
      (r : Row) → In r (update p f t).rows → (r ≡ f x) ⊎ (In r t.rows × (p r ≡ false))
  unfolding update
  update_cases r m =
      let (y, hy, e) = In-map (λ (r : Row). if p r then f r else r) t.rows r m in
      elim (Bool-cases (p y)) [
        | inl q ↦ inl (e ∙ rw q (ap f (only y hy q)))
        | inr q ↦ let s : r ≡ y = e ∙ rw q refl in inr (rw s (hy, q))
      ]

  pub update_kept : (r : Row) → In r t.rows → p r ≡ false → In r (update p f t).rows
  unfolding update
  update_kept r m q =
      subst (λ (s : Row). In s (update p f t).rows) (rw q refl)
        (In-map_of (λ (r : Row). if p r then f r else r) t.rows r m)

module _ (p : Row → Bool) (f : Row → Row) (t : Table) (x : Row) (member : In x t.rows)
    (taken : p x ≡ true) (only : Only p t.rows x) (l : Leaves f x) (v : IsWellFormed t) where
  pub leave-IsBetween : IsBetween x.tenant_id x.ordering_key (update p f t)
  unfolding update
  leave-IsBetween = record {
    ids_differ = ids;
    seqs_differ = seqs;
    seqs_below = below;
    head_unfinished = live;
    head_first = first;
    has_head = heads;
    leased_head = leases;
  }
    where
      cases : (r : Row) → In r (update p f t).rows → (r ≡ f x) ⊎ (In r t.rows × (p r ≡ false))
      cases = update_cases p f t x only

      rest-ne : (u : Row) → p u ≡ false → ¬ (x ≡ u)
      rest-ne u q e = cc (ap p e)

      ids : (r u : Row) → In r (update p f t).rows → In u (update p f t).rows → r.id ≡ u.id → r ≡ u
      ids r u hr hu h = elim (cases r hr) [
        | inl a ↦ elim (cases u hu) [
          | inl b ↦ a ∙ sym b
          | inr b ↦ absurd (rest-ne u b.1 (v.ids_differ x u member b.0 (ground (arith, l))))
        ]
        | inr a ↦ elim (cases u hu) [
          | inl b ↦ absurd (rest-ne r a.1 (v.ids_differ x r member a.0 (ground (arith, l))))
          | inr b ↦ v.ids_differ r u a.0 b.0 h
        ]
      ]

      seqs :
          (r u : Row) → In r (update p f t).rows → In u (update p f t).rows → r.seq ≡ u.seq → r ≡ u
      seqs r u hr hu h = elim (cases r hr) [
        | inl a ↦ elim (cases u hu) [
          | inl b ↦ a ∙ sym b
          | inr b ↦ absurd (rest-ne u b.1 (v.seqs_differ x u member b.0 (ground (arith, l))))
        ]
        | inr a ↦ elim (cases u hu) [
          | inl b ↦ absurd (rest-ne r a.1 (v.seqs_differ x r member a.0 (ground (arith, l))))
          | inr b ↦ v.seqs_differ r u a.0 b.0 h
        ]
      ]

      below : (r : Row) → In r (update p f t).rows → r.seq < t.next_seq
      below r hr = elim (cases r hr) [
        | inl a ↦ ground (arith, l, v.seqs_below x member)
        | inr a ↦ v.seqs_below r a.0
      ]

      -- A head that is left was there before.
      kept : (r : Row) → In r (update p f t).rows → r.is_head ≡ true → In r t.rows
      kept r hr h = elim (cases r hr) [ inl a ↦ ground (arith, l) | inr a ↦ a.0 ]

      kept_live : (r : Row) → In r (update p f t).rows → unfinished r.state ≡ true → In r t.rows
      kept_live r hr h = elim (cases r hr) [ inl a ↦ ground (arith, l) | inr a ↦ a.0 ]

      live : (r : Row) → In r (update p f t).rows → r.is_head ≡ true → unfinished r.state ≡ true
      live r hr h = v.head_unfinished r (kept r hr h) h

      first :
          (r u : Row)
          → In r (update p f t).rows
          → In u (update p f t).rows
          → r.is_head ≡ true
          → unfinished u.state ≡ true
          → SameKey r u
          → r.seq ≤ u.seq
      first r u hr hu h k s = v.head_first r u (kept r hr h) (kept_live u hu k) h k s

      heads :
          (r : Row)
          → In r (update p f t).rows
          → unfinished r.state ≡ true
          → of_key x.tenant_id x.ordering_key r ≡ false
          → (h : Row) × In h (update p f t).rows × (h.is_head ≡ true) × SameKey h r
      heads r hr k o =
          let (h, hh, e, s) = v.has_head r (kept_live r hr k) k in
          let apart : p h ≡ false = elim (Bool-cases (p h)) [
            | inl q ↦
                let i : h ≡ x = only h hh q in
                absurd
                  (cc (SameKey-of_key x.tenant_id x.ordering_key r (ground arith) (ground arith)))
            | inr q ↦ q
          ] in
          (h, update_kept p f t x only h hh apart, e, s)

      leases :
          (r : Row) (token : Text)
          → In r (update p f t).rows
          → r.lease_token ≡ some token
          → r.is_head ≡ true
      leases r token hr h = elim (cases r hr) [
        | inl a ↦ ground (arith, l)
        | inr a ↦ v.leased_head r token a.0 h
      ]
