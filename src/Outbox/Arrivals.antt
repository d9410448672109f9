-- ===== src/Outbox/Arrivals.antt =====
-- Accept and Park of internal/outbox/outbox.go: which rows they add.
use lawang.Prelude.{
  ℕ, ◌≡◌, refl, inl, inr, ◌⊎◌, any, Bool-cases, ◌∷◌, ◌&&◌, Option, In, Text, text_eq, arith, ok,
  >>=-eq_ok, length, not, if◌then◌else◌, subst,
}
use lawang.Tenancy
use lawang.Ids
use lawang.Outbox.{has_id, Row, Table, dead, bad_provider}
use lawang.Outbox.Queries.{accept_row, park_row, new_row, parked_row}
use lawang.Outbox.Operations.{
  Delivery, ParkReason, accept, park, minted, storable, reasoned, park_reason_text, keeps_body,
  body_not_kept,
}
use lawang.Outbox.Marker.Entry.{tenant_tx-ok, refuse-ok}
use lawang.Outbox.Duplicates.{accept-ok}

-- The rows of `s` are those of `t`, and perhaps one more, which is as `IsNew` says.
abbrev pub AddsOnly : (Row → Type 0) → Table → Table → Type 0
AddsOnly IsNew t s =
    ((x : Row) → In x t.rows → In x s.rows) × ((x : Row) → In x s.rows → In x t.rows ⊎ IsNew x)

-- A delivery as it is stored for a tenant.
abbrev pub IsDeliveryOf : Text → Delivery → Row → Type 0
IsDeliveryOf tenant d x =
    (x.tenant_id ≡ tenant)
    × (x.provider ≡ d.provider)
    × (x.ordering_key ≡ d.ordering_key)
    × (x.raw_body ≡ d.raw_body)

-- A row that nobody owns, dead on arrival.
abbrev pub IsParked : Row → Type 0
IsParked x = (x.tenant_id ≡ Tenancy.sentinel) × (x.state ≡ dead)

AddsOnly-same : (P : Row → Type 0) (t s : Table) → s.rows ≡ t.rows → AddsOnly P t s
AddsOnly-same P t s e = (λ x m. rw e m, λ x m. inl (rw (← e) m))

AddsOnly-cons :
    (P : Row → Type 0) (t s : Table) (r : Row) → s.rows ≡ r ∷ t.rows → P r → AddsOnly P t s
AddsOnly-cons P t s r e p =
    (λ x m. rw e (inr m), λ x m. elim (subst (In x) e m) [ inl q ↦ inr (rw q p) | inr n ↦ inl n ])

pub accept-AddsOnly :
    (sum : Text → Text) (now : ℕ) (id tenant : Text) (d : Delivery) (t s : Table)
    (fresh : Option Text)
    → accept sum now id tenant d t ≡ ok (fresh, s)
    → AddsOnly (IsDeliveryOf tenant d) t s
unfolding accept_row new_row
accept-AddsOnly sum now id tenant d t s fresh e =
    let (delivery, _, k) = accept-ok sum now id tenant d t e in
    elim (Bool-cases
      (any (λ u. text_eq u.tenant_id tenant && text_eq u.delivery_id delivery) t.rows)) [
        | inl a ↦ AddsOnly-same _ t s (ground (arith, a))
        | inr a ↦ elim (Bool-cases (any (has_id id) t.rows)) [
          | inl b ↦ absurd (ground (arith, a, b))
          | inr b ↦
              AddsOnly-cons _ t s
                (new_row now id tenant d.provider delivery d.ordering_key d.raw_body t)
                (ground (arith, a, b)) (refl, refl, refl, refl)
        ]
      ]

pub park-AddsOnly :
    (sum : Text → Text) (now : ℕ) (id provider body : Text) (reason : ParkReason) (t s : Table)
    (fresh : Option Text)
    → park sum now id provider body reason t ≡ ok (fresh, s)
    → AddsOnly IsParked t s
unfolding park park_row parked_row
park-AddsOnly sum now id provider body reason t s fresh e =
    let (why, _, k) = >>=-eq_ok (reasoned (park_reason_text reason)) _ e in
    let (body_id, _, k') = >>=-eq_ok (minted (Ids.delivery_id sum provider body)) _ k in
    let k'' = refuse-ok (not (storable provider)) bad_provider _ k' in
    let kept = if keeps_body reason then body else body_not_kept body_id (length body) in
    let (delivery, _, r) = >>=-eq_ok (minted (Ids.delivery_id sum provider kept)) _ k'' in
    let run : park_row now id Tenancy.sentinel provider delivery kept why t ≡ ok (fresh, s) =
      tenant_tx-ok Tenancy.sentinel _ t r in
    elim (Bool-cases
      (any (λ u. text_eq u.tenant_id Tenancy.sentinel && text_eq u.delivery_id delivery) t.rows)) [
        | inl a ↦ AddsOnly-same _ t s (ground (arith, a, run))
        | inr a ↦ elim (Bool-cases (any (has_id id) t.rows)) [
          | inl b ↦ absurd (ground (arith, a, b, run))
          | inr b ↦
              AddsOnly-cons _ t s (parked_row now id Tenancy.sentinel provider delivery kept why t)
                (ground (arith, a, b, run)) (refl, refl)
        ]
      ]
