-- ===== src/Hub/Registered.antt =====
-- What Register of internal/hub/subscriptions.go keeps of the table `subscriptions`.
use lawang.Prelude.{
  ◌≡◌, ◌≢◌, true, false, ◌&&◌, not, Bool-cases, List, [], ◌∷◌, map, none, some, Option-cases, find,
  find-eq_some, find-eq_none, any, any-eq_false, In, In-map, In-map_of, if◌then◌else◌, inl, inr,
  Text, text_eq, text_eq→eq, text_eq_self, text_eq-ne, ok, Result-cases, arith, refl, ◌∙◌, sym,
  subst,
}
use lawang.Hub.Subscriptions.{
  SubscriptionRow, same_resource, same_registration, refreshed, upsert_subscription, register,
  validate, is_absent,
}

abbrev pub SameResource : SubscriptionRow → SubscriptionRow → Type 0
SameResource s r =
    (r.tenant_id ≡ s.tenant_id) × (r.provider ≡ s.provider) × (r.resource ≡ s.resource)

abbrev pub SameRegistration : SubscriptionRow → SubscriptionRow → Type 0
SameRegistration s r =
    (is_absent s.external_id ≡ false)
    × (r.tenant_id ≡ s.tenant_id)
    × (r.provider ≡ s.provider)
    × (r.external_id ≡ s.external_id)

-- Two rows that the unique indexes let stand side by side.
abbrev pub AreApart : SubscriptionRow → SubscriptionRow → Type 0
AreApart r u = (r.id ≢ u.id) × (SameResource r u → ⊥) × (SameRegistration r u → ⊥)

abbrev pub IsConsistent : List SubscriptionRow → Type 0
IsConsistent [] = Unit {0}
IsConsistent (r ∷ rs) = ((u : SubscriptionRow) → In u rs → AreApart r u) × IsConsistent rs

same_resource-true : (s r : SubscriptionRow) → same_resource s r ≡ true → SameResource s r
unfolding same_resource
same_resource-true s r h = (
  text_eq→eq r.tenant_id s.tenant_id (ground arith),
  text_eq→eq r.provider s.provider (ground arith),
  text_eq→eq r.resource s.resource (ground arith),
)

same_resource-false : (s r : SubscriptionRow) → same_resource s r ≡ false → SameResource s r → ⊥
unfolding same_resource
same_resource-false s r h (a, b, c) =
    let wrong : same_resource s r ≡ true =
      rw
        (
          a,
          b,
          c,
          same_resource,
          text_eq_self s.tenant_id,
          text_eq_self s.provider,
          text_eq_self s.resource,
        )
        refl in
    absurd cc

same_registration-false :
    (s r : SubscriptionRow) → same_registration s r ≡ false → SameRegistration s r → ⊥
unfolding same_registration
same_registration-false s r h (n, a, b, c) =
    let wrong : same_registration s r ≡ true =
      rw
        (
          same_registration,
          n,
          a,
          b,
          c,
          text_eq_self s.tenant_id,
          text_eq_self s.provider,
          text_eq_self s.external_id,
        )
        refl in
    absurd cc

module _ (s : SubscriptionRow) where
  -- A row after the update of the rows of its resource.
  abbrev update : SubscriptionRow → SubscriptionRow
  update u = if same_resource s u then refreshed s u else u

  abbrev IsFree : SubscriptionRow → Type 0
  IsFree u = same_resource s u ≡ false → same_registration s u ≡ false

  update-AreApart :
      (r u : SubscriptionRow) → IsFree r → IsFree u → AreApart r u → AreApart (update r) (update u)
  unfolding refreshed
  update-AreApart r u f g (i, p, q) = elim (Bool-cases (same_resource s r)) [
    | inl a ↦ elim (Bool-cases (same_resource s u)) [
      | inl b ↦
          let (x, y, z) = same_resource-true s r a in
          let (x', y', z') = same_resource-true s u b in
          absurd (p (x' ∙ sym x, y' ∙ sym y, z' ∙ sym z))
      | inr b ↦
          let (x, y, z) = same_resource-true s r a in
          rw (a, b) (i, p, λ (n, k, l, m). same_registration-false s u (g b) (n, k ∙ x, l ∙ y, m))
    ]
    | inr a ↦ elim (Bool-cases (same_resource s u)) [
      | inl b ↦
          let (x, y, z) = same_resource-true s u b in
          rw (a, b)
            (
              i,
              p,
              λ (n, k, l, m).
                  same_registration-false s r (f a) (rw m n, sym k ∙ x, sym l ∙ y, sym m),
            )
      | inr b ↦ rw (a, b) (i, p, q)
    ]
  ]

  update-IsConsistent :
      (rows : List SubscriptionRow)
      → ((u : SubscriptionRow) → In u rows → IsFree u)
      → IsConsistent rows
      → IsConsistent (map update rows)
  update-IsConsistent [] f c = c
  update-IsConsistent (r ∷ rs) f (a, c) = (
    λ u m.
        let (w, n, e) = In-map update rs u m in
        rw e (update-AreApart r w (f r (inl refl)) (f w (inr n)) (a w n)),
    update-IsConsistent rs (λ u m. f u (inr m)) c,
  )

-- The row that a registration leaves: what was asked, under the id that it has.
abbrev pub IsRegistered : SubscriptionRow → SubscriptionRow → Type 0
IsRegistered s row =
    SameResource s row
    × (row.workspace_id ≡ s.workspace_id)
    × (row.external_id ≡ s.external_id)
    × (row.secret ≡ s.secret)

-- Each row still stands, under its id and for its resource.
abbrev pub IsKept : List SubscriptionRow → List SubscriptionRow → Type 0
IsKept rows more =
    (u : SubscriptionRow)
    → In u rows
    → (w : SubscriptionRow) × In w more × (w.id ≡ u.id) × SameResource u w

abbrev Outcome :
    SubscriptionRow → List SubscriptionRow → SubscriptionRow → List SubscriptionRow → Type 0
Outcome s rows row more = IsConsistent more × (In row more × IsRegistered s row) × IsKept rows more

taken-IsFree :
    (s : SubscriptionRow) (rows : List SubscriptionRow)
    → any (λ r. not (same_resource s r) && same_registration s r) rows ≡ false
    → (u : SubscriptionRow) → In u rows
    → IsFree s u
taken-IsFree s rows h u m e =
    let free = any-eq_false (λ r. not (same_resource s r) && same_registration s r) rows u h m in
    ground arith

updated-Outcome :
    (s r : SubscriptionRow) (rows : List SubscriptionRow)
    → IsConsistent rows
    → any (λ r. not (same_resource s r) && same_registration s r) rows ≡ false
    → find (same_resource s) rows ≡ some r
    → Outcome s rows (refreshed s r) (map (update s) rows)
unfolding refreshed
updated-Outcome s r rows c free f =
    let (m, h) = find-eq_some (same_resource s) rows r f in
    let here : update s r ≡ refreshed s r = rw h refl in
    (
      update-IsConsistent s rows (taken-IsFree s rows free) c,
      (
        subst (λ x. In x (map (update s) rows)) here (In-map_of (update s) rows r m),
        (same_resource-true s r h, refl, refl, refl),
      ),
      λ u n. (update s u, In-map_of (update s) rows u n, (kept u).0, (kept u).1),
    )
  where
    kept : (u : SubscriptionRow) → ((update s u).id ≡ u.id) × SameResource u (update s u)
    kept u = elim (Bool-cases (same_resource s u)) [
      | inl b ↦ rw b (refl, (refl, refl, refl))
      | inr b ↦ rw b (refl, (refl, refl, refl))
    ]

inserted-Outcome :
    (s : SubscriptionRow) (rows : List SubscriptionRow)
    → IsConsistent rows
    → any (λ r. not (same_resource s r) && same_registration s r) rows ≡ false
    → find (same_resource s) rows ≡ none
    → any (λ r. text_eq r.id s.id) rows ≡ false
    → Outcome s rows s (s ∷ rows)
inserted-Outcome s rows c free f fresh = (
  (
    λ u m.
        let other = find-eq_none (same_resource s) rows u f m in
        (
          λ q. text_eq-ne u.id s.id (any-eq_false (λ r. text_eq r.id s.id) rows u fresh m) (sym q),
          same_resource-false s u other,
          same_registration-false s u (taken-IsFree s rows free u m other),
        ),
    c,
  ),
  (inl refl, ((refl, refl, refl), refl, refl, refl)),
  λ u m. (u, inr m, refl, (refl, refl, refl)),
)

upsert_subscription-Outcome :
    (s row : SubscriptionRow) (rows more : List SubscriptionRow)
    → IsConsistent rows
    → upsert_subscription s rows ≡ ok (row, more)
    → Outcome s rows row more
unfolding upsert_subscription
upsert_subscription-Outcome s row rows more c h =
    elim (Bool-cases (any (λ r. not (same_resource s r) && same_registration s r) rows)) [
      | inl t ↦ absurd (elim (Option-cases (find (same_resource s) rows)) [
        | inl n ↦ elim (Bool-cases (any (λ r. text_eq r.id s.id) rows)) [
          | inl i ↦ ground (arith, t, n, i)
          | inr i ↦ ground (arith, t, n, i)
        ]
        | inr (r, n) ↦ ground (arith, t, n)
      ])
      | inr t ↦ elim (Option-cases (find (same_resource s) rows)) [
        | inl n ↦ elim (Bool-cases (any (λ r. text_eq r.id s.id) rows)) [
          | inl i ↦ absurd (ground (arith, t, n, i))
          | inr i ↦
              let (a, b) : (s ≡ row) × (s ∷ rows ≡ more) = ground (arith, t, n, i) in
              rw (← a, ← b) (inserted-Outcome s rows c t n i)
        ]
        | inr (r, n) ↦
            let (a, b) : (refreshed s r ≡ row) × (map (update s) rows ≡ more) =
              ground (arith, t, n) in
            rw (← a, ← b) (updated-Outcome s r rows c t n)
      ]
    ]

-- Register, when it answers, keeps the ids, the resources of a tenant and the registrations of a
-- tenant unique in the table; the row that it answers stands in the table with what was asked; and
-- each row that stood there still stands under its id and for its resource.
pub register-IsConsistent :
    (fresh_id : Text) (s row : SubscriptionRow) (rows more : List SubscriptionRow)
    → IsConsistent rows
    → register fresh_id s rows ≡ ok (row, more)
    → IsConsistent more × (In row more × IsRegistered s row) × IsKept rows more
unfolding register
register-IsConsistent fresh_id s row rows more c h = elim (Result-cases (validate s)) [
  | inl (e, k) ↦ absurd (ground (arith, k))
  | inr (x, k) ↦ elim (Bool-cases (is_absent s.id)) [
    | inl a ↦
        upsert_subscription-Outcome (record s { id = fresh_id }) row rows more c
          (ground (arith, k, a))
    | inr a ↦ upsert_subscription-Outcome s row rows more c (ground (arith, k, a))
  ]
]
