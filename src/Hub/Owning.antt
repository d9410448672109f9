-- ===== src/Hub/Owning.antt =====
-- The candidates that internal/hub/hub.go finds for a delivery.
use lawang.Prelude.{
  Order-cases, zero, suc, ℕ, ◌≡◌, ◌+◌, Bool, true, inl, inr, ◌⊎◌, Bool-cases, List, [], ◌∷◌, ◌++◌,
  filter, take, In, In-append, In-filter, Text, compare_text, ok, Result-cases, arith, refl, subst,
}
use lawang.Tenancy
use lawang.Hub.Subscriptions.{SubscriptionRow}
use lawang.Provider.{DeliveryKeys}
use lawang.Hub.{
  Candidate, of_workspace, of_subscription, insert_row, sort_rows, select_rows, new_candidate,
  candidates_from, has_candidate, add_candidates, insert_candidate, sort_candidates, selected,
  candidates, is_blank,
}

parse-id : (s t : Text) → Tenancy.parse s ≡ ok t → t ≡ s
unfolding Tenancy.parse
parse-id s t h = ground arith

In-take : {A : Type 0} (n : ℕ) (xs : List A) (x : A) → In x (take n xs) → In x xs
In-take zero xs x m = absurd m
In-take (suc n) [] x m = absurd m
In-take (suc n) (y ∷ ys) x (inl e) = inl e
In-take (suc n) (y ∷ ys) x (inr m) = inr (In-take n ys x m)

In-insert_row :
    (r x : SubscriptionRow) (rs : List SubscriptionRow) → In x (insert_row r rs) → In x (r ∷ rs)
unfolding insert_row
In-insert_row r x [] m = m
In-insert_row r x (u ∷ us) m = elim (Order-cases (compare_text r.id u.id)) [
  | inl e ↦ rw (e, insert_row) at m
  | inr (inl e) ↦ rw (e, insert_row) at m
  | inr (inr e) ↦ elim (rw (e, insert_row) at m) [
    | inl q ↦ inr (inl q)
    | inr n ↦ elim (In-insert_row r x us n) [ inl q ↦ inl q | inr k ↦ inr (inr k) ]
  ]
]

In-sort_rows : (x : SubscriptionRow) (rs : List SubscriptionRow) → In x (sort_rows rs) → In x rs
unfolding sort_rows
In-sort_rows x [] m = m
In-sort_rows x (r ∷ rs) m = elim (In-insert_row r x (sort_rows rs) m) [
  | inl e ↦ inl e
  | inr n ↦ inr (In-sort_rows x rs n)
]

In-insert_candidate :
    (c x : Candidate) (cs : List Candidate) → In x (insert_candidate c cs) → In x (c ∷ cs)
unfolding insert_candidate
In-insert_candidate c x [] m = m
In-insert_candidate c x (d ∷ ds) m = elim (Order-cases (compare_text c.id d.id)) [
  | inl e ↦ rw (e, insert_candidate) at m
  | inr (inl e) ↦ rw (e, insert_candidate) at m
  | inr (inr e) ↦ elim (rw (e, insert_candidate) at m) [
    | inl q ↦ inr (inl q)
    | inr n ↦ elim (In-insert_candidate c x ds n) [ inl q ↦ inl q | inr k ↦ inr (inr k) ]
  ]
]

In-sort_candidates : (x : Candidate) (cs : List Candidate) → In x (sort_candidates cs) → In x cs
unfolding sort_candidates
In-sort_candidates x [] m = m
In-sort_candidates x (c ∷ cs) m = elim (In-insert_candidate c x (sort_candidates cs) m) [
  | inl e ↦ inl e
  | inr n ↦ inr (In-sort_candidates x cs n)
]

In-add_candidates :
    (x : Candidate) (union cs : List Candidate)
    → In x (add_candidates union cs)
    → In x union ⊎ In x cs
unfolding add_candidates
In-add_candidates x union [] m = inl m
In-add_candidates x union (c ∷ cs) m = elim (Bool-cases (has_candidate c.id union)) [
  | inl e ↦ elim (In-add_candidates x union cs (rw (e, add_candidates) at m)) [
    | inl n ↦ inl n
    | inr n ↦ inr (inr n)
  ]
  | inr e ↦ elim (In-add_candidates x (union ++ c ∷ []) cs (rw (e, add_candidates) at m)) [
    | inl n ↦ elim (In-append x union (c ∷ []) n) [
      | inl k ↦ inl k
      | inr (inl q) ↦ inr (inl q)
      | inr (inr k) ↦ absurd k
    ]
    | inr n ↦ inr (inr n)
  ]
]

-- The candidate that a row stands for.
abbrev pub IsOf : SubscriptionRow → Candidate → Type 0
IsOf r c = (c.id ≡ r.id) × (c.tenant ≡ r.tenant_id) × (c.secret ≡ r.secret)

new_candidate-IsOf : (r : SubscriptionRow) (c : Candidate) → new_candidate r ≡ ok c → IsOf r c
unfolding new_candidate
new_candidate-IsOf r c h = elim (Result-cases (Tenancy.parse r.tenant_id)) [
  | inl (e, k) ↦ absurd (ground (arith, k))
  | inr (tenant, k) ↦
      let own = parse-id r.tenant_id tenant k in
      elim (Bool-cases (is_blank r.secret)) [
        | inl b ↦ absurd (ground (arith, k, b))
        | inr b ↦
            let made : record { id = r.id; tenant = tenant; secret = r.secret } ≡ c =
              ground (arith, k, b) in
            rw (← made) (refl, own, refl)
      ]
]

candidates_from-In :
    (rs : List SubscriptionRow) (cs : List Candidate) (c : Candidate)
    → candidates_from rs ≡ ok cs
    → In c cs
    → (r : SubscriptionRow) × In r rs × IsOf r c
unfolding candidates_from
candidates_from-In [] cs c h m =
    let nothing : cs ≡ [] = ground arith in absurd (subst (In c) nothing m)
candidates_from-In (r ∷ rs) cs c h m = elim (Result-cases (new_candidate r)) [
  | inl (e, k) ↦ absurd (ground (arith, k))
  | inr (d, k) ↦ elim (Result-cases (candidates_from rs)) [
    | inl (e, l) ↦ absurd (ground (arith, k, l))
    | inr (ds, l) ↦
        let whole : cs ≡ d ∷ ds = ground (arith, k, l) in
        elim (subst (In c) whole m) [
          | inl q ↦ (r, inl refl, rw q (new_candidate-IsOf r d k))
          | inr n ↦ let (u, i, o) = candidates_from-In rs ds c l n in (u, inr i, o)
        ]
  ]
]

selected-In :
    (key : Text) (p : SubscriptionRow → Bool) (limit : ℕ) (rows : List SubscriptionRow)
    (cs : List Candidate) (c : Candidate)
    → selected key p limit rows ≡ ok cs
    → In c cs
    → (r : SubscriptionRow) × In r rows × (p r ≡ true) × IsOf r c
unfolding selected select_rows
selected-In key p limit rows cs c h m = elim (Bool-cases (is_blank key)) [
  | inl e ↦ let nothing : cs ≡ [] = ground (arith, e) in absurd (subst (In c) nothing m)
  | inr e ↦
      let (r, n, o) =
        candidates_from-In (take limit (sort_rows (filter p rows))) cs c (ground (arith, e)) m in
      let (i, t) = In-filter p rows r (In-sort_rows r _ (In-take limit _ r n)) in (r, i, t, o)
]

-- Each candidate is a row of the provider that agrees with the delivery on one of its keys.
pub candidates-In :
    (max_candidates : ℕ) (provider : Text) (keys : DeliveryKeys) (rows : List SubscriptionRow)
    (cs : List Candidate) (c : Candidate)
    → candidates max_candidates provider keys rows ≡ ok cs
    → In c cs
    → (r : SubscriptionRow) × In r rows
      × ((of_workspace provider keys r ≡ true) ⊎ (of_subscription provider keys r ≡ true))
      × IsOf r c
unfolding candidates
candidates-In max_candidates provider keys rows cs c h m =
    elim (Result-cases
      (selected keys.workspace (of_workspace provider keys) (max_candidates + 1) rows)) [
        | inl (e, k) ↦ absurd (ground (arith, k))
        | inr (first, k) ↦
            elim (Result-cases (
              selected keys.subscription (of_subscription provider keys) (max_candidates + 1)
                rows)) [
                  | inl (e, l) ↦ absurd (ground (arith, k, l))
                  | inr (second, l) ↦
                      let whole : cs
                          ≡ sort_candidates (add_candidates (add_candidates [] first) second) =
                        ground (arith, k, l) in
                      from_union first second k l (In-sort_candidates c _ (subst (In c) whole m))
                ]
      ]
  where
    from_union :
        (first second : List Candidate)
        → selected keys.workspace (of_workspace provider keys) (max_candidates + 1) rows ≡ ok first
        → selected keys.subscription (of_subscription provider keys) (max_candidates + 1) rows
          ≡ ok second
        → In c (add_candidates (add_candidates [] first) second)
        → (r : SubscriptionRow) × In r rows
          × ((of_workspace provider keys r ≡ true) ⊎ (of_subscription provider keys r ≡ true))
          × IsOf r c
    from_union first second k l n = elim (In-add_candidates c (add_candidates [] first) second n) [
      | inr i ↦ let (r, a, p, o) = selected-In _ _ _ rows second c l i in (r, a, inr p, o)
      | inl i ↦ elim (In-add_candidates c [] first i) [
        | inl none_yet ↦ absurd none_yet
        | inr j ↦ let (r, a, p, o) = selected-In _ _ _ rows first c k j in (r, a, inl p, o)
      ]
    ]
