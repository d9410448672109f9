-- ===== src/Hub/Routing.antt =====
-- Where internal/hub/hub.go stores a delivery.
use lawang.Prelude.{
  ℕ, ◌≡◌, ◌≤◌, true, inl, inr, ◌⊎◌, Bool-cases, List, [], ◌∷◌, Option, none, some, Option-cases,
  ltb, length, In, Text, ok, Result-cases, arith, refl, sym, subst,
}
use lawang.Ingress.{Verdict, stored, parked, unverified}
use lawang.Outbox.{Row, Table}
use lawang.Outbox.Operations.{
  ParkReason, accept, park, unstorable, unverifiable, ambiguous_owner, no_owner, unreadable,
}
use lawang.Outbox.Marker.Reach.{Reach, later, accepts, parks}
use lawang.Hub.Subscriptions.{SubscriptionRow}
use lawang.Provider.{DeliveryKeys, Request, Source}
use lawang.Hub.{
  Candidate, of_workspace, of_subscription, candidates, Owners, owners, crashed, unfinished_yet,
  verify_all, park_delivery, store_delivery, delivery_of, on_owners, on_candidates, hub_accept,
  usable_keys, freshness, is_bad_ordering_key,
}
use lawang.Outbox.Arrivals.{AddsOnly, IsDeliveryOf, IsParked, accept-AddsOnly, park-AddsOnly}
use lawang.Hub.Owning.{IsOf, candidates-In}
use lawang.Hub.Verifying.{NoneVerify, OneVerifies, owners_found}

-- The delivery is parked: no row but one of the sentinel tenant is new.
abbrev pub ParkedInto : Table → Table → Verdict → Type 0
ParkedInto t s v = (v ≡ parked) × AddsOnly IsParked t s

-- `cs` are the candidates of the delivery's own keys.
abbrev pub AreCandidates :
    Source → Text → Request → ℕ → List SubscriptionRow → DeliveryKeys → List Candidate → Type 0
AreCandidates source provider req max_candidates rows keys cs =
    (source.delivery_keys req.body req.header ≡ some keys)
    × (candidates max_candidates provider keys rows ≡ ok cs)

-- The keys that are usable are those that were read.
usable_keys-read :
    (o : Option DeliveryKeys) (keys : DeliveryKeys) → usable_keys o ≡ some keys → o ≡ some keys
unfolding usable_keys
usable_keys-read none keys h = h
usable_keys-read (some k) keys h = ground arith

module _ (sum : Text → Text) (now : ℕ) (id : Text) where
  -- What the hub does to the table is at most one step of the outbox.
  park_delivery-Reach :
      (provider body : Text) (reason : ParkReason) (t s : Table) (v : Verdict)
      → Reach sum t
      → park_delivery sum now id provider body reason t ≡ ok (v, s)
      → Reach sum s × ParkedInto t s v
  unfolding park_delivery
  park_delivery-Reach provider body reason t s v r h =
      elim (Result-cases (park sum now id provider body reason t)) [
        | inl (e, k) ↦ absurd (ground (arith, k))
        | inr ((fresh, u), k) ↦
            let moved : u ≡ s = ground (arith, k) in
            let run : park sum now id provider body reason t ≡ ok (fresh, s) = rw (← moved) k in
            (
              later r (parks now id provider body reason fresh s run),
              (ground (arith, k), park-AddsOnly sum now id provider body reason t s fresh run),
            )
      ]

  -- A delivery of `body` is stored for `c`, as a new one or as one that it has.
  abbrev pub IsStoredFor : Text → Text → Candidate → Table → Verdict → Table → Type 0
  IsStoredFor provider body c t v s =
      (fresh : Option Text) × (accept sum now id c.tenant (delivery_of provider body c) t
        ≡ ok (fresh, s))
      × (v ≡ freshness fresh)

  store_delivery-cases :
      (provider body : Text) (c : Candidate) (t s : Table) (v : Verdict)
      → Reach sum t
      → store_delivery sum now id provider body c t ≡ ok (v, s)
      → Reach sum s × (IsStoredFor provider body c t v s ⊎ ParkedInto t s v)
  unfolding store_delivery
  store_delivery-cases provider body c t s v r h =
      elim (Result-cases (accept sum now id c.tenant (delivery_of provider body c) t)) [
        | inl (e, k) ↦ elim (Bool-cases (is_bad_ordering_key e)) [
          | inl b ↦
              let (q, p) =
                park_delivery-Reach provider body unstorable t s v r (ground (arith, k, b)) in
              (q, inr p)
          | inr b ↦ absurd (ground (arith, k, b))
        ]
        | inr ((fresh, u), k) ↦
            let moved : u ≡ s = ground (arith, k) in
            let run : accept sum now id c.tenant (delivery_of provider body c) t ≡ ok (fresh, s) =
              rw (← moved) k in
            (
              later r (accepts now id c.tenant (delivery_of provider body c) fresh s run),
              inl (fresh, run, ground (arith, k)),
            )
      ]

  module _ (source : Source) (provider : Text) (req : Request) where
    -- What the verification of the candidates `cs` can end in.
    abbrev pub IsRouted : List Candidate → Table → Verdict → Table → Type 0
    IsRouted cs t v s =
        ParkedInto t s v
        ⊎ (((v ≡ unverified) × (s ≡ t) × (1 ≤ length cs) × NoneVerify source req cs)
            ⊎ ((c : Candidate) × OneVerifies source req c cs
                × IsStoredFor provider req.body c t v s))

    on_owners-cases :
        (cs : List Candidate) (o : Owners) (t s : Table) (v : Verdict)
        → 1 ≤ length cs
        → Reach sum t
        → verify_all source req none cs ≡ o
        → on_owners sum now id provider req.body o t ≡ ok (v, s)
        → Reach sum s × IsRouted cs t v s
    unfolding on_owners
    on_owners-cases cs unfinished_yet t s v l r e h = absurd (ground arith)
    on_owners-cases cs crashed t s v l r e h =
        let (q, p) = park_delivery-Reach provider req.body unverifiable t s v r h in (q, inl p)
    on_owners-cases cs (owners []) t s v l r e h = elim (owners_found source req cs [] e) [
      | inl (q, n) ↦
          let still : t ≡ s = ground arith in
          (subst (Reach sum) still r, inr (inl (ground arith, sym still, l, n)))
      | inr (inl (c, q, u)) ↦ absurd cc
      | inr (inr (c, d, q)) ↦ absurd cc
    ]
    on_owners-cases cs (owners (o ∷ [])) t s v l r e h =
        elim (owners_found source req cs (o ∷ []) e) [
          | inl (q, n) ↦ absurd cc
          | inr (inl (c, q, u)) ↦
              let owner : o ≡ c = ground arith in
              let (k, w) = store_delivery-cases provider req.body o t s v r h in
              (
                k,
                elim w [
                  | inl z ↦ inr (inr (o, subst (λ y. OneVerifies source req y cs) (sym owner) u, z))
                  | inr p ↦ inl p
                ],
              )
          | inr (inr (c, d, q)) ↦ absurd (ground arith)
        ]
    on_owners-cases cs (owners (o ∷ p ∷ os)) t s v l r e h =
        let (q, w) = park_delivery-Reach provider req.body ambiguous_owner t s v r h in (q, inl w)

    on_candidates-cases :
        (max_candidates : ℕ) (cs : List Candidate) (t s : Table) (v : Verdict)
        → Reach sum t
        → on_candidates sum now id max_candidates source provider req cs t ≡ ok (v, s)
        → Reach sum s × IsRouted cs t v s
    unfolding on_candidates
    on_candidates-cases max_candidates [] t s v r h =
        let (q, w) = park_delivery-Reach provider req.body no_owner t s v r h in (q, inl w)
    on_candidates-cases max_candidates (c ∷ cs) t s v r h =
        elim (Bool-cases (ltb max_candidates (length (c ∷ cs)))) [
          | inl e ↦
              let (q, w) =
                park_delivery-Reach provider req.body ambiguous_owner t s v r (ground (arith, e)) in
              (q, inl w)
          | inr e ↦ on_owners-cases (c ∷ cs) _ t s v (omega arith) r refl (ground (arith, e))
        ]

    -- All that a delivery can end in.
    abbrev pub IsHandled : ℕ → List SubscriptionRow → Table → Verdict → Table → Type 0
    IsHandled max_candidates rows t v s =
        ParkedInto t s v
        ⊎ ((keys : DeliveryKeys) × (cs : List Candidate) × AreCandidates source provider req
              max_candidates rows keys cs
            × IsRouted cs t v s)

    pub hub_accept-cases :
        (max_candidates : ℕ) (rows : List SubscriptionRow) (t s : Table) (v : Verdict)
        → Reach sum t
        → hub_accept sum now id max_candidates (some source) provider req rows t ≡ ok (v, s)
        → Reach sum s × IsHandled max_candidates rows t v s
    unfolding hub_accept
    hub_accept-cases max_candidates rows t s v r h =
        elim (Option-cases (usable_keys (source.delivery_keys req.body req.header))) [
          | inl n ↦
              let (q, w) =
                park_delivery-Reach provider req.body unreadable t s v r (ground (arith, n)) in
              (q, inl w)
          | inr (keys, k) ↦ elim (Result-cases (candidates max_candidates provider keys rows)) [
            | inl (e, l) ↦ absurd (ground (arith, k, l))
            | inr (cs, l) ↦
                let (q, w) = on_candidates-cases max_candidates cs t s v r (ground (arith, k, l)) in
                (q, inr (keys, cs, (usable_keys-read _ keys k, l), w))
          ]
        ]

-- When the hub answers that a delivery is stored, it is stored for one subscription, among the
-- candidates of the keys that the source reads from the delivery itself: a registered row that
-- agrees with the delivery on a key, the only candidate whose secret verifies the request, whose
-- tenant and ordering key the stored delivery has.
pub one_owner_stores :
    (sum : Text → Text) (now : ℕ) (id : Text) (max_candidates : ℕ) (source : Source)
    (provider : Text) (req : Request) (rows : List SubscriptionRow) (t s : Table)
    → Reach sum t
    → hub_accept sum now id max_candidates (some source) provider req rows t ≡ ok (stored, s)
    → (keys : DeliveryKeys) × (cs : List Candidate) × (c : Candidate) × (r : SubscriptionRow)
      × AreCandidates source provider req max_candidates rows keys cs
      × OneVerifies source req c cs
      × (In r rows
          × IsOf r c
          × ((of_workspace provider keys r ≡ true) ⊎ (of_subscription provider keys r ≡ true)))
      × IsStoredFor sum now id provider req.body c t stored s
one_owner_stores sum now id max_candidates source provider req rows t s r h =
    elim ((hub_accept-cases sum now id source provider req max_candidates rows t s stored r h).1) [
      | inl (e, a) ↦ absurd cc
      | inr (keys, cs, k, inl (e, a)) ↦ absurd cc
      | inr (keys, cs, k, inr (inl (e, q, l, n))) ↦ absurd cc
      | inr (keys, cs, k, inr (inr (c, u, z))) ↦
          let (row, i, p, o) = candidates-In max_candidates provider keys rows cs c k.1 u.0 in
          (keys, cs, c, row, k, u, (i, o, p), z)
    ]

-- When the hub answers that a delivery is unverified, the outbox is as it was, the keys that the
-- source reads from the delivery itself have at least one candidate, and none of the candidates
-- verified the request.
pub unverified_changes_nothing :
    (sum : Text → Text) (now : ℕ) (id : Text) (max_candidates : ℕ) (source : Source)
    (provider : Text) (req : Request) (rows : List SubscriptionRow) (t s : Table)
    → Reach sum t
    → hub_accept sum now id max_candidates (some source) provider req rows t ≡ ok (unverified, s)
    → (s ≡ t)
      × ((keys : DeliveryKeys) × (cs : List Candidate) × AreCandidates source provider req
            max_candidates rows keys cs
          × (1 ≤ length cs)
          × NoneVerify source req cs)
unverified_changes_nothing sum now id max_candidates source provider req rows t s r h =
    elim ((hub_accept-cases sum now id source provider req max_candidates rows t s unverified r
      h).1) [
        | inl (e, a) ↦ absurd cc
        | inr (keys, cs, k, inl (e, a)) ↦ absurd cc
        | inr (keys, cs, k, inr (inl (e, q, l, n))) ↦ (q, (keys, cs, k, l, n))
        | inr (keys, cs, k, inr (inr (c, u, (none, run, e)))) ↦ absurd cc
        | inr (keys, cs, k, inr (inr (c, u, (some i, run, e)))) ↦ absurd cc
      ]

-- A row that the hub may add for a delivery: a parked one, or the delivery itself, stored for the
-- only candidate of its keys whose secret verifies it.
abbrev pub IsEntitled : Source → Text → Request → ℕ → List SubscriptionRow → Row → Type 0
IsEntitled source provider req max_candidates rows x =
    IsParked x
    ⊎ ((keys : DeliveryKeys) × (cs : List Candidate) × (c : Candidate) × AreCandidates source
          provider req max_candidates rows keys cs
        × OneVerifies source req c cs
        × IsDeliveryOf c.tenant (delivery_of provider req.body c) x)

pub hub_accept-AddsOnly :
    (sum : Text → Text) (now : ℕ) (id : Text) (max_candidates : ℕ) (source : Source)
    (provider : Text) (req : Request) (rows : List SubscriptionRow) (t s : Table) (v : Verdict)
    → Reach sum t
    → hub_accept sum now id max_candidates (some source) provider req rows t ≡ ok (v, s)
    → AddsOnly (IsEntitled source provider req max_candidates rows) t s
hub_accept-AddsOnly sum now id max_candidates source provider req rows t s v r h =
    elim ((hub_accept-cases sum now id source provider req max_candidates rows t s v r h).1) [
      | inl (e, a) ↦ parked_only a
      | inr (keys, cs, k, inl (e, a)) ↦ parked_only a
      | inr (keys, cs, k, inr (inl (e, q, l, n))) ↦ rw q ((λ x m. m), λ x m. inl m)
      | inr (keys, cs, k, inr (inr (c, u, (fresh, run, e)))) ↦
          let (kept, new) =
            accept-AddsOnly sum now id c.tenant (delivery_of provider req.body c) t s fresh run in
          (kept, λ x m. elim (new x m) [ inl n ↦ inl n | inr d ↦ inr (inr (keys, cs, c, k, u, d)) ])
    ]
  where
    parked_only :
        AddsOnly IsParked t s → AddsOnly (IsEntitled source provider req max_candidates rows) t s
    parked_only (kept, new) = (kept, λ x m. elim (new x m) [ inl n ↦ inl n | inr d ↦ inr (inl d) ])
