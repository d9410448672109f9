-- ===== src/Hub.antt =====
-- internal/hub: which subscription a delivery belongs to, and where it is stored. The provider's two
-- methods are parameters; the log has no part in the model.
pub mod Subscriptions
pub mod Owning
pub mod Verifying
pub mod Routing
pub mod Registered
pub mod Tests
use lawang.Prelude.{
  ℕ, ◌+◌, Bool, true, false, ◌&&◌, ◌||◌, not, List, [], ◌∷◌, ◌++◌, Option, none, some, ltb,
  if◌then◌else◌, any, filter, take, length, Text, text, text_eq, Order, less, same, more,
  compare_text, Result, ok, err,
}
use lawang.Tenancy
use lawang.Ingress.{Verdict, stored, duplicate, parked, unverified}
use lawang.Provider.{DeliveryKeys, Request, Verification, answered, panicked, timed_out, Source}
use lawang.Outbox
use lawang.Outbox.{Table, bad_ordering_key}
use lawang.Outbox.Operations.{
  ParkReason, unreadable, no_owner, ambiguous_owner, unverifiable, unstorable, accept, park,
  storable, Delivery,
}
use lawang.Hub.Subscriptions.{SubscriptionRow, max_delivery_key_len}

abbrev pub default_max_candidates : ℕ
default_max_candidates = 32

pub record Candidate : Type 0 where
  pub id : Text
  pub tenant : Text
  pub secret : Text

pub data HubError : Type 0 where
  not_a_source unusable_row verification_unfinished : HubError
  in_outbox : lawang.Outbox.Error → HubError

abbrev pub is_blank : Text → Bool
is_blank [] = true
is_blank (b ∷ bs) = false

unfoldable pub bad_key : Text → Bool
bad_key key = ltb max_delivery_key_len (length key) || not (storable key)

unfoldable pub usable_keys : Option DeliveryKeys → Option DeliveryKeys
usable_keys none = none
usable_keys (some k) =
    if is_blank k.workspace && is_blank k.subscription
    then none
    else if bad_key k.workspace || bad_key k.subscription
    then none
    else some k

-- CandidatesByWorkspace and CandidatesBySubscription: the rows they select, before ORDER BY and LIMIT.
unfoldable pub of_workspace : Text → DeliveryKeys → SubscriptionRow → Bool
of_workspace provider keys r =
    (text_eq r.provider provider && text_eq r.workspace_id keys.workspace)
    && ((is_blank r.external_id || is_blank keys.subscription)
        || text_eq r.external_id keys.subscription)

unfoldable pub of_subscription : Text → DeliveryKeys → SubscriptionRow → Bool
of_subscription provider keys r =
    (text_eq r.provider provider && text_eq r.external_id keys.subscription)
    && ((is_blank r.workspace_id || is_blank keys.workspace)
        || text_eq r.workspace_id keys.workspace)

-- ORDER BY id.
unfoldable pub insert_row : SubscriptionRow → List SubscriptionRow → List SubscriptionRow
insert_row r [] = r ∷ []
insert_row r (u ∷ us) =
    let later = u ∷ insert_row r us in
    elim (compare_text r.id u.id) [ less ↦ r ∷ u ∷ us | same ↦ r ∷ u ∷ us | more ↦ later ]

unfoldable pub sort_rows : List SubscriptionRow → List SubscriptionRow
sort_rows [] = []
sort_rows (r ∷ rs) = insert_row r (sort_rows rs)

unfoldable pub select_rows :
    (SubscriptionRow → Bool) → ℕ → List SubscriptionRow → List SubscriptionRow
select_rows p limit rows = take limit (sort_rows (filter p rows))

-- newCandidate.
unfoldable pub new_candidate : SubscriptionRow → Result HubError Candidate
new_candidate r = elim (Tenancy.parse r.tenant_id) [
  | err e ↦ err unusable_row
  | ok tenant ↦
      if is_blank r.secret
      then err unusable_row
      else ok (record { id = r.id; tenant = tenant; secret = r.secret })
]

unfoldable pub candidates_from : List SubscriptionRow → Result HubError (List Candidate)
candidates_from [] = ok []
candidates_from (r ∷ rs) = elim (new_candidate r) [
  | err e ↦ err e
  | ok c ↦ elim (candidates_from rs) [ err e ↦ err e | ok cs ↦ ok (c ∷ cs) ]
]

unfoldable pub has_candidate : Text → List Candidate → Bool
has_candidate id cs = any (λ c. text_eq c.id id) cs

-- `add`: the candidates of a second list that are not there yet, behind the first.
unfoldable pub add_candidates : List Candidate → List Candidate → List Candidate
add_candidates union [] = union
add_candidates union (c ∷ cs) =
    add_candidates (if has_candidate c.id union then union else union ++ c ∷ []) cs

unfoldable pub insert_candidate : Candidate → List Candidate → List Candidate
insert_candidate c [] = c ∷ []
insert_candidate c (d ∷ ds) =
    let later = d ∷ insert_candidate c ds in
    elim (compare_text c.id d.id) [ less ↦ c ∷ d ∷ ds | same ↦ c ∷ d ∷ ds | more ↦ later ]

unfoldable pub sort_candidates : List Candidate → List Candidate
sort_candidates [] = []
sort_candidates (c ∷ cs) = insert_candidate c (sort_candidates cs)

-- The rows that one key selects. An absent key asks nothing.
unfoldable pub selected :
    Text → (SubscriptionRow → Bool) → ℕ → List SubscriptionRow → Result HubError (List Candidate)
selected key p limit rows =
    if is_blank key then ok [] else candidates_from (select_rows p limit rows)

unfoldable pub candidates :
    ℕ → Text → DeliveryKeys → List SubscriptionRow → Result HubError (List Candidate)
candidates max_candidates provider keys rows =
    elim (selected keys.workspace (of_workspace provider keys) (max_candidates + 1) rows) [
      | err e ↦ err e
      | ok first ↦
          elim (selected keys.subscription (of_subscription provider keys) (max_candidates + 1)
            rows) [
              | err e ↦ err e
              | ok second ↦ ok (sort_candidates (add_candidates (add_candidates [] first) second))
            ]
    ]

-- What verifyAll found: the owners, a panic or the deadline. It stops at the second owner.
pub data Owners : Type 0 where
  owners : List Candidate → Owners
  crashed unfinished_yet : Owners

-- The loop, where `found` is the owner found so far.
unfoldable pub verify_all : Source → Request → Option Candidate → List Candidate → Owners
verify_all source req none [] = owners []
verify_all source req (some o) [] = owners (o ∷ [])
verify_all source req none (c ∷ cs) = elim (source.verify req c.secret) [
  | timed_out ↦ unfinished_yet
  | panicked ↦ crashed
  | answered true ↦ verify_all source req (some c) cs
  | answered false ↦ verify_all source req none cs
]
verify_all source req (some o) (c ∷ cs) = elim (source.verify req c.secret) [
  | timed_out ↦ unfinished_yet
  | panicked ↦ crashed
  | answered true ↦ owners (o ∷ c ∷ [])
  | answered false ↦ verify_all source req (some o) cs
]

unfoldable pub ordering_key : Text → Text → Text
ordering_key provider subscription_id = provider ++ (b':' ∷ subscription_id)

abbrev pub is_bad_ordering_key : lawang.Outbox.Error → Bool
is_bad_ordering_key bad_ordering_key = true
is_bad_ordering_key _ = false

abbrev pub freshness : Option Text → Verdict
freshness none = duplicate
freshness (some i) = stored

-- The delivery as it is stored for its owner.
unfoldable pub delivery_of : Text → Text → Candidate → Delivery
delivery_of provider body c = record {
  provider = provider;
  ordering_key = ordering_key provider c.id;
  raw_body = body;
}

module _ (sum : Text → Text) (now : ℕ) (id : Text) where
  unfoldable pub park_delivery :
      Text → Text → ParkReason → Table → Result HubError (Verdict × Table)
  park_delivery provider body reason t = elim (park sum now id provider body reason t) [
    | err e ↦ err (in_outbox e)
    | ok (fresh, s) ↦ ok (parked, s)
  ]

  unfoldable pub store_delivery :
      Text → Text → Candidate → Table → Result HubError (Verdict × Table)
  store_delivery provider body c t =
      elim (accept sum now id c.tenant (delivery_of provider body c) t) [
        | err e ↦
            if is_bad_ordering_key e
            then park_delivery provider body unstorable t
            else err (in_outbox e)
        | ok (fresh, s) ↦ ok (freshness fresh, s)
      ]

  -- What becomes of a delivery by the owners that were found.
  unfoldable pub on_owners : Text → Text → Owners → Table → Result HubError (Verdict × Table)
  on_owners provider body unfinished_yet t = err verification_unfinished
  on_owners provider body crashed t = park_delivery provider body unverifiable t
  on_owners provider body (owners []) t = ok (unverified, t)
  on_owners provider body (owners (o ∷ [])) t = store_delivery provider body o t
  on_owners provider body (owners (o ∷ p ∷ os)) t = park_delivery provider body ambiguous_owner t

  unfoldable pub on_candidates :
      ℕ → Source → Text → Request → List Candidate → Table → Result HubError (Verdict × Table)
  on_candidates max_candidates source provider req [] t = park_delivery provider req.body no_owner t
  on_candidates max_candidates source provider req (c ∷ cs) t =
      if ltb max_candidates (length (c ∷ cs))
      then park_delivery provider req.body ambiguous_owner t
      else on_owners provider req.body (verify_all source req none (c ∷ cs)) t

  -- Accept, for a provider that may be no webhook source. `rows` is the table `subscriptions`.
  unfoldable pub hub_accept :
      ℕ
      → Option Source
      → Text
      → Request
      → List SubscriptionRow
      → Table
      → Result HubError (Verdict × Table)
  hub_accept max_candidates none provider req rows t = err not_a_source
  hub_accept max_candidates (some source) provider req rows t =
      elim (usable_keys (source.delivery_keys req.body req.header)) [
        | none ↦ park_delivery provider req.body unreadable t
        | some keys ↦ elim (candidates max_candidates provider keys rows) [
          | err e ↦ err e
          | ok cs ↦ on_candidates max_candidates source provider req cs t
        ]
      ]
