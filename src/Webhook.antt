-- ===== src/Webhook.antt =====
-- The accept path from the webhook to the outbox: the edge of internal/ingress over the hub of
-- internal/hub, as cmd/lawang/serve.go builds them.
mod Tests
use lawang.Prelude.{
  length, ◌≤◌, Option-cases, ℕ, ◌≡◌, List, Option, none, some, Option-cases, inl, inr, ◌⊎◌, Text,
  Result, ok, err, Result-cases, arith, refl, ◌∙◌, sym, ap, subst,
}
use lawang.Provider.{HttpRequest, Request, DeliveryKeys, Source, Entry, lookup}
use lawang.Outbox.{Table}
use lawang.Outbox.Marker.Reach.{Reach}
use lawang.Ingress.{Verdict, Response, unverified}
use lawang.Ingress.Edge.{Edge, AcceptFailure, request_of, serve_http}
use lawang.Ingress.Serving.{changes_go_through_the_hub, only_the_hub_refuses}
use lawang.Hub.{HubError, Candidate, hub_accept, candidates}
use lawang.Hub.Subscriptions.{SubscriptionRow}
use lawang.Hub.Verifying.{NoneVerify}
use lawang.Outbox.{Row}
use lawang.Outbox.Arrivals.{AddsOnly}
use lawang.Hub.Routing.{AreCandidates, IsEntitled, hub_accept-AddsOnly, unverified_changes_nothing}

-- What the program is started with, and what one request finds: the time, the id that is drawn for
-- it and the table of the subscriptions. `failure` says which errors are the request's deadline.
pub record Setup : Type 0 where
  pub registry : List Entry
  pub max_body : ℕ
  pub public_base_url : Text
  pub max_candidates : ℕ
  pub parse_media_type : Text → Option (Text × List (Text × Text))
  pub clean_path : Text → Text
  pub sum : Text → Text
  pub now : ℕ
  pub id : Text
  pub subscriptions : List SubscriptionRow
  pub failure : HubError → AcceptFailure

module _ (setup : Setup) where
  unfoldable pub accept_webhook : Entry → Request → Table → Result AcceptFailure (Verdict × Table)
  accept_webhook e req t =
      elim (hub_accept setup.sum setup.now setup.id setup.max_candidates e.source e.key req
        setup.subscriptions t) [ err x ↦ err (setup.failure x) | ok x ↦ ok x ]

  abbrev pub edge_of : Edge Table
  edge_of = record {
    registry = setup.registry;
    hub = accept_webhook;
    max_body = setup.max_body;
    public_base_url = setup.public_base_url;
    parse_media_type = setup.parse_media_type;
    clean_path = setup.clean_path;
  }

accept_webhook-ok :
    (setup : Setup) (e : Entry) (req : Request) (t u : Table) (v : Verdict)
    → accept_webhook setup e req t ≡ ok (v, u)
    → (source : Source) × (e.source ≡ some source)
      × (hub_accept setup.sum setup.now setup.id setup.max_candidates
            (some source)
            e.key
            req
            setup.subscriptions
            t
          ≡ ok (v, u))
unfolding accept_webhook hub_accept
accept_webhook-ok setup e req t u v h =
    elim (Result-cases (
      hub_accept setup.sum setup.now setup.id setup.max_candidates e.source e.key req
        setup.subscriptions t)) [
          | inl (x, k) ↦ absurd (ground (arith, k))
          | inr (x, k) ↦
              let same_end : x ≡ (v, u) = ground (arith, k) in
              elim (Option-cases e.source) [
                | inl n ↦ absurd (ground (arith, k, n))
                | inr (source, n) ↦ (
                  source,
                  n,
                  subst
                      (λ o.
                        hub_accept setup.sum setup.now setup.id setup.max_candidates o e.key req
                          setup.subscriptions t
                        ≡ ok (v, u))
                      n (k ∙ ap ok same_end),
                )
              ]
        ]

-- A row that a webhook may add: a parked one, or the request's body, stored for the only candidate
-- subscription that verifies the request.
abbrev pub IsEntitledBy : Setup → HttpRequest → Row → Type 0
IsEntitledBy setup r x =
    (e : Entry) × (source : Source) × (lookup r.provider setup.registry ≡ some e)
    × (e.source ≡ some source)
    × IsEntitled source e.key (request_of (edge_of setup) r r.stream) setup.max_candidates
        setup.subscriptions x

-- From a reachable table, a webhook, whatever it holds and whatever the edge answers, removes no
-- row of the outbox, and each row that it adds is parked, which is dead and under the tenant of
-- parked rows, or is the whole body of the request, stored for the tenant, the provider and the
-- ordering key of the only candidate of the delivery's own keys whose secret verifies the request.
pub webhook_stays_with_its_owner :
    (setup : Setup) (r : HttpRequest) (t u : Table) (o : Option Response)
    → Reach setup.sum t
    → serve_http (edge_of setup) r t ≡ (o, u)
    → AddsOnly (IsEntitledBy setup r) t u
webhook_stays_with_its_owner setup r t u o reach h =
    elim (changes_go_through_the_hub (edge_of setup) r t u o h) [
      | inl still ↦ rw still ((λ x m. m), λ x m. inl m)
      | inr (e, v, known, run) ↦
          let (source, own, k) =
            accept_webhook-ok setup e (request_of (edge_of setup) r r.stream) t u v run in
          let (kept, new) =
            hub_accept-AddsOnly setup.sum setup.now setup.id setup.max_candidates source e.key
              (request_of (edge_of setup) r r.stream) setup.subscriptions t u v reach k in
          (kept, λ x m. elim (new x m) [ inl n ↦ inl n | inr d ↦ inr (e, source, known, own, d) ])
    ]

-- Over the hub, the edge answers a webhook with 401 only where the outbox stays as it was, the
-- request names a registered webhook source, the keys that the source reads from the request
-- itself have at least one candidate subscription, and none of the candidates verifies the request
-- with its whole body.
pub refused_webhook_changes_nothing :
    (setup : Setup) (r : HttpRequest) (t u : Table) (resp : Response)
    → Reach setup.sum t
    → serve_http (edge_of setup) r t ≡ (some resp, u)
    → resp.status ≡ 401
    → (u ≡ t)
      × ((e : Entry) × (source : Source) × (keys : DeliveryKeys) × (cs : List Candidate) × (lookup
              r.provider setup.registry
            ≡ some e)
          × (e.source ≡ some source)
          × AreCandidates source e.key
              (request_of (edge_of setup) r r.stream)
              setup.max_candidates
              setup.subscriptions
              keys
              cs
          × (1 ≤ length cs)
          × NoneVerify source (request_of (edge_of setup) r r.stream) cs)
refused_webhook_changes_nothing setup r t u resp reach h q =
    let (e, known, run) = only_the_hub_refuses (edge_of setup) r t u resp h q in
    let (source, own, k) =
      accept_webhook-ok setup e (request_of (edge_of setup) r r.stream) t u unverified run in
    let (still, (keys, cs, found, some_one, none_verify)) =
      unverified_changes_nothing setup.sum setup.now setup.id setup.max_candidates source e.key
        (request_of (edge_of setup) r r.stream) setup.subscriptions t u reach k in
    (still, (e, source, keys, cs, known, own, found, some_one, none_verify))
