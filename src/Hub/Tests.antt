-- ===== src/Hub/Tests.antt =====
-- Runs of internal/hub on two subscriptions of one workspace.
use lawang.Prelude.{
  length, ◌≤◌, text_eq-ne, inr, arith, inl, ℕ, ◌≡◌, ◌⊎◌, Bool, true, false, List, [], ◌∷◌, Option,
  none, some, In, Text, text, text_eq, Result, ok, err, refl,
}
use lawang.Ingress.{Verdict, stored, unverified}
use lawang.Outbox.{Table, empty}
use lawang.Outbox.Marker.Reach.{start}
use lawang.Outbox.Tests.{digest}
use lawang.Hub.Subscriptions.{register, SubscriptionRow}
use lawang.Provider.{DeliveryKeys, Request, Source, answered}
use lawang.Hub.{
  Candidate, HubError, of_workspace, of_subscription, candidates, hub_accept,
  default_max_candidates,
}
use lawang.Hub.Registered.{IsConsistent, IsRegistered, IsKept, register-IsConsistent}
use lawang.Hub.Owning.{IsOf}
use lawang.Hub.Verifying.{NoneVerify, OneVerifies}
use lawang.Hub.Routing.{AreCandidates, IsStoredFor, one_owner_stores, unverified_changes_nothing}

abbrev subscription : Text → Text → Text → SubscriptionRow
subscription id tenant secret = record {
  id = id;
  tenant_id = tenant;
  provider = text "clickup";
  resource = text "team";
  workspace_id = text "w1";
  external_id = [];
  secret = secret;
}

abbrev pub rows : List SubscriptionRow
rows =
    subscription (text "s1") (text "acme") (text "k1")
    ∷ subscription (text "s2") (text "globex") (text "k2")
    ∷ []

-- A provider whose deliveries carry the workspace and, as their header, the secret.
abbrev pub source : Source
source = record {
  handshake = λ r body. none;
  delivery_keys = λ body header. some (record { workspace = text "w1"; subscription = [] });
  verify = λ req secret. answered (text_eq secret req.header);
}

abbrev signed : Request
signed = record { method = text "POST"; url = []; body = text "{}"; header = text "k2" }

abbrev forged : Request
forged = record { method = text "POST"; url = []; body = text "{}"; header = text "k3" }

abbrev accepted : Request → Result HubError (Verdict × Table)
accepted req =
    hub_accept digest 10 (text "r1") default_max_candidates (some source) (text "clickup") req rows
      empty

abbrev table_of : Result HubError (Verdict × Table) → Table
table_of (ok (v, t)) = t
table_of (err e) = empty

signed_run : accepted signed ≡ ok (stored, table_of (accepted signed))
unfolding hub_accept lawang.Hub.usable_keys lawang.Hub.bad_key lawang.Hub.candidates
    lawang.Hub.selected lawang.Hub.candidates_from lawang.Hub.select_rows lawang.Hub.sort_rows
    lawang.Hub.insert_row lawang.Hub.of_workspace lawang.Hub.of_subscription
    lawang.Hub.new_candidate lawang.Hub.on_candidates lawang.Hub.add_candidates
    lawang.Hub.has_candidate lawang.Hub.insert_candidate lawang.Hub.sort_candidates
    lawang.Hub.on_owners lawang.Hub.verify_all lawang.Hub.delivery_of lawang.Hub.ordering_key
    lawang.Hub.park_delivery lawang.Hub.store_delivery lawang.Outbox.Operations.storable
    lawang.Prelude.valid_utf8 lawang.Prelude.has_byte lawang.Prelude.compare_text
    lawang.Prelude.text_eq lawang.Tenancy.parse lawang.Prelude.valid_utf8_from lawang.Ids.check_part
    lawang.Ids.delivery_id lawang.Ids.delivery_message lawang.Outbox.Operations.accept
    lawang.Outbox.Operations.accept_in lawang.Outbox.Operations.tenant_tx
    lawang.Outbox.Queries.accept_row lawang.Outbox.Queries.busy lawang.Outbox.Queries.new_row
    lawang.Outbox.has_id lawang.Outbox.of_key lawang.Prelude.decimal
signed_run = refl

forged_run : accepted forged ≡ ok (unverified, table_of (accepted forged))
unfolding hub_accept lawang.Hub.usable_keys lawang.Hub.bad_key lawang.Hub.candidates
    lawang.Hub.selected lawang.Hub.candidates_from lawang.Hub.select_rows lawang.Hub.sort_rows
    lawang.Hub.insert_row lawang.Hub.of_workspace lawang.Hub.of_subscription
    lawang.Hub.new_candidate lawang.Hub.on_candidates lawang.Hub.add_candidates
    lawang.Hub.has_candidate lawang.Hub.insert_candidate lawang.Hub.sort_candidates
    lawang.Hub.on_owners lawang.Hub.verify_all lawang.Hub.delivery_of lawang.Hub.ordering_key
    lawang.Hub.park_delivery lawang.Hub.store_delivery lawang.Outbox.Operations.storable
    lawang.Prelude.valid_utf8 lawang.Prelude.has_byte lawang.Prelude.compare_text
    lawang.Prelude.text_eq lawang.Tenancy.parse lawang.Prelude.valid_utf8_from lawang.Ids.check_part
    lawang.Ids.delivery_id lawang.Ids.delivery_message lawang.Outbox.Operations.accept
    lawang.Outbox.Operations.accept_in lawang.Outbox.Operations.tenant_tx
    lawang.Outbox.Queries.accept_row lawang.Outbox.Queries.busy lawang.Outbox.Queries.new_row
    lawang.Outbox.has_id lawang.Outbox.of_key lawang.Prelude.decimal
forged_run = refl

one_owner_stores_example :
    (keys : DeliveryKeys) × (cs : List Candidate) × (c : Candidate) × (r : SubscriptionRow)
    × AreCandidates source (text "clickup") signed default_max_candidates rows keys cs
    × OneVerifies source signed c cs
    × (In r rows
        × IsOf r c
        × ((of_workspace (text "clickup") keys r ≡ true)
            ⊎ (of_subscription (text "clickup") keys r ≡ true)))
    × IsStoredFor digest 10
        (text "r1")
        (text "clickup")
        (text "{}")
        c
        empty
        stored
        (table_of (accepted signed))
one_owner_stores_example =
    one_owner_stores digest 10 (text "r1") default_max_candidates source (text "clickup") signed
      rows empty (table_of (accepted signed)) start signed_run

unverified_changes_nothing_example :
    (table_of (accepted forged) ≡ empty)
    × ((keys : DeliveryKeys) × (cs : List Candidate) × AreCandidates source
          (text "clickup")
          forged
          default_max_candidates
          rows
          keys
          cs
        × (1 ≤ length cs)
        × NoneVerify source forged cs)
unverified_changes_nothing_example =
    unverified_changes_nothing digest 10 (text "r1") default_max_candidates source (text "clickup")
      forged rows empty (table_of (accepted forged)) start forged_run

-- The second subscription is registered anew, with another secret.
abbrev renewal : SubscriptionRow
renewal = record (subscription [] (text "globex") (text "k3")) { workspace_id = text "w2" }

abbrev renewed : SubscriptionRow
renewed = record (subscription (text "s2") (text "globex") (text "k3")) { workspace_id = text "w2" }

abbrev renewed_rows : List SubscriptionRow
renewed_rows = subscription (text "s1") (text "acme") (text "k1") ∷ renewed ∷ []

renewed_run : register (text "s3") renewal rows ≡ ok (renewed, renewed_rows)
unfolding register lawang.Hub.Subscriptions.validate lawang.Hub.Subscriptions.is_tenant
    lawang.Tenancy.parse lawang.Record.Names.valid_provider_key lawang.Record.Names.valid_name
    lawang.Record.Names.is_lower lawang.Record.Names.name_char lawang.Outbox.Operations.storable
    lawang.Prelude.valid_utf8 lawang.Prelude.has_byte lawang.Hub.Subscriptions.key_fits
    lawang.Hub.Subscriptions.upsert_subscription lawang.Hub.Subscriptions.same_resource text_eq
    lawang.Hub.Subscriptions.same_registration lawang.Hub.Subscriptions.refreshed
renewed_run = refl

tenants_differ : text "globex" ≡ text "acme" → ⊥
unfolding text_eq
tenants_differ = text_eq-ne (text "globex") (text "acme") refl

rows-IsConsistent : IsConsistent rows
rows-IsConsistent = (
  λ u m. elim m [
    | inl e ↦ rw e (
      λ (q : text "s1" ≡ text "s2"). ground arith,
      λ (q, x, y). tenants_differ q,
      λ (n, x, y, z). tenants_differ x,
    )
    | inr n ↦ absurd n
  ],
  (λ u m. absurd m, record {}),
)

register-IsConsistent_example :
    IsConsistent renewed_rows
    × (In renewed renewed_rows × IsRegistered renewal renewed)
    × IsKept rows renewed_rows
register-IsConsistent_example =
    register-IsConsistent (text "s3") renewal renewed rows renewed_rows rows-IsConsistent
      renewed_run
