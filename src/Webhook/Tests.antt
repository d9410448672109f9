-- ===== src/Webhook/Tests.antt =====
-- A forged delivery and a signed one, from the request to the outbox.
use lawang.Prelude.{
  ◌≤◌, length, ℕ, ◌≡◌, refl, List, [], ◌∷◌, Option, none, some, Text, text, Result, ok, err, false,
}
use lawang.Pipeline.Ledger.Versions.{decimal_versions}
use lawang.Provider.{HttpRequest, DeliveryKeys, Source, Entry, lookup}
use lawang.Outbox.{Table, empty}
use lawang.Outbox.Tests.{digest}
use lawang.Outbox.Marker.Reach.{start}
use lawang.Ingress.{Response, respond, line}
use lawang.Ingress.Edge.{Edge, accept_failed, request_of, serve_http}
use lawang.Hub.{hub_accept, Candidate, candidates, default_max_candidates}
use lawang.Hub.Verifying.{NoneVerify}
use lawang.Hub.Tests.{source, rows}
use lawang.Outbox.Arrivals.{AddsOnly}
use lawang.Hub.Routing.{AreCandidates}
use lawang.Webhook.{
  IsEntitledBy, Setup, edge_of, webhook_stays_with_its_owner, refused_webhook_changes_nothing,
}

abbrev setup : Setup
setup = record {
  registry =
      record { key = text "clickup"; versions = decimal_versions; source = some source } ∷ [];
  max_body = 100;
  public_base_url = [];
  max_candidates = default_max_candidates;
  parse_media_type = λ s. none;
  clean_path = λ s. s;
  sum = digest;
  now = 10;
  id = text "r1";
  subscriptions = rows;
  failure = λ e. accept_failed;
}

abbrev post : Text → HttpRequest
post secret = record {
  provider = text "clickup";
  method = text "POST";
  request_uri = text "/ingress/clickup";
  header = secret;
  content_length = none;
  stream = text "{}";
  fails = false;
}

abbrev outcome : Text → Option Response × Table
outcome secret = serve_http (edge_of setup) (post secret) empty

forged_run :
    outcome (text "k3") ≡ (some (respond 401 (line (text "unverified"))), (outcome (text "k3")).1)
unfolding serve_http lawang.Ingress.Edge.serve_entry lawang.Ingress.Edge.serve_source
    lawang.Ingress.Edge.answer lawang.Ingress.Edge.request_of lawang.Ingress.read_body
    lawang.Ingress.read_stream lawang.Ingress.status_of lawang.Ingress.public_url
    lawang.Webhook.accept_webhook lawang.Provider.lookup hub_accept lawang.Hub.usable_keys
    lawang.Hub.bad_key lawang.Hub.candidates lawang.Hub.selected lawang.Hub.candidates_from
    lawang.Hub.select_rows lawang.Hub.sort_rows lawang.Hub.insert_row lawang.Hub.of_workspace
    lawang.Hub.of_subscription lawang.Hub.new_candidate lawang.Hub.on_candidates
    lawang.Hub.add_candidates lawang.Hub.has_candidate lawang.Hub.insert_candidate
    lawang.Hub.sort_candidates lawang.Hub.on_owners lawang.Hub.verify_all lawang.Hub.delivery_of
    lawang.Hub.ordering_key lawang.Hub.park_delivery lawang.Hub.store_delivery
    lawang.Outbox.Operations.storable lawang.Prelude.valid_utf8 lawang.Prelude.has_byte
    lawang.Prelude.compare_text lawang.Prelude.text_eq lawang.Tenancy.parse
    lawang.Prelude.valid_utf8_from lawang.Ids.check_part lawang.Ids.delivery_id
    lawang.Ids.delivery_message lawang.Outbox.Operations.accept lawang.Outbox.Operations.accept_in
    lawang.Outbox.Operations.tenant_tx lawang.Outbox.Queries.accept_row lawang.Outbox.Queries.busy
    lawang.Outbox.Queries.new_row lawang.Outbox.has_id lawang.Outbox.of_key lawang.Prelude.decimal
forged_run = refl

status_run : (respond 401 (line (text "unverified"))).status ≡ 401
unfolding respond
status_run = refl

webhook_stays_with_its_owner_example :
    AddsOnly (IsEntitledBy setup (post (text "k2"))) empty (outcome (text "k2")).1
webhook_stays_with_its_owner_example =
    webhook_stays_with_its_owner setup (post (text "k2")) empty (outcome (text "k2")).1
      (outcome (text "k2")).0 start refl

refused_webhook_changes_nothing_example :
    ((outcome (text "k3")).1 ≡ empty)
    × ((e : Entry) × (own : Source) × (keys : DeliveryKeys) × (cs : List Candidate) × (lookup
            (text "clickup")
            setup.registry
          ≡ some e)
        × (e.source ≡ some own)
        × AreCandidates own e.key
            (request_of (edge_of setup) (post (text "k3")) (text "{}"))
            default_max_candidates
            rows
            keys
            cs
        × (1 ≤ length cs)
        × NoneVerify own (request_of (edge_of setup) (post (text "k3")) (text "{}")) cs)
refused_webhook_changes_nothing_example =
    refused_webhook_changes_nothing setup (post (text "k3")) empty (outcome (text "k3")).1
      (respond 401 (line (text "unverified"))) start forged_run status_run
