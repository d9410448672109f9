-- ===== src/Hub/Subscriptions.antt =====
-- internal/hub/subscriptions.go: the registration of a subscription, over UpsertSubscription of
-- internal/hub/hubdb/queries.sql.go.
use lawang.Prelude.{
  ℕ, Bool, true, false, ◌&&◌, ◌||◌, not, List, [], ◌∷◌, map, none, some, ltb, if◌then◌else◌, any,
  find, length, Text, text_eq, Result, ok, err, refuse, ◌>>◌,
}
use lawang.Tenancy
use lawang.Outbox.Operations.{storable}
use lawang.Record.Names.{valid_provider_key}

abbrev pub max_delivery_key_len : ℕ
max_delivery_key_len = 256

abbrev pub max_resource_len : ℕ
max_resource_len = 512

abbrev pub max_id_len : ℕ
max_id_len = 64

-- A row of the table `subscriptions`, and what is registered: there, an empty id is absent.
pub record SubscriptionRow : Type 0 where
  pub id : Text
  pub tenant_id : Text
  pub provider : Text
  pub resource : Text
  pub workspace_id : Text
  pub external_id : Text
  pub secret : Text

pub data RegisterError : Type 0 where
  invalid_subscription subscription_conflict register_failed : RegisterError

unfoldable pub is_tenant : Text → Bool
is_tenant s = elim (Tenancy.parse s) [ ok id ↦ true | err e ↦ false ]

abbrev pub is_absent : Text → Bool
is_absent [] = true
is_absent (b ∷ bs) = false

unfoldable pub key_fits : Text → Bool
key_fits key = not (ltb max_delivery_key_len (length key)) && storable key

-- validate.
unfoldable pub validate : SubscriptionRow → Result RegisterError (Unit {0})
validate s = do
  refuse (not (is_tenant s.tenant_id)) invalid_subscription
  refuse (not (valid_provider_key s.provider)) invalid_subscription
  refuse
      (is_absent s.resource
        || (ltb max_resource_len (length s.resource) || not (storable s.resource)))
      invalid_subscription
  refuse (is_absent s.workspace_id && is_absent s.external_id) invalid_subscription
  refuse (not (key_fits s.workspace_id)) invalid_subscription
  refuse (not (key_fits s.external_id)) invalid_subscription
  refuse (is_absent s.secret) invalid_subscription
  refuse (not (is_absent s.id) && (ltb max_id_len (length s.id) || not (storable s.id)))
      invalid_subscription

-- The row that ON CONFLICT (tenant_id, provider, resource) finds.
unfoldable pub same_resource : SubscriptionRow → SubscriptionRow → Bool
same_resource s r =
    text_eq r.tenant_id s.tenant_id
    && (text_eq r.provider s.provider && text_eq r.resource s.resource)

-- The index of one registration per tenant: (tenant, provider, external id), of the rows that have one.
unfoldable pub same_registration : SubscriptionRow → SubscriptionRow → Bool
same_registration s r =
    not (is_absent s.external_id)
    && (text_eq r.tenant_id s.tenant_id
        && (text_eq r.provider s.provider && text_eq r.external_id s.external_id))

unfoldable pub refreshed : SubscriptionRow → SubscriptionRow → SubscriptionRow
refreshed s r = record r {
  workspace_id = s.workspace_id;
  external_id = s.external_id;
  secret = s.secret;
}

-- UpsertSubscription: the row as it stands afterwards, and the table.
unfoldable pub upsert_subscription :
    SubscriptionRow
    → List SubscriptionRow
    → Result RegisterError (SubscriptionRow × List SubscriptionRow)
upsert_subscription s rows =
    let taken = any (λ r. not (same_resource s r) && same_registration s r) rows in
    elim (find (same_resource s) rows) [
      | some r ↦
          if taken
          then err subscription_conflict
          else ok (refreshed s r, map (λ u. if same_resource s u then refreshed s u else u) rows)
      | none ↦
          if any (λ r. text_eq r.id s.id) rows
          then err register_failed
          else if taken
          then err subscription_conflict
          else ok (s, s ∷ rows)
    ]

-- Register. `fresh_id` is the ULID that the call mints for a subscription without an id.
unfoldable pub register :
    Text
    → SubscriptionRow
    → List SubscriptionRow
    → Result RegisterError (SubscriptionRow × List SubscriptionRow)
register fresh_id s rows = do
  validate s
  upsert_subscription (if is_absent s.id then record s { id = fresh_id } else s) rows
