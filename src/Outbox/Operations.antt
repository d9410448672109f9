-- ===== src/Outbox/Operations.antt =====
-- internal/outbox/outbox.go: what the ingress, the hub and the worker call. An operation is one
-- transaction: it returns the table after it, or an error that leaves the table as it was. `now` is
-- the database's clock. A batch, a lease or a pause that is not positive is 0 here.
use lawang.Prelude.{
  ℕ, ◌+◌, Bool, true, false, ◌&&◌, ◌||◌, not, List, [], ◌∷◌, ◌++◌, Option, none, some, ltb, leb,
  ◌==◌, if◌then◌else◌, find, take, length, min, Text, text, Result, ok, err, refuse, ◌>>=◌, ◌>>◌,
  valid_utf8, has_byte, to_valid_utf8, replace_nul, rune_start, decimal, get_elem?, zero, suc,
}
use lawang.Ids
use lawang.Tenancy
use lawang.Outbox.{
  Row, Table, Claimed, State, Error, lease_lost, not_found, bad_ordering_key, bad_provider,
  no_park_reason, bad_delivery_id, bad_argument, invalid_tenant, visible, has_id, is_pending,
}
use lawang.Outbox.Queries.{accept_row, park_row, claim_rows, release_row, promote_next_head}

abbrev pub max_error_len : ℕ
max_error_len = 1000

abbrev pub max_ordering_key_len : ℕ
max_ordering_key_len = 512

abbrev pub max_batch : ℕ
max_batch = 1000

unfoldable pub storable : Text → Bool
storable s = valid_utf8 s && not (has_byte 0 s)

starts_at : Option ℕ → Bool
starts_at none = true
starts_at (some b) = rune_start b

-- The loop that walks back to the start of a rune.
unfoldable pub cut_back : ℕ → Text → ℕ
unfolding starts_at
cut_back zero s = zero
cut_back (suc cut) s =
    let back = cut_back cut s in if starts_at (get_elem? s (suc cut)) then suc cut else back

unfoldable pub clip : Text → Text
clip s =
    let clean = replace_nul (to_valid_utf8 s) in
    if leb (length clean) max_error_len then clean else take (cut_back max_error_len clean) clean

-- A transaction bound to a tenant (`store.DB.TenantTx`), which refuses a malformed tenant id.
unfoldable pub tenant_tx : {A : Type 0} → Text → (Table → Result Error A) → Table → Result Error A
tenant_tx tenant body t = elim (Tenancy.parse tenant) [ ok _ ↦ body t | err _ ↦ err invalid_tenant ]

unfoldable pub held : Option Table → Result Error Table
held none = err lease_lost
held (some t) = ok t

-- A zero Claimed carries no token.
unfoldable pub transition : Claimed → (Table → Result Error Table) → Table → Result Error Table
transition c change t = do refuse (length c.token == 0) lease_lost; tenant_tx c.tenant change t

-- Finishing a row hands the head marker to the next one of its key, in the same transaction.
unfoldable pub finish_in :
    Claimed → (Table → Result Error (Option (Text × Table))) → Table → Result Error Table
finish_in c finish t = do
  finished ← finish t
  elim finished [ none ↦ err lease_lost | some (key, t') ↦ ok (promote_next_head c.tenant key t') ]

pub record Delivery : Type 0 where
  pub provider : Text
  pub ordering_key : Text
  pub raw_body : Text

-- An id of package ids, with its errors as this package's one.
abbrev pub minted : Result Ids.IdError Text → Result Error Text
minted (ok id) = ok id
minted (err e) = err bad_delivery_id

module _ (sum : Text → Text) where
  unfoldable pub accept_in : ℕ → Text → Text → Delivery → Table → Result Error (Option Text × Table)
  accept_in now id tenant d t = do
    refuse
        (length d.ordering_key == 0
          || (ltb max_ordering_key_len (length d.ordering_key) || not (storable d.ordering_key)))
        bad_ordering_key
    delivery_id ← minted (Ids.delivery_id sum d.provider d.raw_body)
    refuse (not (storable d.provider)) bad_provider
    accept_row now id tenant d.provider delivery_id d.ordering_key d.raw_body t

  -- `none` for a delivery that the tenant already has. `id` is the ULID that the call mints.
  unfoldable pub accept : ℕ → Text → Text → Delivery → Table → Result Error (Option Text × Table)
  accept now id tenant d t = tenant_tx tenant (accept_in now id tenant d) t

pub data ParkReason : Type 0 where
  unreasoned no_owner ambiguous_owner unreadable unverifiable unstorable : ParkReason

unfoldable pub keeps_body : ParkReason → Bool
keeps_body unreadable = false
keeps_body _ = true

unfoldable pub body_not_kept : Text → ℕ → Text
body_not_kept body_delivery_id n =
    text "{\"lawang\":\"body not kept\",\"body_delivery_id\":\""
    ++ (body_delivery_id ++ (text "\",\"body_bytes\":" ++ (decimal n ++ text "}")))

unfoldable pub park_reason_text : ParkReason → Option Text
park_reason_text unreasoned = none
park_reason_text no_owner = some (text "unattributable: no owner")
park_reason_text ambiguous_owner = some (text "unattributable: ambiguous owner")
park_reason_text unreadable = some (text "unattributable: unreadable delivery")
park_reason_text unverifiable = some (text "unattributable: the provider's verification panicked")
park_reason_text unstorable = some (text "poison: the delivery cannot be stored")

abbrev pub reasoned : Option Text → Result Error Text
reasoned none = err no_park_reason
reasoned (some reason) = ok reason

module _ (sum : Text → Text) where
  unfoldable pub park :
      ℕ → Text → Text → Text → ParkReason → Table → Result Error (Option Text × Table)
  park now id provider raw_body reason t = do
    reason_text ← reasoned (park_reason_text reason)
    body_id ← minted (Ids.delivery_id sum provider raw_body)
    refuse (not (storable provider)) bad_provider
    let body = if keeps_body reason then raw_body else body_not_kept body_id (length raw_body)
    delivery_id ← minted (Ids.delivery_id sum provider body)
    tenant_tx Tenancy.sentinel
        (park_row now id Tenancy.sentinel provider delivery_id body reason_text) t

-- The tenant id of a claimed row is read again.
unfoldable pub read_tenant : Text → Result Error Text
read_tenant s = elim (Tenancy.parse s) [ ok id ↦ ok id | err _ ↦ err invalid_tenant ]

-- The leases of the claimed rows.
unfoldable pub claims : Text → List Row → Result Error (List Claimed)
claims token [] = ok []
claims token (r ∷ rs) = do
  tenant ← read_tenant r.tenant_id
  rest ← claims token rs
  ok (record { id = r.id; tenant = tenant; attempt = r.attempts + 1; token = token } ∷ rest)

-- `locked` are the rows that concurrent claimers hold locked, `token` the ULID that the call mints.
unfoldable pub claim :
    ℕ → (Text → Bool) → ℕ → ℕ → Text → Table → Result Error (List Claimed × Table)
claim now locked batch lease token t = do
  refuse (batch == 0 || lease == 0) bad_argument
  let (rows, t') = claim_rows now locked (min batch max_batch) lease token t
  claimed ← claims token rows
  ok (claimed, t')

-- A row as its tenant sees it.
unfoldable pub get : Text → Text → Table → Result Error Row
get tenant id t = do
  refuse (not (storable id)) not_found
  tenant_tx tenant
      (λ t. elim (find (λ r. visible tenant r && has_id id r) t.rows) [
        | none ↦ err not_found
        | some r ↦ ok r
      ])
      t

pub record Work : Type 0 where
  pub provider : Text
  pub state : State
  pub body : Option Text

abbrev work_of : Row → Work
work_of r = record {
  provider = r.provider;
  state = r.state;
  body = if is_pending r.state then some r.raw_body else none;
}

-- What a claim needs to work its row. The body is read only while the row is pending.
unfoldable pub work : Claimed → Table → Result Error Work
work c t =
    tenant_tx c.tenant
      (λ t. elim (find (λ r. visible c.tenant r && has_id c.id r) t.rows) [
        | none ↦ err not_found
        | some r ↦ ok (work_of r)
      ])
      t

unfoldable pub release : Claimed → Table → Result Error Table
release c = transition c (λ t. held (release_row c.tenant c.id c.token t))
