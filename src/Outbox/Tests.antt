-- ===== src/Outbox/Tests.antt =====
-- Runs of internal/outbox on concrete tables.
use lawang.Prelude.{
  ℕ, ◌≡◌, ◌≢◌, refl, ◌⊎◌, inl, inr, Bool, true, false, map, List, [], ◌∷◌, Option, none, some, In,
  length, ltb, ◌+◌, ◌<◌, Text, ◌++◌, ◌≤◌, text, arith, Result, ok, err,
}
use lawang.Outbox.{
  RecordState, landed, refused, pending, due_at, unfinished, Row, RecordRow, Table, Claimed, Error,
  empty, lease_lost,
}
use lawang.Outbox.Cause.{new_cause, sink_rejected, sink_unavailable}
use lawang.Outbox.Operations.{Delivery, accept, claim, release}
use lawang.Outbox.Transitions.{
  DeadRecord, prepare_in, mark_delivered, halt, fail, mark_dead, mark_abandoned, stranded_keys,
}
use lawang.Outbox.RecordQueries.{PreparedRecord}
use lawang.Outbox.Ladder.{default_ladder}
use lawang.Outbox.Marker.{IsWellFormed, SameKey}
use lawang.Outbox.Marker.Reach.{
  Reach, start, later, accepts, claims, Reach-IsWellFormed, never_two_leased, stranded_keys_nil,
}
use lawang.Outbox.Claims.{claim_serves_heads, IsLeaseOf}
use lawang.Outbox.Progress.{HasTenant, claim_finds_work}
use lawang.Tenancy
use lawang.Outbox.Leases.{takeover_refuses, IsRefused}
use lawang.Outbox.Settle.{settled, mark_delivered_settles}
use lawang.Outbox.Duplicates.{accept_twice}

-- The digest in these runs is the message itself.
abbrev pub digest : Text → Text
digest m = m

abbrev pub unlocked : Text → Bool
unlocked id = false

abbrev pub acme : Text
acme = text "acme"

abbrev push : Delivery
push = record { provider = text "clickup"; ordering_key = text "clickup:s1"; raw_body = text "{}" }

abbrev table_of : {A : Type 0} → Result Error (A × Table) → Table
table_of (ok (a, t)) = t
table_of (err e) = empty

abbrev taken_of : Result Error (List Claimed × Table) → List Claimed
taken_of (ok (cs, t)) = cs
taken_of (err e) = []

abbrev only_table : Result Error Table → Table
only_table (ok t) = t
only_table (err e) = empty

-- Its line opens what these runs call.
unfoldable pub stored : Table
unfolding accept lawang.Outbox.Operations.tenant_tx lawang.Tenancy.parse
    lawang.Outbox.Operations.accept_in lawang.Outbox.Operations.storable lawang.Prelude.valid_utf8
    lawang.Prelude.has_byte lawang.Ids.delivery_id lawang.Outbox.Queries.accept_row
    lawang.Outbox.Queries.new_row lawang.Outbox.Queries.busy lawang.Prelude.text_eq
    lawang.Outbox.Operations.claim lawang.Outbox.Operations.claims
    lawang.Outbox.Operations.read_tenant lawang.Outbox.Queries.claim_rows
    lawang.Outbox.Queries.claim_batch lawang.Outbox.Queries.claimable lawang.Outbox.Queries.leased
    lawang.Outbox.Queries.update lawang.Outbox.due_at lawang.Outbox.has_id lawang.Outbox.visible
    lawang.Outbox.of_key lawang.Outbox.Queries.sort_due lawang.Outbox.Queries.insert_due
    lawang.Outbox.Transitions.prepare_in lawang.Outbox.Operations.held
    lawang.Outbox.Queries.mark_prepared_row lawang.Outbox.Queries.preparable
    lawang.Outbox.Queries.held_row lawang.Outbox.Queries.token_is
    lawang.Outbox.Queries.marked_prepared lawang.Outbox.Transitions.check_prepared
    lawang.Outbox.Transitions.store_all lawang.Outbox.RecordQueries.store_prepared_records
    lawang.Outbox.Transitions.mark_delivered lawang.Outbox.Operations.transition
    lawang.Outbox.Transitions.mark_delivered_in lawang.Outbox.Operations.finish_in
    lawang.Outbox.Transitions.mark_records_dead lawang.Outbox.Transitions.refuse_record
    lawang.Outbox.RecordQueries.mark_record_dead lawang.Outbox.RecordQueries.awaits
    lawang.Outbox.RecordQueries.named lawang.Outbox.Queries.records_of
    lawang.Outbox.RecordQueries.update_records lawang.Outbox.RecordQueries.mark_records_delivered
    lawang.Outbox.Queries.mark_delivered_row lawang.Outbox.Queries.finish_held
    lawang.Outbox.Queries.promote_next_head lawang.Outbox.Queries.first_of
    lawang.Outbox.Queries.finished_delivered lawang.Outbox.Transitions.stranded_keys
    lawang.Outbox.Queries.stranded_rows
stored = table_of (accept digest 10 (text "r1") acme push empty)

leased_once : Table
unfolding stored
leased_once = table_of (claim 20 unlocked 5 120 (text "k1") stored)

lease_1 : Claimed
lease_1 = record { id = text "r1"; tenant = acme; attempt = 1; token = text "k1" }

accept_run : accept digest 10 (text "r1") acme push empty ≡ ok (some (text "r1"), stored)
unfolding stored
accept_run = refl

claim_run : claim 20 unlocked 5 120 (text "k1") stored ≡ ok (lease_1 ∷ [], leased_once)
unfolding stored leased_once lease_1
claim_run = refl

pub stored_reached : Reach digest stored
stored_reached = later start (accepts 10 (text "r1") acme push (some (text "r1")) stored accept_run)

leased_reached : Reach digest leased_once
leased_reached =
    later stored_reached (claims 20 unlocked 5 120 (text "k1") (lease_1 ∷ []) leased_once claim_run)

Reach-IsWellFormed_example : IsWellFormed leased_once
Reach-IsWellFormed_example = Reach-IsWellFormed digest leased_reached

stranded_keys_nil_example : ◌≡◌ {A = List Text} [] []
unfolding stored
stranded_keys_nil_example = stranded_keys_nil digest stored_reached acme 10 {keys = []} refl

abbrev row_1 : Row
row_1 = record {
  id = text "r1";
  seq = 1;
  tenant_id = acme;
  provider = text "clickup";
  delivery_id = text "636c69636b75701f7b7d";
  ordering_key = text "clickup:s1";
  raw_body = text "{}";
  state = pending;
  is_head = true;
  attempts = 1;
  next_attempt_at = 10;
  lease_until = some 140;
  lease_token = some (text "k1");
  last_error = [];
  dead_reason = [];
  accepted_at = 10;
  prepared_at = none;
  finished_at = none;
}

row_1-In : In row_1 leased_once.rows
unfolding stored leased_once
row_1-In = inl refl

never_two_leased_example : row_1 ≡ row_1
never_two_leased_example =
    never_two_leased digest leased_reached row_1 row_1 (text "k1") (text "k1") row_1-In row_1-In
      (refl, refl) refl refl

stored-IsWellFormed : IsWellFormed stored
stored-IsWellFormed = Reach-IsWellFormed digest stored_reached

claim_serves_heads_example :
    (r : Row) × In r stored.rows
    × IsLeaseOf (text "k1") lease_1 r
    × (due_at r ≤ 20)
    × (unlocked r.id ≡ false)
    × (unfinished r.state ≡ true)
    × ((u : Row) → In u stored.rows → unfinished u.state ≡ true → SameKey r u → r.seq ≤ u.seq)
claim_serves_heads_example =
    claim_serves_heads 20 unlocked 5 120 (text "k1") stored stored-IsWellFormed claim_run lease_1
      (inl refl)

stored_tenants : (r : Row) → In r stored.rows → HasTenant r
unfolding stored Tenancy.parse
stored_tenants r (inl e) = rw e refl
stored_tenants r (inr m) = absurd m

stored_ready : (r : Row) → In r stored.rows → (due_at r ≤ 20) × (unlocked r.id ≡ false)
unfolding stored due_at
stored_ready r (inl e) = rw e (omega arith, refl)
stored_ready r (inr m) = absurd m

claim_finds_work_example :
    (c : Claimed) × (cs : List Claimed) × (s : Table) × (claim 20 unlocked 5 120 (text "k1") stored
      ≡ ok (c ∷ cs, s))
claim_finds_work_example =
    claim_finds_work 20 unlocked 5 120 (text "k1") stored claim_serves_heads_example.0
      stored-IsWellFormed stored_tenants (omega arith) (omega arith) claim_serves_heads_example.1
      claim_serves_heads_example.5 (λ r m s. stored_ready r m)

-- The lease of a second worker, which takes the row over after the first lease ran out.
abbrev lease_2 : Claimed
lease_2 = record { id = text "r1"; tenant = acme; attempt = 2; token = text "k2" }

leased_twice : Table
leased_twice = table_of (claim 200 unlocked 5 120 (text "k2") leased_once)

claim_again_run : claim 200 unlocked 5 120 (text "k2") leased_once ≡ ok (lease_2 ∷ [], leased_twice)
unfolding stored leased_once lease_1 leased_twice
claim_again_run = refl

takeover_refuses_example : IsRefused (prepare_in 210 acme lease_1 []) leased_twice
unfolding lease_1
takeover_refuses_example =
    (takeover_refuses 200 unlocked 5 120 (text "k2") leased_once
      (Reach-IsWellFormed digest leased_reached) claim_again_run lease_2 lease_1 (inl refl) refl
      (λ (e : text "k1" ≡ text "k2"). ground arith) 210 [] [] 60 default_ladder
      (new_cause sink_unavailable)).0

abbrev two_records : List PreparedRecord
two_records =
    record { record_id = text "a"; document = text "{}"; op = text "upsert"; kind = text "task" }
    ∷ record { record_id = text "b"; document = text "{}"; op = text "upsert"; kind = text "task" }
    ∷ []

prepared_once : Table
prepared_once = only_table (prepare_in 30 acme lease_1 two_records leased_once)

abbrev one_refusal : List DeadRecord
one_refusal = record { record_id = text "b"; cause = new_cause sink_rejected } ∷ []

delivered_once : Table
delivered_once = only_table (mark_delivered 40 lease_1 one_refusal prepared_once)

deliver_run : mark_delivered 40 lease_1 one_refusal prepared_once ≡ ok delivered_once
unfolding stored leased_once lease_1 prepared_once delivered_once
deliver_run = refl

mark_delivered_settles_example :
    delivered_once.records
    ≡ map (settled 40 lease_1 one_refusal prepared_once) prepared_once.records
mark_delivered_settles_example =
    mark_delivered_settles 40 lease_1 one_refusal prepared_once deliver_run

-- One record landed, the other one was refused.
abbrev states : List RecordRow → List RecordState
states = map (λ x. x.state)

deliver_states : states delivered_once.records ≡ landed ∷ refused ∷ []
unfolding stored leased_once lease_1 prepared_once delivered_once
    lawang.Outbox.RecordQueries.landed_record lawang.Outbox.RecordQueries.refused_record
deliver_states = refl

-- The row is claimed, and the delivery comes again.
again : Option Text × Table
again = (none, table_of (accept digest 50 (text "r2") acme push leased_once))

again_run : accept digest 50 (text "r2") acme push leased_once ≡ ok again
unfolding stored leased_once again
again_run = refl

leased_keeps :
    (r : Row)
    → In r stored.rows
    → (w : Row) × In w leased_once.rows
      × (w.tenant_id ≡ r.tenant_id)
      × (w.delivery_id ≡ r.delivery_id)
unfolding stored leased_once
leased_keeps r (inl e) = (_, inl refl, rw e refl, rw e refl)
leased_keeps r (inr m) = absurd m

accept_twice_example : (again.0 ≡ none) × (again.1.rows ≡ leased_once.rows)
accept_twice_example =
    accept_twice digest 10 50 (text "r1") (text "r2") acme (text "clickup:s1") push empty stored
      (text "r1") leased_once again accept_run leased_keeps again_run
