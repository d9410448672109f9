-- ===== src/Outbox/Queries.antt =====
-- The SQL statements of internal/outbox/outboxdb/queries.sql.go, each one function of the table.
-- A statement runs alone: the advisory lock on the ordering key serializes the writers of a key, so
-- LockOrderingKey and LockOrderingKeyOf are the identity here. `tenant` is the tenant that the
-- transaction is bound to, and a statement sees only the rows that row-level security shows it.
use lawang.Prelude.{
  ℕ, ◌+◌, ◌-◌, Bool, true, false, ◌&&◌, ◌||◌, not, List, [], ◌∷◌, map, Option, none, some, leb, ltb,
  ◌==◌, if◌then◌else◌, any, find, filter, take, Text, text_eq, Result, ok, err,
}
use lawang.Outbox.{
  Row, RecordRow, Table, State, pending, prepared, delivered, dead, Error, constraint_violation,
  unfinished, is_pending, is_dead, is_delivered, is_refused, due_at, visible, of_key, has_id,
}

-- `lease_token = $n::text`, which is not true of a NULL.
unfoldable pub token_is : Text → Option Text → Bool
token_is token none = false
token_is token (some t) = text_eq t token

-- `WHERE id = … AND lease_token = … AND state IN ('pending', 'prepared')`.
unfoldable pub held_row : Text → Text → Text → Row → Bool
held_row tenant id token r =
    (visible tenant r && has_id id r) && (token_is token r.lease_token && unfinished r.state)

-- `UPDATE outbox SET … WHERE …`.
unfoldable pub update : (Row → Bool) → (Row → Row) → Table → Table
update p f t = record t { rows = map (λ r. if p r then f r else r) t.rows }

-- The key has an unfinished row.
unfoldable pub busy : Text → Text → Row → Bool
busy tenant key u = of_key tenant key u && unfinished u.state

-- GREATEST(attempts - 1, 0).
abbrev pub give_back : ℕ → ℕ
give_back attempts = attempts - 1

unfoldable pub new_row : ℕ → Text → Text → Text → Text → Text → Text → Table → Row
new_row now id tenant provider delivery_id key body t = record {
  id = id;
  seq = t.next_seq;
  tenant_id = tenant;
  provider = provider;
  delivery_id = delivery_id;
  ordering_key = key;
  raw_body = body;
  state = pending;
  is_head = not (any (busy tenant key) t.rows);
  attempts = 0;
  next_attempt_at = now;
  lease_until = none;
  lease_token = none;
  last_error = [];
  dead_reason = [];
  accepted_at = now;
  prepared_at = none;
  finished_at = none;
}

-- Accept: `none` where ON CONFLICT (tenant_id, delivery_id) DO NOTHING returns no row.
unfoldable pub accept_row :
    ℕ → Text → Text → Text → Text → Text → Text → Table → Result Error (Option Text × Table)
accept_row now id tenant provider delivery_id key body t =
    if any (λ u. text_eq u.tenant_id tenant && text_eq u.delivery_id delivery_id) t.rows
    then ok (none, record t { next_seq = t.next_seq + 1 })
    else if any (has_id id) t.rows
    then err constraint_violation
    else ok (
      some id,
      record t {
        rows = new_row now id tenant provider delivery_id key body t ∷ t.rows;
        next_seq = t.next_seq + 1;
      },
    )

-- Inserted dead, not a head, under its delivery id as its key.
unfoldable pub parked_row : ℕ → Text → Text → Text → Text → Text → Text → Table → Row
parked_row now id tenant provider delivery_id body reason t = record {
  id = id;
  seq = t.next_seq;
  tenant_id = tenant;
  provider = provider;
  delivery_id = delivery_id;
  ordering_key = delivery_id;
  raw_body = body;
  state = dead;
  is_head = false;
  attempts = 0;
  next_attempt_at = now;
  lease_until = none;
  lease_token = none;
  last_error = [];
  dead_reason = reason;
  accepted_at = now;
  prepared_at = none;
  finished_at = some now;
}

-- Park.
unfoldable pub park_row :
    ℕ → Text → Text → Text → Text → Text → Text → Table → Result Error (Option Text × Table)
park_row now id tenant provider delivery_id body reason t =
    if any (λ u. text_eq u.tenant_id tenant && text_eq u.delivery_id delivery_id) t.rows
    then ok (none, record t { next_seq = t.next_seq + 1 })
    else if any (has_id id) t.rows
    then err constraint_violation
    else ok (
      some id,
      record t {
        rows = parked_row now id tenant provider delivery_id body reason t ∷ t.rows;
        next_seq = t.next_seq + 1;
      },
    )

-- `ORDER BY due_at, seq`.
unfoldable pub earlier_due : Row → Row → Bool
earlier_due r u = ltb (due_at r) (due_at u) || (due_at r == due_at u && ltb r.seq u.seq)

unfoldable pub insert_due : Row → List Row → List Row
unfolding earlier_due
insert_due r [] = r ∷ []
insert_due r (u ∷ us) =
    let later = u ∷ insert_due r us in if earlier_due r u then r ∷ u ∷ us else later

unfoldable pub sort_due : List Row → List Row
unfolding insert_due
sort_due [] = []
sort_due (r ∷ rs) = insert_due r (sort_due rs)

-- `c.is_head AND c.due_at <= now()`, less the rows that another claimer has locked (SKIP LOCKED).
unfoldable pub claimable : ℕ → (Text → Bool) → Row → Bool
claimable now locked r = (r.is_head && leb (due_at r) now) && not (locked r.id)

unfoldable pub claim_batch : ℕ → (Text → Bool) → ℕ → Table → List Row
unfolding sort_due
claim_batch now locked batch t = take batch (sort_due (filter (claimable now locked) t.rows))

unfoldable pub leased : ℕ → ℕ → Text → Row → Row
leased now lease token r = record r {
  lease_until = some (now + lease);
  lease_token = some token;
  attempts = r.attempts + 1;
}

-- Claim: the rows as they were before the update, and the table after it. It runs as the worker
-- role, which sees the rows of every tenant.
unfoldable pub claim_rows : ℕ → (Text → Bool) → ℕ → ℕ → Text → Table → List Row × Table
claim_rows now locked batch lease token t =
    let batch_rows = claim_batch now locked batch t in
    (batch_rows, update (λ r. any (has_id r.id) batch_rows) (leased now lease token) t)

-- An `:execrows` update that must match: `none` where it changed no row.
unfoldable pub update_held : Text → Text → Text → (Row → Row) → Table → Option Table
update_held tenant id token f t =
    if any (held_row tenant id token) t.rows
    then some (update (held_row tenant id token) f t)
    else none

unfoldable pub retried : ℕ → ℕ → Text → Row → Row
retried now delay error r = record r {
  next_attempt_at = now + delay;
  last_error = error;
  lease_until = none;
  lease_token = none;
}

unfoldable pub retry_row : ℕ → Text → Text → Text → ℕ → Text → Table → Option Table
retry_row now tenant id token delay error = update_held tenant id token (retried now delay error)

unfoldable pub halted : ℕ → ℕ → Text → Row → Row
halted now pause error r = record r {
  next_attempt_at = now + pause;
  last_error = error;
  lease_until = none;
  lease_token = none;
  attempts = give_back r.attempts;
}

unfoldable pub halt_row : ℕ → Text → Text → Text → ℕ → Text → Table → Option Table
halt_row now tenant id token pause error = update_held tenant id token (halted now pause error)

unfoldable pub released : Row → Row
released r = record r { lease_until = none; lease_token = none; attempts = give_back r.attempts }

unfoldable pub release_row : Text → Text → Text → Table → Option Table
release_row tenant id token = update_held tenant id token (released)

-- MarkPrepared: `AND state = 'pending'`.
unfoldable pub preparable : Text → Text → Text → Row → Bool
preparable tenant id token r = held_row tenant id token r && is_pending r.state

unfoldable pub marked_prepared : ℕ → Row → Row
marked_prepared now r = record r { state = prepared; prepared_at = some now }

unfoldable pub mark_prepared_row : ℕ → Text → Text → Text → Table → Option Table
mark_prepared_row now tenant id token t =
    if any (preparable tenant id token) t.rows
    then some (update (preparable tenant id token) (marked_prepared now) t)
    else none

-- An update that returns the ordering key of the row it finished.
unfoldable pub finish_held : Text → Text → Text → (Row → Row) → Table → Option (Text × Table)
finish_held tenant id token f t = elim (find (held_row tenant id token) t.rows) [
  | none ↦ none
  | some r ↦ some (r.ordering_key, update (held_row tenant id token) f t)
]

unfoldable pub finished_delivered : ℕ → Row → Row
finished_delivered now r = record r {
  state = delivered;
  is_head = false;
  finished_at = some now;
  lease_until = none;
  lease_token = none;
  last_error = [];
}

unfoldable pub mark_delivered_row : ℕ → Text → Text → Text → Table → Option (Text × Table)
mark_delivered_row now tenant id token = finish_held tenant id token (finished_delivered now)

unfoldable pub finished_dead : ℕ → Text → Text → Row → Row
finished_dead now reason error r = record r {
  state = dead;
  is_head = false;
  dead_reason = reason;
  last_error = error;
  finished_at = some now;
  lease_until = none;
  lease_token = none;
}

unfoldable pub mark_dead_row : ℕ → Text → Text → Text → Text → Text → Table → Option (Text × Table)
mark_dead_row now tenant id token reason error =
    finish_held tenant id token (finished_dead now reason error)

-- `ORDER BY seq LIMIT 1`.
unfoldable pub earlier_seq : Row → Option Row → Option Row
earlier_seq r none = some r
earlier_seq r (some u) = if ltb u.seq r.seq then some u else some r

unfoldable pub first_of : (Row → Bool) → List Row → Option Row
unfolding earlier_seq
first_of p [] = none
first_of p (r ∷ rs) = let best = first_of p rs in if p r then earlier_seq r best else best

unfoldable pub promote : Option Row → Table → Table
promote none t = t
promote (some n) t = update (has_id n.id) (λ r. record r { is_head = true }) t

unfoldable pub promote_next_head : Text → Text → Table → Table
unfolding promote
promote_next_head tenant key t = promote (first_of (busy tenant key) t.rows) t

-- `outbox_record` shows the records of the rows that the tenant sees.
unfoldable pub records_of : Text → Text → Table → RecordRow → Bool
records_of tenant id t x =
    text_eq x.outbox_id id && any (λ o. has_id x.outbox_id o && visible tenant o) t.rows

-- Replay takes a dead row, and a delivered one that has a dead record.
unfoldable pub replayable : Text → Text → Table → Row → Bool
replayable tenant id t r =
    (visible tenant r && has_id id r)
    && (is_dead r.state
        || (is_delivered r.state
            && any (λ x. records_of tenant r.id t x && is_refused x.state) t.records))

back_to : Option ℕ → State
back_to none = pending
back_to (some at) = prepared

unfoldable pub revived : ℕ → Table → Row → Row
unfolding back_to
revived now t r = record r {
  seq = t.next_seq;
  state = back_to r.prepared_at;
  is_head = not (any (busy r.tenant_id r.ordering_key) t.rows);
  attempts = 0;
  next_attempt_at = now;
  dead_reason = [];
  finished_at = none;
}

unfoldable pub replay_row : ℕ → Text → Text → Table → Option Table
replay_row now tenant id t =
    if any (replayable tenant id t) t.rows
    then some
        (record (update (replayable tenant id t) (revived now t) t) { next_seq = t.next_seq + 1 })
    else none

-- StrandedKeys: the keys that have an unfinished row and no head, before GROUP BY and LIMIT.
unfoldable pub stranded_rows : Text → Table → List Row
stranded_rows tenant t =
    filter
      (λ u.
        (visible tenant u && (unfinished u.state && not u.is_head))
        && not (any (λ h. of_key u.tenant_id u.ordering_key h && h.is_head) t.rows))
      t.rows
