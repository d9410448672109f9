-- ===== src/Outbox/Claims.antt =====
-- Claim of internal/outbox/outbox.go: what a worker gets.
use lawang.Prelude.{
  ℕ, ◌+◌, ◌≤◌, ◌≡◌, refl, ◌∙◌, inl, inr, Bool, true, false, ◌||◌, ◌==◌, min, List, [], ◌∷◌, In,
  Text, arith, ok, >>=-eq_ok,
}
use lawang.Tenancy
use lawang.Outbox.{Row, Table, Claimed, bad_argument, unfinished, due_at}
use lawang.Outbox.Queries.{claim_batch, claim_rows, claimable}
use lawang.Outbox.Operations.{read_tenant, claim, claims, max_batch}
use lawang.Outbox.Marker.{IsWellFormed, SameKey}
use lawang.Outbox.Marker.Statements.{claim_batch-claimable}
use lawang.Outbox.Marker.Entry.{refuse-ok}

-- `c` is the lease of the row `r` as it stood before the claim.
pub record IsLeaseOf (token : Text) (c : Claimed) (r : Row) : Type 0 where
  pub id_of : c.id ≡ r.id
  pub tenant_of : c.tenant ≡ r.tenant_id
  pub counted : c.attempt ≡ r.attempts + 1
  pub token_of : c.token ≡ token

read_tenant-eq : (s : Text) {a : Text} → read_tenant s ≡ ok a → a ≡ s
unfolding read_tenant Tenancy.parse
read_tenant-eq s e = ground arith

pub claims-In :
    (token : Text) (rows : List Row) (cs : List Claimed) (c : Claimed)
    → claims token rows ≡ ok cs
    → In c cs
    → (r : Row) × In r rows × IsLeaseOf token c r
unfolding claims
claims-In token [] cs c e m = let q : [] ≡ cs = ground arith in absurd (rw (← q) at m)
claims-In token (r ∷ rows) cs c e m =
    let (tenant, h, k) = >>=-eq_ok (read_tenant r.tenant_id) _ e in
    let (rest, h', k') = >>=-eq_ok (claims token rows) _ k in
    let lease : Claimed = record {
      id = r.id;
      tenant = tenant;
      attempt = r.attempts + 1;
      token = token;
    } in
    let q : lease ∷ rest ≡ cs = ground arith in
    elim (rw (← q) at m) [
      | inl same ↦ (r, inl refl, ground (arith, read_tenant-eq r.tenant_id h))
      | inr inside ↦ let (u, mu, l) = claims-In token rows rest c h' inside in (u, inr mu, l)
    ]

-- What a claim that answers returned and wrote.
pub claim-eq :
    (now : ℕ) (locked : Text → Bool) (batch lease : ℕ) (token : Text) (t : Table)
    {cs : List Claimed} {s : Table}
    → claim now locked batch lease token t ≡ ok (cs, s)
    → (claims token (claim_batch now locked (min batch max_batch) t) ≡ ok cs)
      × (s ≡ (claim_rows now locked (min batch max_batch) lease token t).1)
unfolding claim claim_rows
claim-eq now locked batch lease token t e =
    let k = refuse-ok (batch == 0 || lease == 0) bad_argument _ e in
    let (claimed, h, r) =
      >>=-eq_ok (claims token (claim_batch now locked (min batch max_batch) t)) _ k in
    (h ∙ ground arith, ground arith)

-- A claim of a well-formed table hands out a row that was due, unlocked and unfinished, under the new
-- token and one attempt more, and no unfinished row of the same key of the same tenant stands before
-- it in the queue.
pub claim_serves_heads :
    (now : ℕ) (locked : Text → Bool) (batch lease : ℕ) (token : Text) (t : Table)
    {cs : List Claimed} {s : Table}
    → IsWellFormed t
    → claim now locked batch lease token t ≡ ok (cs, s)
    → (c : Claimed) → In c cs
    → (r : Row) × In r t.rows
      × IsLeaseOf token c r
      × (due_at r ≤ now)
      × (locked r.id ≡ false)
      × (unfinished r.state ≡ true)
      × ((u : Row) → In u t.rows → unfinished u.state ≡ true → SameKey r u → r.seq ≤ u.seq)
unfolding claimable
claim_serves_heads now locked batch lease token t v e c m =
    let (h, _) = claim-eq now locked batch lease token t e in
    let (r, hr, l) = claims-In token _ _ c h m in
    let (inside, k) = claim_batch-claimable now locked (min batch max_batch) t r hr in
    let head : r.is_head ≡ true = ground arith in
    (
      r,
      inside,
      l,
      ground arith,
      ground arith,
      v.head_unfinished r inside head,
      λ u hu live s. v.head_first r u inside hu head live s,
    )
