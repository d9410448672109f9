-- ===== src/Outbox/Progress.antt =====
-- Claim of internal/outbox/outbox.go makes progress: what is due is handed out.
use lawang.Prelude.{
  ℕ, ◌+◌, ◌≤◌, ◌≡◌, zero, suc, refl, ◌∙◌, ap, Bool-cases, inl, inr, Bool, true, false, ◌||◌, ◌==◌,
  min, List, [], ◌∷◌, In, In-filter_of, filter, take, Text, arith, ok, >>=-eq_ok,
}
use lawang.Tenancy
use lawang.Outbox.{Row, Table, Claimed, unfinished, due_at}
use lawang.Outbox.Queries.{claim_batch, claim_rows, claimable, sort_due, insert_due, earlier_due}
use lawang.Outbox.Operations.{read_tenant, claim, claims, max_batch}
use lawang.Outbox.Marker.{IsWellFormed, SameKey}
use lawang.Outbox.Marker.Statements.{claim_batch-claimable}

-- There is a first row.
abbrev IsInhabited : List Row → Type 0
IsInhabited rs = (r : Row) × (us : List Row) × (rs ≡ r ∷ us)

insert_due-IsInhabited : (r : Row) (rs : List Row) → IsInhabited (insert_due r rs)
unfolding insert_due
insert_due-IsInhabited r [] = (r, [], refl)
insert_due-IsInhabited r (u ∷ us) = elim (Bool-cases (earlier_due r u)) [
  | inl e ↦ (r, u ∷ us, rw e refl)
  | inr e ↦ (u, insert_due r us, rw e refl)
]

sort_due-IsInhabited : (rs : List Row) (r : Row) → In r rs → IsInhabited (sort_due rs)
unfolding sort_due
sort_due-IsInhabited [] r m = absurd m
sort_due-IsInhabited (u ∷ us) r m = insert_due-IsInhabited u (sort_due us)

take-IsInhabited : (n : ℕ) (rs : List Row) → 1 ≤ n → IsInhabited rs → IsInhabited (take n rs)
take-IsInhabited zero rs h i = absurd (omega arith)
take-IsInhabited (suc n) rs h (r, us, e) = rw e (r, take n us, refl)

claim_batch-IsInhabited :
    (now : ℕ) (locked : Text → Bool) (batch : ℕ) (t : Table) (r : Row)
    → 1 ≤ batch
    → In r t.rows
    → claimable now locked r ≡ true
    → IsInhabited (claim_batch now locked batch t)
unfolding claim_batch
claim_batch-IsInhabited now locked batch t r b m h = take-IsInhabited batch _ b (
    sort_due-IsInhabited (filter (claimable now locked) t.rows) r
      (In-filter_of (claimable now locked) t.rows r m h))

-- The row's tenant id is one.
abbrev pub HasTenant : Row → Type 0
HasTenant r = Tenancy.parse r.tenant_id ≡ ok r.tenant_id

claims-answers :
    (token : Text) (rows : List Row)
    → ((r : Row) → In r rows → HasTenant r)
    → (cs : List Claimed) × (claims token rows ≡ ok cs)
unfolding claims read_tenant
claims-answers token [] h = ([], refl)
claims-answers token (r ∷ rs) h =
    let (cs, e) = claims-answers token rs (λ u m. h u (inr m)) in
    let own = h r (inl refl) in
    (
      record { id = r.id; tenant = r.tenant_id; attempt = r.attempts + 1; token = token } ∷ cs,
      ground (arith, own, e),
    )

claims-first :
    (token : Text) (rows : List Row) (cs : List Claimed)
    → IsInhabited rows
    → claims token rows ≡ ok cs
    → (c : Claimed) × (rest : List Claimed) × (cs ≡ c ∷ rest)
unfolding claims
claims-first token rows cs (r, us, q) e =
    let (tenant, h, k) = >>=-eq_ok (read_tenant r.tenant_id) _ (rw q at e) in
    let (rest, h', k') = >>=-eq_ok (claims token us) _ k in
    let lease : Claimed = record {
      id = r.id;
      tenant = tenant;
      attempt = r.attempts + 1;
      token = token;
    } in
    let whole : cs ≡ lease ∷ rest = ground arith in (lease, rest, whole)

claim-answers :
    (now : ℕ) (locked : Text → Bool) (batch lease : ℕ) (token : Text) (t : Table)
    (cs : List Claimed)
    → 1 ≤ batch
    → 1 ≤ lease
    → claims token (claim_batch now locked (min batch max_batch) t) ≡ ok cs
    → claim now locked batch lease token t
      ≡ ok (cs, (claim_rows now locked (min batch max_batch) lease token t).1)
unfolding claim claim_rows
claim-answers now locked batch lease token t cs b l e =
    let sensible : (batch == 0 || lease == 0) ≡ false = ground arith in rw (sensible, e) refl

-- In a well-formed table whose rows have tenants, where a row is unfinished and the rows of its
-- key are due and not locked, a claim of at least one row for some time answers, and it hands out
-- at least one row.
pub claim_finds_work :
    (now : ℕ) (locked : Text → Bool) (batch lease : ℕ) (token : Text) (t : Table) (u : Row)
    → IsWellFormed t
    → ((r : Row) → In r t.rows → HasTenant r)
    → 1 ≤ batch
    → 1 ≤ lease
    → In u t.rows
    → unfinished u.state ≡ true
    → ((r : Row) → In r t.rows → SameKey r u → (due_at r ≤ now) × (locked r.id ≡ false))
    → (c : Claimed) × (cs : List Claimed) × (s : Table) × (claim now locked batch lease token t
        ≡ ok (c ∷ cs, s))
unfolding claimable
claim_finds_work now locked batch lease token t u v tenants b l m live ready =
    let (r, inside, head, key) = v.has_head u m live in
    let (due, free) = ready r inside key in
    let can : claimable now locked r ≡ true = ground (arith, head, due, free) in
    let some_rows =
      claim_batch-IsInhabited now locked (min batch max_batch) t r (omega (arith, b)) inside can in
    let (cs, e) =
      claims-answers token (claim_batch now locked (min batch max_batch) t)
        (λ x n. tenants x (claim_batch-claimable now locked (min batch max_batch) t x n).0) in
    let (c, rest, q) = claims-first token _ cs some_rows e in
    (
      c,
      rest,
      (claim_rows now locked (min batch max_batch) lease token t).1,
      claim-answers now locked batch lease token t (c ∷ rest) b l (e ∙ ap ok q),
    )
