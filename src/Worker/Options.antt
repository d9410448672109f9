-- ===== src/Worker/Options.antt =====
-- internal/worker/worker.go: NewDrain, which fills in the options and refuses those that cannot
-- work. Durations are in milliseconds, and signed as the source's are.
use lawang.Prelude.{
  ℕ, ◌-◌, ◌≡◌, ◌≢◌, ◌⊎◌, Option, none, some, if◌then◌else◌, min, max, Bool, Text, Result, ok, err,
}
use lawang.Worker.Signed.{ℤ, pos, pos_part, leb_ℤ, is_negative, is_zero}
use lawang.Outbox.{Table, bad_argument}
use lawang.Outbox.Operations.{claim}
use lawang.Outbox.Ladder.{Ladder, default_ladder}

abbrev pub default_batch : ℕ
default_batch = 5

abbrev pub default_lease : ℕ
default_lease = 120_000

abbrev pub default_row_timeout : ℕ
default_row_timeout = 90_000

abbrev pub default_poll : ℕ
default_poll = 1_000

abbrev pub default_halt_pause : ℕ
default_halt_pause = 60_000

abbrev pub default_pool : ℕ
default_pool = 4

-- `ladder` is `none` for a nil one.
pub record Options : Type 0 where
  pub pool : ℤ
  pub batch : ℤ
  pub lease : ℤ
  pub row_timeout : ℤ
  pub poll : ℤ
  pub halt_pause : ℤ
  pub ladder : Option Ladder

pub data DrainError : Type 0 where
  negative_pool pool_too_large row_timeout_too_long : DrainError

-- A negative value is left as it is.
unfoldable pub set_default : ℤ → ℕ → ℤ
set_default v fallback = if is_zero v then pos fallback else v

abbrev pub ladder_or_default : Option Ladder → Option Ladder
ladder_or_default none = some default_ladder
ladder_or_default (some l) = some l

unfoldable pub pool_of : ℤ → ℕ → ℤ
pool_of pool conns = if is_zero pool then pos (min default_pool (max 1 (conns - 1))) else pool

unfoldable pub filled : Options → ℕ → Options
filled opts conns = record {
  pool = pool_of opts.pool conns;
  batch = set_default opts.batch default_batch;
  lease = set_default opts.lease default_lease;
  row_timeout = set_default opts.row_timeout default_row_timeout;
  poll = set_default opts.poll default_poll;
  halt_pause = set_default opts.halt_pause default_halt_pause;
  ladder = ladder_or_default opts.ladder;
}

-- `conns` is the size of the connection pool.
unfoldable pub new_drain : Options → ℕ → Result DrainError Options
new_drain opts conns =
    let o = filled opts conns in
    if is_negative o.pool
    then err negative_pool
    else if leb_ℤ (pos conns) o.pool
    then err pool_too_large
    else if leb_ℤ o.lease o.row_timeout
    then err row_timeout_too_long
    else ok o

-- `used` is what an option `given` with a default becomes: it is not 0, and it is the given value
-- unless that is 0.
abbrev pub IsFilled : ℤ → ℕ → ℤ → Type 0
IsFilled given fallback used =
    (used ≢ pos 0) × ((used ≡ given) ⊎ ((given ≡ pos 0) × (used ≡ pos fallback)))

-- What a drain with these options gets of each claim: Claim reads a batch and a lease that are not
-- positive alike.
pub ClaimsRefused : Options → Type 0
ClaimsRefused o =
    (now : ℕ) (locked : Text → Bool) (token : Text) (t : Table)
    → claim now locked (pos_part o.batch) (pos_part o.lease) token t ≡ err bad_argument
