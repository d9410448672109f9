-- ===== src/Pipeline.antt =====
-- internal/pipeline: what happens to the records of a delivery between the provider and the sink.
-- Here are the tests of a byte that the masker (mask.go) and the ledger (ledger.go) share.
pub mod Mask
pub mod Ledger
pub mod Stages
use lawang.Prelude.{ℕ, Bool, ◌&&◌, ◌||◌, leb}

unfoldable pub is_digit : ℕ → Bool
is_digit c = leb b'0' c && leb c b'9'

unfoldable pub is_upper : ℕ → Bool
is_upper c = leb b'A' c && leb c b'Z'

unfoldable pub is_alnum : ℕ → Bool
unfolding is_digit is_upper
is_alnum c = is_digit c || ((leb b'a' c && leb c b'z') || is_upper c)
