-- ===== src/Tenancy.antt =====
-- internal/tenancy/tenancy.go: what a tenant id may be, and the tenant that parked rows belong to.
use lawang.Prelude.{
  ℕ, Bool, ◌&&◌, ◌||◌, leb, ltb, ◌==◌, any, not, length, Text, text, Result, ok, refuse, ◌>>◌,
}

abbrev pub max_id_len : ℕ
max_id_len = 64

-- The tenant that a delivery with no owner is stored under.
abbrev pub sentinel : Text
sentinel = text "_parked"

id_char : ℕ → Bool
id_char c =
    (leb b'A' c && leb c b'Z')
    || ((leb b'a' c && leb c b'z') || ((leb b'0' c && leb c b'9') || (c == b'_' || c == b'-')))

pub data TenancyError : Type 0 where
  invalid_id : TenancyError

-- An id is returned as it is, or refused.
unfoldable pub parse : Text → Result TenancyError Text
unfolding id_char
parse s = do
  refuse (length s == 0 || ltb max_id_len (length s)) invalid_id
  refuse (any (λ c. not (id_char c)) s) invalid_id
  ok s
