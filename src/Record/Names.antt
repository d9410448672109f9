-- ===== src/Record/Names.antt =====
-- The names of internal/record/validate.go: provider keys, kinds and sources.
use lawang.Prelude.{
  ℕ, Bool, true, false, ◌&&◌, ◌||◌, not, [], ◌∷◌, leb, ltb, ◌==◌, any, length, Text,
}

abbrev pub max_source : ℕ
max_source = 64

abbrev pub max_kind : ℕ
max_kind = 32

unfoldable pub is_lower : ℕ → Bool
is_lower c = leb b'a' c && leb c b'z'

unfoldable pub name_char : Bool → ℕ → Bool
name_char hyphen c =
    is_lower c || ((leb b'0' c && leb c b'9') || (c == b'_' || (hyphen && c == b'-')))

unfoldable pub valid_name : ℕ → Bool → Text → Bool
valid_name max_len hyphen [] = false
valid_name max_len hyphen (c ∷ cs) =
    not (ltb max_len (length (c ∷ cs)))
    && (is_lower c && not (any (λ d. not (name_char hyphen d)) cs))

unfoldable pub valid_provider_key : Text → Bool
valid_provider_key s = valid_name max_kind false s

unfoldable pub valid_source : Text → Bool
valid_source s = valid_name max_source true s
