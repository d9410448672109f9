-- ===== src/Ids.antt =====
-- internal/ids/ids.go: the recipes of the delivery id and the record id. BLAKE3 is not part of the
-- repository: its digest is the parameter `sum`. A ULID (`New`) is an argument where one is minted.
use lawang.Prelude.{
  ℕ, ◌+◌, ◌-◌, ◌/◌, ◌%◌, List, [], ◌∷◌, ◌++◌, Bool, true, false, if◌then◌else◌, ltb, take, Text,
  text, has_byte, Result, ok, err, ◌>>=◌,
}
pub mod Injective
mod Tests

-- The byte between two parts of a hashed message.
abbrev pub sep : ℕ
sep = 0x1F

abbrev pub record_prefix : Text
record_prefix = text "rec_"

abbrev pub record_hex_len : ℕ
record_hex_len = 32

-- The name under which an error reports a part.
pub data Part : Type 0 where
  provider external_id version scope tenant : Part

pub data IdError : Type 0 where
  empty_part separator_in_part : Part → IdError

check_part_bytes : Part → Text → Bool → Result IdError (Unit {0})
check_part_bytes name value true = err (separator_in_part name)
check_part_bytes name value false = ok tt

unfoldable pub check_part : Part → Text → Result IdError (Unit {0})
unfolding check_part_bytes has_byte
check_part name [] = err (empty_part name)
check_part name (c ∷ value) = check_part_bytes name (c ∷ value) (has_byte sep (c ∷ value))

-- What is written to the hasher for a delivery.
unfoldable pub delivery_message : Text → Text → Result IdError Text
unfolding check_part
delivery_message name raw_body = do _ ← check_part provider name; ok (name ++ (sep ∷ raw_body))

-- The loop over the parts behind the first one, each written behind a separator.
write_parts : List (Part × Text) → Text → Result IdError Text
unfolding check_part
write_parts [] written = ok written
write_parts ((name, value) ∷ parts) written = do
  _ ← check_part name value
  write_parts parts (written ++ (sep ∷ value))

-- What is written to the hasher for a record.
unfoldable pub record_message : Text → Text → Text → Text → Text → Result IdError Text
unfolding check_part write_parts
record_message p e v s t = do
  _ ← check_part provider p
  write_parts ((external_id, e) ∷ (version, v) ∷ (scope, s) ∷ (tenant, t) ∷ []) p

hex_digit : ℕ → ℕ
hex_digit n = if ltb n 10 then b'0' + n else b'a' + (n - 10)

-- `hex.EncodeToString`.
pub hex_encode : Text → Text
unfolding hex_digit
hex_encode [] = []
hex_encode (b ∷ bs) = hex_digit (b / 16) ∷ hex_digit (b % 16) ∷ hex_encode bs

module _ (sum : Text → Text) where
  unfoldable pub delivery_id : Text → Text → Result IdError Text
  unfolding delivery_message hex_encode
  delivery_id name raw_body = do
    message ← delivery_message name raw_body
    ok (hex_encode (sum message))

  unfoldable pub record_id : Text → Text → Text → Text → Text → Result IdError Text
  unfolding record_message hex_encode
  record_id p e v s t = do
    message ← record_message p e v s t
    ok (record_prefix ++ take record_hex_len (hex_encode (sum message)))
