-- ===== src/Pipeline/Ledger/Versions.antt =====
-- internal/pipeline/ledger.go: compareVersions, the order of two versions of an entity under the
-- spelling that the provider declared. The decoders of encoding/base64 are parameters.
use lawang.Prelude.{
  ℕ, Bool, true, false, ◌&&◌, ◌||◌, not, [], ◌∷◌, map, Option, none, some, ltb, ◌==◌, if◌then◌else◌,
  length, Text, Order, less, same, more, compare_text, has_byte,
}
use lawang.Pipeline.{is_digit}

pub data VersionOrder : Type 0 where
  unset decimal_versions lexical_versions base64_versions : VersionOrder

unfoldable pub all_digits : Text → Bool
all_digits [] = true
all_digits (c ∷ cs) = is_digit c && all_digits cs

unfoldable pub is_decimal : Text → Bool
is_decimal [] = false
is_decimal (c ∷ cs) = all_digits (c ∷ cs)

-- strings.TrimLeft(s, "0").
unfoldable pub trim_zeros : Text → Text
trim_zeros [] = []
trim_zeros (c ∷ cs) = let rest = trim_zeros cs in if c == b'0' then rest else c ∷ cs

-- cmp.Compare.
unfoldable pub compare_nat : ℕ → ℕ → Order
compare_nat m n = if ltb m n then less else if ltb n m then more else same

-- compareDecimal of the trimmed texts.
unfoldable pub compare_trimmed : Text → Text → Order
compare_trimmed a b =
    if not (length a == length b) then compare_nat (length a) (length b) else compare_text a b

unfoldable pub compare_decimal : Text → Text → Order
compare_decimal a b = compare_trimmed (trim_zeros a) (trim_zeros b)

-- base64URLToStd.
unfoldable pub url_to_std : Text → Text
url_to_std s = map (λ c. if c == b'-' then b'+' else if c == b'_' then b'/' else c) s

-- strings.HasSuffix(s, "=").
unfoldable pub is_padded : Text → Bool
is_padded [] = false
is_padded (c ∷ []) = c == b'='
is_padded (c ∷ d ∷ cs) = is_padded (d ∷ cs)

unfoldable pub decode_padded : (Text → Option Text) × (Text → Option Text) → Text → Option Text
decode_padded (std, raw) s = elim (is_padded s) [ true ↦ std s | false ↦ raw s ]

unfoldable pub decode_base64 : (Text → Option Text) × (Text → Option Text) → Text → Option Text
decode_base64 decode [] = none
decode_base64 decode (c ∷ cs) =
    let s = c ∷ cs in
    let url_safe = has_byte b'-' s || has_byte b'_' s in
    let standard = has_byte b'+' s || has_byte b'/' s in
    if url_safe && standard
    then none
    else decode_padded decode (if url_safe then url_to_std s else s)

abbrev pub same_length : Text → Text → Option Order
same_length a b = if length a == length b then some (compare_text a b) else none

unfoldable pub compare_versions :
    (Text → Option Text) × (Text → Option Text) → VersionOrder → Text → Text → Option Order
compare_versions decode unset v head = none
compare_versions decode decimal_versions v head =
    if is_decimal v && is_decimal head then some (compare_decimal v head) else none
compare_versions decode lexical_versions [] head = none
compare_versions decode lexical_versions (c ∷ cs) head = same_length (c ∷ cs) head
compare_versions decode base64_versions v head = elim (decode_base64 decode v) [
  | none ↦ none
  | some a ↦ elim (decode_base64 decode head) [ none ↦ none | some b ↦ same_length a b ]
]
