-- ===== src/Pipeline/Mask/Checks.antt =====
-- The tests of internal/pipeline/mask.go that a match of a regular expression passes: boundedBy,
-- validPhone and validIBAN.
use lawang.Prelude.{
  ℕ, ◌+◌, ◌-◌, ◌*◌, ◌%◌, Bool, true, false, ◌&&◌, ◌||◌, not, List, [], ◌∷◌, ◌++◌, Option, none,
  some, leb, ltb, ◌==◌, if◌then◌else◌, any, filter, length, take, drop, get_elem?, Text,
}
use lawang.Pipeline.{is_digit, is_upper, is_alnum}

-- The byte before a match lets it begin: alnum, '/', '@', '_', '+', '.' and '-' do not.
unfoldable pub begins_token : Option ℕ → Bool
begins_token none = true
begins_token (some c) = not (
    is_alnum c
    || (((c == b'/' || c == b'@') || (c == b'_' || c == b'+')) || (c == b'.' || c == b'-')))

unfoldable pub starts_digit : Text → Bool
starts_digit [] = false
starts_digit (c ∷ cs) = is_digit c

-- The bytes behind a match let it end there.
unfoldable pub ends_token : Text → Bool
ends_token [] = true
ends_token (c ∷ cs) =
    if is_alnum c || (c == b'/' || (c == b'@' || c == b'_'))
    then false
    else not ((c == b'.' || c == b'-') && starts_digit cs)

unfoldable pub byte_before : Text → ℕ → Option ℕ
byte_before s start = if start == 0 then none else get_elem? s (start - 1)

unfoldable pub bounded_by : Text → ℕ → ℕ → Bool
bounded_by s start end = begins_token (byte_before s start) && ends_token (drop end s)

abbrev pub flush : Text → List Text → List Text
flush [] groups = groups
flush (c ∷ cs) groups = (c ∷ cs) ∷ groups

-- The runs of digits of a text, where `run` has been read of the current one.
unfoldable pub digit_groups_from : Text → Text → List Text
digit_groups_from run [] = flush run []
digit_groups_from run (c ∷ cs) =
    let rest = digit_groups_from (if is_digit c then run ++ c ∷ [] else []) cs in
    if is_digit c then rest else flush run rest

unfoldable pub digit_groups : Text → List Text
digit_groups s = digit_groups_from [] s

unfoldable pub looks_like_a_year : Text → Bool
looks_like_a_year (a ∷ b ∷ c ∷ d ∷ []) = (a == b'1' && b == b'9') || (a == b'2' && b == b'0')
looks_like_a_year _ = false

-- The sum of the lengths of the groups.
abbrev pub total : List Text → ℕ
total [] = 0
total (g ∷ gs) = length g + total gs

unfoldable pub has_plus : Text → Bool
has_plus [] = false
has_plus (c ∷ cs) = c == b'+'

unfoldable pub first_group_is_year : List Text → Bool
first_group_is_year [] = false
first_group_is_year (g ∷ gs) = looks_like_a_year g

unfoldable pub valid_phone : Text → Bool
valid_phone s =
    let groups = digit_groups s in
    let digits = total groups in
    if has_plus s
    then leb 8 digits && leb digits 15
    else if ltb digits 9 || ltb 15 digits
    then false
    else if not (length groups == 3)
    then false
    else if not (any (λ g. length g == 4) groups)
    then false
    else not (first_group_is_year groups)

-- One step of the loop of validIBAN: `none` at a byte that is neither a digit nor a capital.
unfoldable pub iban_step : ℕ → ℕ → Option ℕ
iban_step rem c =
    if is_digit c
    then some ((rem * 10 + (c - b'0')) % 97)
    else if is_upper c
    then some ((rem * 100 + (c - b'A') + 10) % 97)
    else none

unfoldable pub iban_rem : ℕ → Text → Option ℕ
iban_rem rem [] = some rem
iban_rem rem (c ∷ cs) = elim (iban_step rem c) [ none ↦ none | some r ↦ iban_rem r cs ]

-- strings.ReplaceAll(s, " ", "").
unfoldable pub compact : Text → Text
compact s = filter (λ c. not (c == b' ')) s

-- The country code and the check digits moved to the end.
unfoldable pub rotated : Text → Text
rotated s = drop 4 s ++ take 4 s

abbrev pub is_one : Option ℕ → Bool
is_one none = false
is_one (some r) = r == 1

unfoldable pub valid_iban : Text → Bool
valid_iban s =
    if ltb (length (compact s)) 15 || ltb 34 (length (compact s))
    then false
    else is_one (iban_rem 0 (rotated (compact s)))
