-- ===== src/Pipeline/Mask/Tests.antt =====
-- Runs of internal/pipeline/mask.go on a note with an address and a telephone number.
use lawang.Prelude.{
  rune_tail, ℕ, ◌≡◌, ◌≤◌, ◌<◌, ◌⊎◌, inl, inr, List, [], ◌∷◌, true, ◌&&◌, In, arith, length, refl,
  leb, ◌==◌, ◌%◌, Option, none, some, Text, text, ok, err,
}
use lawang.Pipeline.{is_alnum, is_digit, is_upper}
use lawang.Pipeline.Mask.{
  fit, replace_from, keep_apart, insert_start, sort_start, accepts, masked_too_long, append_matches,
  SecretKind, rune_count_from, Span, FoundSecret, email, phone, slice, find_secrets, candidates,
  secrets, token_for, rune_count, apply, no_token,
}
use lawang.Pipeline.Mask.Checks.{
  bounded_by, starts_digit, byte_before, ends_token, begins_token, looks_like_a_year,
  first_group_is_year, digit_groups_from, digit_groups, has_plus, valid_phone, compact, rotated,
  valid_iban,
}
use lawang.Pipeline.Mask.Apart.{
  IsApart, IsCovered, IsMatches, AreMatches, find_secrets-IsApart, find_secrets-IsCovered,
}
use lawang.Pipeline.Mask.Tokens.{tokens_of_secrets_suffice, missing_token_fails}
use lawang.Pipeline.Mask.Woven.{IsMasked, masking_replaces_the_spans}
use lawang.Pipeline.Mask.Values.{
  digit_count, is_iban_text, iban_number, valid_phone_digits, valid_iban_checks_mod_97,
}

abbrev note : Text
note = text "a@b.co or 0812-3456-7890"

abbrev at_address : Text → List (ℕ × ℕ)
at_address s = (0, 6) ∷ []

abbrev at_number : Text → List (ℕ × ℕ)
at_number s = (10, 24) ∷ []

abbrev nowhere : Text → List (ℕ × ℕ)
nowhere s = []

note-AreMatches : AreMatches at_address nowhere at_number note
note-AreMatches = (
  one (0, 6) (ground arith) (ground arith),
  λ m n. absurd n,
  one (10, 24) (ground arith) (ground arith),
)
  where
    one : (m : ℕ × ℕ) → m.0 < m.1 → m.1 ≤ 24 → IsMatches note (m ∷ [])
    one m p q x (inl e) = rw e (p, q)
    one m p q x (inr n) = absurd n

abbrev no_tokens : FoundSecret → Option Text
no_tokens f = none

abbrev stars : FoundSecret → Option Text
stars f = some (text "***")

masked :
    apply (find_secrets at_address nowhere at_number note) (text "title") stars 20
    ≡ ok (text "*** or ***")
unfolding find_secrets candidates append_matches accepts sort_start insert_start keep_apart
    bounded_by begins_token ends_token byte_before starts_digit valid_phone digit_groups
    digit_groups_from has_plus first_group_is_year looks_like_a_year is_alnum is_digit is_upper
    apply replace_from fit token_for rune_count rune_count_from rune_tail
masked = refl

find_secrets-IsApart_example : IsApart 24 0 (find_secrets at_address nowhere at_number note).spans
find_secrets-IsApart_example =
    find_secrets-IsApart at_address nowhere at_number note note-AreMatches

abbrev number_span : Span
number_span = record {
  start = 10;
  end = 24;
  secret = record { kind = phone; value = text "0812-3456-7890" };
}

number_found : In number_span (candidates at_address nowhere at_number note)
unfolding find_secrets candidates append_matches accepts sort_start insert_start keep_apart
    bounded_by begins_token ends_token byte_before starts_digit valid_phone digit_groups
    digit_groups_from has_plus first_group_is_year looks_like_a_year is_alnum is_digit is_upper
number_found = inr (inl refl)

number_kept : In number_span (find_secrets at_address nowhere at_number note).spans
unfolding find_secrets candidates append_matches accepts sort_start insert_start keep_apart
    bounded_by begins_token ends_token byte_before starts_digit valid_phone digit_groups
    digit_groups_from has_plus first_group_is_year looks_like_a_year is_alnum is_digit is_upper
number_kept = inr (inl refl)

find_secrets-IsCovered_example : IsCovered 10 (find_secrets at_address nowhere at_number note).spans
find_secrets-IsCovered_example =
    find_secrets-IsCovered at_address nowhere at_number note note-AreMatches number_span
      number_found

masking_replaces_the_spans_example :
    IsMasked stars (find_secrets at_address nowhere at_number note).spans 0 note (text "*** or ***")
    × (((find_secrets at_address nowhere at_number note).spans ≡ [])
        ⊎ (rune_count (text "*** or ***") ≤ 20))
masking_replaces_the_spans_example =
    masking_replaces_the_spans at_address nowhere at_number note (text "title") stars 20
      (text "*** or ***") note-AreMatches masked

no_token_there : token_for no_tokens number_span.secret ≡ none
unfolding token_for
no_token_there = refl

missing_token_fails_example :
    (kind : SecretKind) × (apply
        (find_secrets at_address nowhere at_number note)
        (text "title")
        no_tokens
        24
      ≡ err (no_token kind (text "title")))
missing_token_fails_example =
    missing_token_fails (find_secrets at_address nowhere at_number note) (text "title") no_tokens 24
      number_span number_kept no_token_there

abbrev shouted : Text
shouted = text "***"

stars_there : (f : FoundSecret) → (token : Text) × (token_for stars f ≡ some token)
unfolding token_for
stars_there f = (shouted, refl)

tokens_of_secrets_suffice_example :
    ((out : Text) × (apply (find_secrets at_address nowhere at_number note) (text "title") stars 20
        ≡ ok out)
      × (((find_secrets at_address nowhere at_number note).spans ≡ []) ⊎ (rune_count out ≤ 20)))
    ⊎ (apply (find_secrets at_address nowhere at_number note) (text "title") stars 20
        ≡ err (masked_too_long (text "title")))
tokens_of_secrets_suffice_example =
    tokens_of_secrets_suffice (find_secrets at_address nowhere at_number note) (text "title") stars
      20 (λ f m. stars_there f)

number_valid : valid_phone (text "0812-3456-7890") ≡ true
unfolding valid_phone digit_groups digit_groups_from has_plus first_group_is_year looks_like_a_year
    is_digit
number_valid = refl

valid_phone_digits_example :
    ((8 ≤ digit_count (text "0812-3456-7890")) × (digit_count (text "0812-3456-7890") ≤ 15))
    × ((has_plus (text "0812-3456-7890") ≡ true) ⊎ (9 ≤ digit_count (text "0812-3456-7890")))
valid_phone_digits_example = valid_phone_digits (text "0812-3456-7890") number_valid

abbrev account : Text
account = text "GB82 WEST 1234 5698 7654 32"

valid_iban_checks_mod_97_example : valid_iban account ≡ (
    (leb 15 (length (compact account)) && leb (length (compact account)) 34)
    && (is_iban_text (rotated (compact account))
        && (iban_number 0 (rotated (compact account)) % 97 == 1)))
valid_iban_checks_mod_97_example = valid_iban_checks_mod_97 account

account_valid : valid_iban account ≡ true
unfolding valid_iban compact lawang.Pipeline.Mask.Checks.iban_rem rotated
    lawang.Pipeline.Mask.Checks.iban_step lawang.Pipeline.is_digit lawang.Pipeline.is_upper
account_valid = refl
