-- ===== src/Pipeline/Ledger/Tests.antt =====
-- Runs of internal/pipeline/ledger.go on two versions of one task.
use lawang.Prelude.{
  In, ◌↔◌, inl, inr, ◌≡◌, ◌≤◌, List, [], ◌∷◌, true, false, refl, Option, none, some, Text, text, ok,
  text_eq, compare_text,
}
use lawang.Pipeline.{ℕ, is_digit}
use lawang.Pipeline.Ledger.Locks.{lock_order, IsRising, one_order_of_locks}
use lawang.Pipeline.Ledger.{
  admit_new, admit_known, ledger_entry, is_head_of, is_entry, same_entity, demote_entity_head,
  insert_ledger_entry, write_head, is_less, breaks_check, LedgerRow, Record, prepare, admit,
  entity_head, entry_of,
}
use lawang.Pipeline.Ledger.Versions.{
  compare_versions, compare_trimmed, trim_zeros, is_decimal, decimal_versions, compare_decimal,
  all_digits, compare_nat,
}
use lawang.Pipeline.Ledger.Decimal.{number, compare_decimal_as_numbers}
use lawang.Pipeline.Ledger.Chain.{head_moves_forward}

abbrev no_base64 : (Text → Option Text) × (Text → Option Text)
no_base64 = (λ s. none, λ s. none)

abbrev task : Text → Text → Record
task id version = record {
  id = id;
  external_id = text "clickup:t1";
  version = version;
  scope = text "clickup:list:1";
  supersedes = none;
}

abbrev acme : Text
acme = text "acme"

abbrev clickup : Text
clickup = text "clickup"

abbrev nine : Record
nine = task (text "rec_1") (text "9")

abbrev ten : Record
ten = task (text "rec_2") (text "010")

abbrev linked_ten : Record
linked_ten = record ten { supersedes = some nine.id }

abbrev first_row : LedgerRow
first_row = entry_of acme clickup nine

abbrev one_row : List LedgerRow
one_row = first_row ∷ []

abbrev two_rows : List LedgerRow
two_rows = entry_of acme clickup linked_ten ∷ record first_row { is_head = false } ∷ []

nine_prepared : admit no_base64 decimal_versions acme clickup nine [] ≡ ok (prepare nine, one_row)
unfolding admit admit_new admit_known entity_head ledger_entry is_head_of is_entry same_entity
    demote_entity_head insert_ledger_entry entry_of write_head is_less breaks_check compare_versions
    compare_decimal compare_trimmed compare_nat trim_zeros is_decimal all_digits is_digit text_eq
    compare_text
nine_prepared = refl

ten_prepared :
    admit no_base64 decimal_versions acme clickup ten one_row ≡ ok (prepare linked_ten, two_rows)
unfolding admit admit_new admit_known entity_head ledger_entry is_head_of is_entry same_entity
    demote_entity_head insert_ledger_entry entry_of write_head is_less breaks_check compare_versions
    compare_decimal compare_trimmed compare_nat trim_zeros is_decimal all_digits is_digit text_eq
    compare_text
ten_prepared = refl

head_is_nine : entity_head acme clickup ten.external_id one_row ≡ some first_row
unfolding entity_head is_head_of same_entity entry_of text_eq
head_is_nine = refl

head_moves_forward_example :
    (number first_row.version ≤ number linked_ten.version)
    × (linked_ten.supersedes ≡ some first_row.record_id)
    × (entity_head acme clickup ten.external_id two_rows ≡ some (entry_of acme clickup linked_ten))
head_moves_forward_example =
    head_moves_forward no_base64 acme clickup ten linked_ten first_row one_row two_rows head_is_nine
      ten_prepared

nine_digits : all_digits nine.version ≡ true
unfolding all_digits is_digit
nine_digits = refl

ten_digits : all_digits ten.version ≡ true
unfolding all_digits is_digit
ten_digits = refl

compare_decimal_as_numbers_example :
    compare_decimal ten.version nine.version
    ≡ compare_nat (number ten.version) (number nine.version)
compare_decimal_as_numbers_example =
    compare_decimal_as_numbers ten.version nine.version ten_digits nine_digits

abbrev some_keys : List ℕ
some_keys = 3 ∷ 1 ∷ 3 ∷ []

abbrev same_keys : List ℕ
same_keys = 1 ∷ 3 ∷ []

keys_agree : (k : ℕ) → In k some_keys ↔ In k same_keys
keys_agree k = (there, back)
  where
    there : In k some_keys → In k same_keys
    there (inl e) = inr (inl e)
    there (inr (inl e)) = inl e
    there (inr (inr (inl e))) = inr (inl e)
    there (inr (inr (inr m))) = absurd m

    back : In k same_keys → In k some_keys
    back (inl e) = inr (inl e)
    back (inr (inl e)) = inl e
    back (inr (inr m)) = absurd m

one_order_of_locks_example :
    (lock_order some_keys ≡ lock_order same_keys) × IsRising (lock_order some_keys)
one_order_of_locks_example = one_order_of_locks some_keys same_keys keys_agree
