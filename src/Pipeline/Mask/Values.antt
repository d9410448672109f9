-- ===== src/Pipeline/Mask/Values.antt =====
-- The values that internal/pipeline/mask.go's validPhone and validIBAN accept.
use lawang.Prelude.{
  ◌∙◌, ℕ, ◌≡◌, ◌≤◌, ◌+◌, ◌-◌, ◌*◌, ◌%◌, ◌⊎◌, inl, inr, Bool, ◌&&◌, ◌||◌, List, [], ◌∷◌, ◌++◌, true,
  false, Bool-cases, leb, ◌==◌, arith, length, refl, none, some, Text, if◌then◌else◌, length-append,
}
use lawang.Pipeline.{is_digit, is_upper}
use lawang.Pipeline.Mask.Checks.{
  has_plus, flush, total, digit_groups_from, digit_groups, valid_phone, iban_step, iban_rem,
  compact, rotated, is_one, valid_iban,
}

-- How many bytes of a text are digits.
unfoldable pub digit_count : Text → ℕ
digit_count [] = 0
digit_count (c ∷ cs) = (if is_digit c then 1 else 0) + digit_count cs

total-flush : (run : Text) (gs : List Text) → total (flush run gs) ≡ length run + total gs
total-flush [] gs = omega arith
total-flush (c ∷ cs) gs = refl

total-digit_groups_from :
    (run s : Text) → total (digit_groups_from run s) ≡ length run + digit_count s
unfolding digit_groups_from digit_count
total-digit_groups_from run [] = total-flush run []
total-digit_groups_from run (c ∷ cs) = elim (Bool-cases (is_digit c)) [
  | inl e ↦ rw e (
      let k = total-digit_groups_from (run ++ c ∷ []) cs in
      omega (arith, length-append run (c ∷ []), k))
  | inr e ↦ rw e (
      let k = total-digit_groups_from [] cs in
      omega (arith, total-flush run (digit_groups_from [] cs), k))
]

-- What the masker takes for a telephone number has eight to fifteen digits, and at least nine
-- where it does not begin with a plus.
pub valid_phone_digits :
    (s : Text)
    → valid_phone s ≡ true
    → ((8 ≤ digit_count s) × (digit_count s ≤ 15)) × ((has_plus s ≡ true) ⊎ (9 ≤ digit_count s))
unfolding valid_phone digit_groups
valid_phone_digits s h = let k = total-digit_groups_from [] s in ground (arith, k)

-- The number that a rotated IBAN spells, where each letter is two digits and A is 10.
unfoldable pub iban_number : ℕ → Text → ℕ
iban_number acc [] = acc
iban_number acc (c ∷ cs) =
    iban_number (if is_digit c then acc * 10 + (c - b'0') else acc * 100 + (c - b'A') + 10) cs

-- Nothing but digits and capitals.
unfoldable pub is_iban_text : Text → Bool
is_iban_text [] = true
is_iban_text (c ∷ cs) = (is_digit c || is_upper c) && is_iban_text cs

mod_ten : (acc d : ℕ) → ((acc % 97) * 10 + d) % 97 ≡ (acc * 10 + d) % 97
mod_ten acc d = omega arith

mod_hundred : (acc d : ℕ) → ((acc % 97) * 100 + d + 10) % 97 ≡ (acc * 100 + d + 10) % 97
mod_hundred acc d = omega arith

-- The three outcomes of a step of the loop.
iban_step-cases :
    (rem c : ℕ)
    → ((is_digit c ≡ true) × (iban_step rem c ≡ some ((rem * 10 + (c - b'0')) % 97)))
      ⊎ (((is_digit c ≡ false)
            × (is_upper c ≡ true)
            × (iban_step rem c ≡ some ((rem * 100 + (c - b'A') + 10) % 97)))
          ⊎ ((is_digit c ≡ false) × (is_upper c ≡ false) × (iban_step rem c ≡ none)))
unfolding iban_step
iban_step-cases rem c = elim (Bool-cases (is_digit c)) [
  | inl e ↦ inl (e, rw (e, iban_step) refl)
  | inr e ↦ elim (Bool-cases (is_upper c)) [
    | inl u ↦ inr (inl (e, u, rw (e, u, iban_step) refl))
    | inr u ↦ inr (inr (e, u, rw (e, u, iban_step) refl))
  ]
]

iban_rem-cons :
    (rem r c : ℕ) (cs : Text) → iban_step rem c ≡ some r → iban_rem rem (c ∷ cs) ≡ iban_rem r cs
unfolding iban_rem
iban_rem-cons rem r c cs h = rw (h, iban_rem) refl

iban_rem-stop : (rem c : ℕ) (cs : Text) → iban_step rem c ≡ none → iban_rem rem (c ∷ cs) ≡ none
unfolding iban_rem
iban_rem-stop rem c cs h = rw (h, iban_rem) refl

iban_rem-number :
    (acc rem : ℕ) (s : Text)
    → rem ≡ acc % 97
    → is_iban_text s ≡ true
    → iban_rem rem s ≡ some (iban_number acc s % 97)
unfolding iban_rem is_iban_text iban_number
iban_rem-number acc rem [] h k = rw h refl
iban_rem-number acc rem (c ∷ cs) h k = elim (iban_step-cases rem c) [
  | inl (e, q) ↦
      iban_rem-cons rem _ c cs q
      ∙ rw e (
          iban_rem-number (acc * 10 + (c - b'0')) ((rem * 10 + (c - b'0')) % 97) cs
            (rw h (mod_ten acc (c - b'0'))) (ground arith))
  | inr (inl (e, u, q)) ↦
      iban_rem-cons rem _ c cs q
      ∙ rw e (
          iban_rem-number (acc * 100 + (c - b'A') + 10) ((rem * 100 + (c - b'A') + 10) % 97) cs
            (rw h (mod_hundred acc (c - b'A'))) (ground arith))
  | inr (inr (e, u, q)) ↦ absurd (ground arith)
]

iban_rem-none : (rem : ℕ) (s : Text) → is_iban_text s ≡ false → iban_rem rem s ≡ none
unfolding iban_rem is_iban_text
iban_rem-none rem [] k = cc
iban_rem-none rem (c ∷ cs) k = elim (iban_step-cases rem c) [
  | inl (e, q) ↦
      iban_rem-cons rem _ c cs q ∙ iban_rem-none ((rem * 10 + (c - b'0')) % 97) cs (ground arith)
  | inr (inl (e, u, q)) ↦
      iban_rem-cons rem _ c cs q
      ∙ iban_rem-none ((rem * 100 + (c - b'A') + 10) % 97) cs (ground arith)
  | inr (inr (e, u, q)) ↦ iban_rem-stop rem c cs q
]

is_one-iban_rem :
    (r : Text) → is_one (iban_rem 0 r) ≡ (is_iban_text r && (iban_number 0 r % 97 == 1))
is_one-iban_rem r = elim (Bool-cases (is_iban_text r)) [
  | inl e ↦ rw (iban_rem-number 0 0 r refl e) (rw e refl)
  | inr e ↦ rw (iban_rem-none 0 r e) (rw e refl)
]

-- validIBAN, which keeps only a remainder while it reads, accepts just the texts of fifteen to
-- thirty-four bytes, spaces left out, that are digits and capitals and whose number, with the
-- first four moved to the end, is 1 modulo 97.
pub valid_iban_checks_mod_97 :
    (s : Text)
    → valid_iban s ≡ (
        (leb 15 (length (compact s)) && leb (length (compact s)) 34)
        && (is_iban_text (rotated (compact s)) && (iban_number 0 (rotated (compact s)) % 97 == 1)))
unfolding valid_iban
valid_iban_checks_mod_97 s = ground (arith, is_one-iban_rem (rotated (compact s)))
