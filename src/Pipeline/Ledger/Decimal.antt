-- ===== src/Pipeline/Ledger/Decimal.antt =====
-- compareDecimal of internal/pipeline/ledger.go against the numbers that its texts spell.
use lawang.Prelude.{
  ltb→lt, subst, ℕ, ◌≡◌, ◌≤◌, ◌<◌, ◌+◌, ◌-◌, ◌*◌, inl, inr, true, false, Bool-cases, [], ◌∷◌, ltb,
  ◌==◌, arith, length, refl, ◌∙◌, sym, Text, less, same, more, compare_text, ==_iff,
}
use lawang.Pipeline.{is_digit}
use lawang.Pipeline.Ledger.Versions.{
  all_digits, trim_zeros, compare_nat, compare_trimmed, compare_decimal,
}

-- Ten to the power of the length.
abbrev scale : Text → ℕ
scale [] = 1
scale (c ∷ cs) = 10 * scale cs

-- The number that a run of digits spells.
unfoldable pub number : Text → ℕ
number [] = 0
number (c ∷ cs) = (c - b'0') * scale cs + number cs

mul_le : (d e s : ℕ) → d ≤ e → d * s ≤ e * s
mul_le d e s h = grind arith

all_digits-cons :
    (c : ℕ) (cs : Text) → all_digits (c ∷ cs) ≡ true → (48 ≤ c) × (c ≤ 57) × (all_digits cs ≡ true)
unfolding all_digits is_digit
all_digits-cons c cs h = ground arith

number-lt_scale : (s : Text) → all_digits s ≡ true → number s < scale s
unfolding number
number-lt_scale [] h = omega arith
number-lt_scale (c ∷ cs) h =
    let (lo, hi, k) = all_digits-cons c cs h in
    let rest = number-lt_scale cs k in
    let front = mul_le (c - b'0') 9 (scale cs) (omega (arith, hi)) in omega (arith, rest, front)

scale-le : (a b : Text) → length a ≤ length b → scale a ≤ scale b
scale-le [] [] h = omega arith
scale-le [] (y ∷ ys) h = let k = scale-le [] ys (omega arith) in omega (arith, k)
scale-le (x ∷ xs) [] h = absurd (omega arith)
scale-le (x ∷ xs) (y ∷ ys) h = let k = scale-le xs ys (omega arith) in omega (arith, k)

number-trim_zeros : (s : Text) → number (trim_zeros s) ≡ number s
unfolding number trim_zeros
number-trim_zeros [] = refl
number-trim_zeros (c ∷ cs) = elim (Bool-cases (c == b'0')) [
  | inl e ↦
      let k = number-trim_zeros cs in
      let z : c - b'0' ≡ 0 = omega (arith, (==_iff c b'0').0 e) in
      rw (e, trim_zeros) (k ∙ rw z (omega arith))
  | inr e ↦ rw (e, trim_zeros) refl
]

trim_zeros-all_digits : (s : Text) → all_digits s ≡ true → all_digits (trim_zeros s) ≡ true
unfolding trim_zeros all_digits
trim_zeros-all_digits [] h = refl
trim_zeros-all_digits (c ∷ cs) h = ground (arith, trim_zeros-all_digits cs)

-- A text that begins with no zero.
abbrev IsTrimmed : Text → Type 0
IsTrimmed [] = Unit
IsTrimmed (c ∷ cs) = (c == b'0') ≡ false

trim_zeros-IsTrimmed : (s : Text) → IsTrimmed (trim_zeros s)
unfolding trim_zeros
trim_zeros-IsTrimmed [] = tt
trim_zeros-IsTrimmed (c ∷ cs) = elim (Bool-cases (c == b'0')) [
  | inl e ↦ rw (e, trim_zeros) (trim_zeros-IsTrimmed cs)
  | inr e ↦ rw (e, trim_zeros) e
]

shorter-lt :
    (a b : Text)
    → all_digits a ≡ true
    → all_digits b ≡ true
    → IsTrimmed b
    → length a < length b
    → number a < number b
unfolding number
shorter-lt a [] p q t h = absurd (omega arith)
shorter-lt a (y ∷ ys) p q t h =
    let (lo, hi, k) = all_digits-cons y ys q in
    let bound = number-lt_scale a p in
    let wide = scale-le a ys (omega arith) in
    let front = mul_le 1 (y - b'0') (scale ys) (ground (arith, t)) in
    omega (arith, bound, wide, front)

compare_nat_less : (m n : ℕ) → m < n → compare_nat m n ≡ less
unfolding compare_nat
compare_nat_less m n h = ground arith

compare_nat_more : (m n : ℕ) → n < m → compare_nat m n ≡ more
unfolding compare_nat
compare_nat_more m n h = ground arith

compare_nat_same : (m : ℕ) → compare_nat m m ≡ same
unfolding compare_nat
compare_nat_same m = ground arith

compare_nat_add : (k m n : ℕ) → compare_nat (k + m) (k + n) ≡ compare_nat m n
unfolding compare_nat
compare_nat_add k m n = ground arith

mul_lt : (d e s : ℕ) → d < e → d * s + s ≤ e * s
mul_lt d e s h = grind arith

-- A smaller first digit makes a smaller number.
first_digit-lt : (x y s m n : ℕ) → 48 ≤ x → x < y → m < s → (x - b'0') * s + m < (y - b'0') * s + n
first_digit-lt x y s m n lo h l =
    let front = mul_lt (x - b'0') (y - b'0') s (omega (arith, lo)) in omega (arith, l, front)

scale-eq : (a b : Text) → length a ≡ length b → scale a ≡ scale b
scale-eq a b h =
    let ab = scale-le a b (omega arith) in
    let ba = scale-le b a (omega arith) in omega (arith, ab, ba)

compare_text-number :
    (a b : Text)
    → all_digits a ≡ true
    → all_digits b ≡ true
    → length a ≡ length b
    → compare_text a b ≡ compare_nat (number a) (number b)
unfolding compare_text number
compare_text-number [] [] p q h = sym (compare_nat_same 0)
compare_text-number [] (y ∷ ys) p q h = absurd (omega arith)
compare_text-number (x ∷ xs) [] p q h = absurd (omega arith)
compare_text-number (x ∷ xs) (y ∷ ys) p q h =
    let (xlo, xhi, px) = all_digits-cons x xs p in
    let (ylo, yhi, qy) = all_digits-cons y ys q in
    let rest = compare_text-number xs ys px qy (omega arith) in
    let wide = scale-eq xs ys (omega arith) in
    elim (Bool-cases (ltb x y)) [
      | inl e ↦ rw e (
          sym (
            compare_nat_less _ _ (
              subst (λ z. (x - b'0') * scale xs + number xs < (y - b'0') * z + number ys) wide
                (first_digit-lt x y (scale xs) (number xs) (number ys) xlo (ltb→lt x y e)
                  (number-lt_scale xs px)))))
      | inr e ↦ elim (Bool-cases (ltb y x)) [
        | inl e' ↦
            rw (e, e')
              (sym (
                compare_nat_more _ _ (
                  subst (λ z. (y - b'0') * scale ys + number ys < (x - b'0') * z + number xs)
                    (sym wide)
                    (first_digit-lt y x (scale ys) (number ys) (number xs) ylo (ltb→lt y x e')
                      (number-lt_scale ys qy)))))
        | inr e' ↦
            let xy : x ≡ y = ground arith in
            rw (e, e')
              (rest
                ∙ subst
                    (λ z.
                      compare_nat (number xs) (number ys)
                      ≡ compare_nat ((x - b'0') * scale xs + number xs) (z + number ys))
                    (rw (xy, wide) refl)
                    (sym (compare_nat_add ((x - b'0') * scale xs) (number xs) (number ys))))
      ]
    ]

compare_trimmed-number :
    (a b : Text)
    → all_digits a ≡ true
    → all_digits b ≡ true
    → IsTrimmed a
    → IsTrimmed b
    → compare_trimmed a b ≡ compare_nat (number a) (number b)
unfolding compare_trimmed
compare_trimmed-number a b p q s t = elim (Bool-cases (length a == length b)) [
  | inl e ↦ rw (e, compare_trimmed) (compare_text-number a b p q ((==_iff _ _).0 e))
  | inr e ↦ elim (Bool-cases (ltb (length a) (length b))) [
    | inl l ↦
        let k = ltb→lt (length a) (length b) l in
        rw (e, compare_trimmed)
          (compare_nat_less _ _ k ∙ sym (compare_nat_less _ _ (shorter-lt a b p q t k)))
    | inr l ↦
        let k : length b < length a = ground arith in
        rw (e, compare_trimmed)
          (compare_nat_more _ _ k ∙ sym (compare_nat_more _ _ (shorter-lt b a q p s k)))
  ]
]

-- compareDecimal orders two runs of digits as the numbers that they spell, whatever their lengths
-- and their leading zeros.
pub compare_decimal_as_numbers :
    (a b : Text)
    → all_digits a ≡ true
    → all_digits b ≡ true
    → compare_decimal a b ≡ compare_nat (number a) (number b)
unfolding compare_decimal compare_trimmed
compare_decimal_as_numbers a b p q =
    compare_trimmed-number (trim_zeros a) (trim_zeros b) (trim_zeros-all_digits a p)
      (trim_zeros-all_digits b q) (trim_zeros-IsTrimmed a) (trim_zeros-IsTrimmed b)
    ∙ rw (number-trim_zeros a, number-trim_zeros b) refl
