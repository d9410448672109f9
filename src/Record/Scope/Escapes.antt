-- ===== src/Record/Scope/Escapes.antt =====
-- The percent-encoding of internal/record/scope.go, read and written.
use lawang.Prelude.{
  ℕ, ◌≡◌, ◌+◌, ◌*◌, ◌/◌, ◌%◌, ◌<◌, true, false, ◌&&◌, Bool-cases, [], ◌∷◌, ◌++◌, ◌==◌, inl, inr,
  ◌⊎◌, Text, arith, refl,
}
use lawang.Record.Scope.{
  unreserved, control, is_upper_hex, unhex, hex_digit, escape, good_escape, check_escapes, unescape,
}

unhex-hex_digit : (n : ℕ) → n < 16 → (is_upper_hex (hex_digit n) ≡ true) × (unhex (hex_digit n) ≡ n)
unfolding is_upper_hex unhex hex_digit
unhex-hex_digit n h = ground arith

pub hex_digit-unhex : (h : ℕ) → is_upper_hex h ≡ true → (hex_digit (unhex h) ≡ h) × (unhex h < 16)
unfolding is_upper_hex unhex hex_digit
hex_digit-unhex h e = ground arith

unreserved-percent : (c : ℕ) → unreserved c ≡ true → (c == b'%') ≡ false
unfolding unreserved
unreserved-percent c h = ground arith

percent-unreserved : unreserved b'%' ≡ false
unfolding unreserved
percent-unreserved = refl

pub check_escapes-plain :
    (c : ℕ) (cs : Text) → unreserved c ≡ true → check_escapes (c ∷ cs) ≡ check_escapes cs
unfolding check_escapes
check_escapes-plain c [] e = e
check_escapes-plain c (d ∷ []) e = rw (e, check_escapes) refl
check_escapes-plain c (d ∷ l ∷ cs) e = rw (e, check_escapes) refl

pub unescape-plain : (c : ℕ) (cs : Text) → unreserved c ≡ true → unescape (c ∷ cs) ≡ c ∷ unescape cs
unfolding unescape
unescape-plain c [] e = refl
unescape-plain c (d ∷ []) e = refl
unescape-plain c (d ∷ l ∷ cs) e = rw (unreserved-percent c e, unescape) refl

pub check_escapes-escaped :
    (h l : ℕ) (cs : Text)
    → check_escapes (b'%' ∷ h ∷ l ∷ cs) ≡ (good_escape h l && check_escapes cs)
unfolding check_escapes
check_escapes-escaped h l cs = rw (percent-unreserved, check_escapes) refl

pub unescape-escaped :
    (h l : ℕ) (cs : Text) → unescape (b'%' ∷ h ∷ l ∷ cs) ≡ (unhex h * 16 + unhex l) ∷ unescape cs
unfolding unescape
unescape-escaped h l cs = refl

good_escape-digits :
    (c : ℕ)
    → c < 256
    → unreserved c ≡ false
    → control c ≡ false
    → good_escape (hex_digit (c / 16)) (hex_digit (c % 16)) ≡ true
unfolding good_escape
good_escape-digits c b u k =
    let high = unhex-hex_digit (c / 16) (omega arith) in
    let low = unhex-hex_digit (c % 16) (omega arith) in
    let whole : c / 16 * 16 + c % 16 ≡ c = omega arith in
    rw (high.0, low.0, high.1, low.1, whole, u, k) refl

-- What is written for one byte is read as that byte.
pub check_escapes-escape :
    (c : ℕ) (cs : Text)
    → c < 256
    → (unreserved c ≡ true) ⊎ (control c ≡ false)
    → (check_escapes (escape c ++ cs) ≡ check_escapes cs)
      × (unescape (escape c ++ cs) ≡ c ∷ unescape cs)
unfolding escape
check_escapes-escape c cs b w = elim (Bool-cases (unreserved c)) [
  | inl u ↦ rw u (check_escapes-plain c cs u, unescape-plain c cs u)
  | inr u ↦ elim w [
    | inl v ↦ absurd cc
    | inr k ↦
        let high = unhex-hex_digit (c / 16) (omega arith) in
        let low = unhex-hex_digit (c % 16) (omega arith) in
        let whole : c / 16 * 16 + c % 16 ≡ c = omega arith in
        rw
          (
            u,
            check_escapes-escaped (hex_digit (c / 16)) (hex_digit (c % 16)) cs,
            good_escape-digits c b u k,
            unescape-escaped (hex_digit (c / 16)) (hex_digit (c % 16)) cs,
            high.1,
            low.1,
            whole,
          )
          (refl, refl)
  ]
]
