-- ===== src/Prelude/Bytes.antt =====
-- Go strings and byte slices as lists of bytes: equality, byte order, UTF-8 validity.
use Prim.Native.Nat.{◌+◌, ◌/◌, ◌%◌, ℕ, zero, suc}
use Prim.Native.Char.{code}
use Prim.Native.String.{String}
use mathlib.Core.Path.{◌≡◌, refl, sym, subst, ◌∙◌}
use mathlib.Core.Logic.{◌↔◌, ◌⊎◌, inl, inr}
use mathlib.Core.Bool.{Bool, true, false, ◌&&◌, ◌||◌}
use mathlib.Core.Option.{Option, none, some}
use mathlib.Core.List.{◌++◌, List, [], ◌∷◌}
use native.Mathlib.Omega.{arith}
use lawang.Prelude.Tests.{ltb, leb, ◌==◌, if◌then◌else◌}

-- A Go string, or a `[]byte`: its bytes.
abbrev pub Text : Type 0
Text = List ℕ

-- The bytes of a literal of the source, which is ASCII.
abbrev pub text : String → Text
text String.[] = []
text (String.◌∷◌ c s) = code c ∷ text s

unfoldable pub text_eq : Text → Text → Bool
text_eq [] [] = true
text_eq [] (y ∷ ys) = false
text_eq (x ∷ xs) [] = false
text_eq (x ∷ xs) (y ∷ ys) = x == y && text_eq xs ys

pub text_eq_self : (a : Text) → text_eq a a ≡ true
unfolding text_eq
text_eq_self [] = refl
text_eq_self (x ∷ xs) = ground (arith, text_eq_self xs)

pub text_eq→eq : (a b : Text) → text_eq a b ≡ true → a ≡ b
unfolding text_eq
text_eq→eq [] [] h = refl
text_eq→eq [] (y ∷ ys) h = cc
text_eq→eq (x ∷ xs) [] h = cc
text_eq→eq (x ∷ xs) (y ∷ ys) h = ground (arith, text_eq→eq xs ys)

pub text_eq_iff : (a b : Text) → (text_eq a b ≡ true) ↔ (a ≡ b)
text_eq_iff a b = (text_eq→eq a b, λ e. rw e (text_eq_self b))

true≢false : true ≡ false → ⊥
true≢false q = cc

pub text_eq-ne : (a b : Text) → text_eq a b ≡ false → a ≡ b → ⊥
text_eq-ne a b h e =
    let k : text_eq a b ≡ true = subst (λ z. text_eq a z ≡ true) e (text_eq_self a) in
    true≢false (sym k ∙ h)

-- `strings.Compare`, and `bytes.Compare`: the order of the first bytes that differ, then length.
pub data Order : Type 0 where
  less same more : Order

pub Order-cases : (o : Order) → (o ≡ less) ⊎ ((o ≡ same) ⊎ (o ≡ more))
Order-cases less = inl refl
Order-cases same = inr (inl refl)
Order-cases more = inr (inr refl)

unfoldable pub compare_text : Text → Text → Order
compare_text [] [] = same
compare_text [] (y ∷ ys) = less
compare_text (x ∷ xs) [] = more
compare_text (x ∷ xs) (y ∷ ys) =
    let rest = compare_text xs ys in if ltb x y then less else if ltb y x then more else rest

-- `strings.IndexByte(s, c) >= 0`.
unfoldable pub has_byte : ℕ → Text → Bool
has_byte c [] = false
has_byte c (x ∷ xs) = x == c || has_byte c xs

-- What a first byte of `unicode/utf8` asks of the bytes behind it: how many, and the range of the
-- next one. `none` is a byte that begins nothing.
utf8_lead : ℕ → Option (ℕ × ℕ × ℕ)
utf8_lead b =
    if ltb b 0x80
    then some (0, 0x80, 0xBF)
    else if ltb b 0xC2
    then none
    else if ltb b 0xE0
    then some (1, 0x80, 0xBF)
    else if b == 0xE0
    then some (2, 0xA0, 0xBF)
    else if b == 0xED
    then some (2, 0x80, 0x9F)
    else if ltb b 0xF0
    then some (2, 0x80, 0xBF)
    else if b == 0xF0
    then some (3, 0x90, 0xBF)
    else if ltb b 0xF4
    then some (3, 0x80, 0xBF)
    else if b == 0xF4
    then some (3, 0x80, 0x8F)
    else none

-- `need` continuation bytes are due, and the next one lies in `lo` to `hi`.
unfoldable pub valid_utf8_from : ℕ → ℕ → ℕ → Text → Bool
unfolding utf8_lead
valid_utf8_from zero lo hi [] = true
valid_utf8_from (suc need) lo hi [] = false
valid_utf8_from (suc need) lo hi (b ∷ bs) =
    (leb lo b && leb b hi) && valid_utf8_from need 0x80 0xBF bs
valid_utf8_from zero lo hi (b ∷ bs) = elim (utf8_lead b) [
  | none ↦ false
  | some (need, lo', hi') ↦ valid_utf8_from need lo' hi' bs
]

-- `utf8.ValidString`.
unfoldable pub valid_utf8 : Text → Bool
unfolding valid_utf8_from
valid_utf8 s = valid_utf8_from 0 0x80 0xBF s

-- The bytes behind a first byte that complete a rune: how many, or `none`.
unfoldable pub continues : ℕ → ℕ → ℕ → Text → Bool
continues zero lo hi bs = true
continues (suc need) lo hi [] = false
continues (suc need) lo hi (b ∷ bs) = (leb lo b && leb b hi) && continues need 0x80 0xBF bs

-- How many bytes stand behind the first one in the rune that `b ∷ bs` begins with, or `none` where
-- it begins with no rune.
unfoldable pub rune_tail : ℕ → Text → Option ℕ
unfolding utf8_lead continues
rune_tail b bs = elim (utf8_lead b) [
  | none ↦ none
  | some (need, lo, hi) ↦ if continues need lo hi bs then some need else none
]

abbrev replacement : Text
replacement = 0xEF ∷ 0xBF ∷ 0xBD ∷ []

-- `strings.ToValidUTF8(s, "\uFFFD")`: each run of bytes that begin no rune becomes one U+FFFD.
-- `copy` bytes of the current rune are still to be written, `bad` says that a run is being read.
unfoldable pub to_valid_utf8_from : ℕ → Bool → Text → Text
unfolding rune_tail
to_valid_utf8_from copy bad [] = []
to_valid_utf8_from (suc copy) bad (b ∷ bs) = b ∷ to_valid_utf8_from copy false bs
to_valid_utf8_from zero bad (b ∷ bs) = elim (rune_tail b bs) [
  | some need ↦ b ∷ to_valid_utf8_from need false bs
  | none ↦
      if bad
      then to_valid_utf8_from zero true bs
      else replacement ++ to_valid_utf8_from zero true bs
]

unfoldable pub to_valid_utf8 : Text → Text
unfolding to_valid_utf8_from
to_valid_utf8 s = to_valid_utf8_from 0 false s

-- `strings.ReplaceAll(s, "\x00", "\uFFFD")`.
unfoldable pub replace_nul : Text → Text
replace_nul [] = []
replace_nul (b ∷ bs) = (if b == 0 then replacement else b ∷ []) ++ replace_nul bs

-- `utf8.RuneStart`.
abbrev pub rune_start : ℕ → Bool
rune_start b = ltb b 0x80 || leb 0xC0 b

decimal_from : ℕ → ℕ → Text
decimal_from zero n = []
decimal_from (suc fuel) n =
    let more = decimal_from fuel (n / 10) ++ (b'0' + n % 10) ∷ [] in
    if ltb n 10 then (b'0' + n) ∷ [] else more

-- `%d`. A number has fewer digits than its successor.
unfoldable pub decimal : ℕ → Text
unfolding decimal_from
decimal n = decimal_from (n + 1) n
