-- ===== src/Pipeline/Mask.antt =====
-- internal/pipeline/mask.go: which stretches of a text are secrets, and their replacement by tokens.
-- The matches of the three regular expressions are parameters: for a text, the start and the end
-- of each match, in order.
pub mod Checks
pub mod Apart
pub mod Tokens
pub mod Woven
pub mod Values
mod Tests
use lawang.Prelude.{
  ℕ, ◌+◌, ◌-◌, zero, suc, Bool, true, false, ◌&&◌, ◌||◌, not, List, [], ◌∷◌, ◌++◌, Option, none,
  some, leb, ltb, if◌then◌else◌, any, length, take, drop, Text, text_eq, rune_tail, Result, ok, err,
}
use lawang.Pipeline.Mask.Checks.{bounded_by, valid_iban, valid_phone}

pub data SecretKind : Type 0 where
  email phone iban : SecretKind

pub record FoundSecret : Type 0 where
  pub kind : SecretKind
  pub value : Text

pub record Span : Type 0 where
  pub start : ℕ
  pub end : ℕ
  pub secret : FoundSecret

pub record TextScan : Type 0 where
  pub text : Text
  pub spans : List Span

-- The errors of the masker. `no_token` names the kind of the value that has no token.
pub data MaskError : Type 0 where
  no_token : SecretKind → Text → MaskError
  masked_too_long : Text → MaskError

abbrev pub max_secret_bytes : ℕ
max_secret_bytes = 512

-- `text[start:end]`.
abbrev pub slice : Text → ℕ → ℕ → Text
slice s start end = take (end - start) (drop start s)

-- The tests that a match passes to be a span.
unfoldable pub accepts : Text → (Text → Bool) → Bool → ℕ → ℕ → Bool
accepts s ok_value bounded start end =
    leb (length (slice s start end)) max_secret_bytes
    && ((not bounded || bounded_by s start end) && ok_value (slice s start end))

-- appendMatches, without the spans that it appends to. A nil `ok` is the test that is always true.
unfoldable pub append_matches : Text → List (ℕ × ℕ) → SecretKind → (Text → Bool) → Bool → List Span
append_matches s [] kind ok_value bounded = []
append_matches s ((start, end) ∷ ms) kind ok_value bounded =
    let rest = append_matches s ms kind ok_value bounded in
    if accepts s ok_value bounded start end
    then record {
      start = start;
      end = end;
      secret = record { kind = kind; value = slice s start end };
    }
      ∷ rest
    else rest

-- sort.SliceStable by `start`.
unfoldable pub insert_start : Span → List Span → List Span
insert_start x [] = x ∷ []
insert_start x (y ∷ ys) =
    let later = y ∷ insert_start x ys in if ltb y.start x.start then later else x ∷ y ∷ ys

unfoldable pub sort_start : List Span → List Span
sort_start [] = []
sort_start (x ∷ xs) = insert_start x (sort_start xs)

-- The loop that drops a span which begins before `end`, the end of the last span kept.
unfoldable pub keep_apart : ℕ → List Span → List Span
keep_apart end [] = []
keep_apart end (s ∷ ss) =
    let rest = keep_apart (if ltb s.start end then end else s.end) ss in
    if ltb s.start end then rest else s ∷ rest

-- Every match that passes its tests, in the order they are appended.
unfoldable pub candidates :
    (Text → List (ℕ × ℕ)) → (Text → List (ℕ × ℕ)) → (Text → List (ℕ × ℕ)) → Text → List Span
candidates email_re iban_re phone_re s =
    append_matches s (email_re s) email (λ _. true) false
    ++ (append_matches s (iban_re s) iban valid_iban true
        ++ append_matches s (phone_re s) phone valid_phone true)

unfoldable pub find_secrets :
    (Text → List (ℕ × ℕ)) → (Text → List (ℕ × ℕ)) → (Text → List (ℕ × ℕ)) → Text → TextScan
find_secrets email_re iban_re phone_re s = record {
  text = s;
  spans = keep_apart 0 (sort_start (candidates email_re iban_re phone_re s));
}

unfoldable pub kind_eq : SecretKind → SecretKind → Bool
kind_eq email email = true
kind_eq phone phone = true
kind_eq iban iban = true
kind_eq _ _ = false

unfoldable pub secret_eq : FoundSecret → FoundSecret → Bool
secret_eq a b = kind_eq a.kind b.kind && text_eq a.value b.value

-- The loop of secrets: `seen` are the secrets already given out.
unfoldable pub secrets_from : List FoundSecret → List Span → List FoundSecret
secrets_from seen [] = []
secrets_from seen (s ∷ ss) =
    let dup = any (secret_eq s.secret) seen in
    let rest = secrets_from (if dup then seen else s.secret ∷ seen) ss in
    if dup then rest else s.secret ∷ rest

unfoldable pub secrets : TextScan → List FoundSecret
secrets scan = secrets_from [] scan.spans

-- `tokens[secret]`, where an empty token is a missing one.
abbrev pub present : Option Text → Option Text
present none = none
present (some []) = none
present (some (b ∷ bs)) = some (b ∷ bs)

unfoldable pub token_for : (FoundSecret → Option Text) → FoundSecret → Option Text
token_for tokens s = present (tokens s)

-- utf8.RuneCountInString: a byte that begins no rune counts as one. `copy` bytes of the current
-- rune are still to be passed.
unfoldable pub rune_count_from : ℕ → Text → ℕ
rune_count_from copy [] = 0
rune_count_from (suc copy) (b ∷ bs) = rune_count_from copy bs
rune_count_from zero (b ∷ bs) = elim (rune_tail b bs) [
  | none ↦ suc (rune_count_from 0 bs)
  | some need ↦ suc (rune_count_from need bs)
]

unfoldable pub rune_count : Text → ℕ
rune_count s = rune_count_from 0 s

-- The loop of apply, from the byte `at` on.
unfoldable pub replace_from :
    Text → (FoundSecret → Option Text) → Text → ℕ → List Span → Result MaskError Text
replace_from field tokens s at [] = ok (drop at s)
replace_from field tokens s at (sp ∷ sps) = elim (token_for tokens sp.secret) [
  | none ↦ err (no_token sp.secret.kind field)
  | some token ↦ elim (replace_from field tokens s sp.end sps) [
    | err e ↦ err e
    | ok rest ↦ ok (slice s at sp.start ++ (token ++ rest))
  ]
]

unfoldable pub fit : Text → ℕ → Text → Result MaskError Text
fit field max_chars out =
    if ltb max_chars (rune_count out) then err (masked_too_long field) else ok out

-- A text without spans is returned as it is, whatever its length.
unfoldable pub apply : TextScan → Text → (FoundSecret → Option Text) → ℕ → Result MaskError Text
apply scan field tokens max_chars = elim (scan.spans) [
  | [] ↦ ok scan.text
  | sp ∷ sps ↦ elim (replace_from field tokens scan.text 0 (sp ∷ sps)) [
    | err e ↦ err e
    | ok out ↦ fit field max_chars out
  ]
]
