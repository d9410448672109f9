-- ===== src/Record/Scope.antt =====
-- internal/record/scope.go: scope ids, `provider:kind:container`, where the bytes of the container's
-- id that need it are percent-encoded.
pub mod Escapes
pub mod Canonical
pub mod RoundTrip
use lawang.Prelude.{
  ℕ, ◌+◌, ◌-◌, ◌*◌, ◌/◌, ◌%◌, Bool, true, false, ◌&&◌, ◌||◌, not, [], ◌∷◌, ◌++◌, Option, none, some,
  leb, ltb, ◌==◌, if◌then◌else◌, length, Text, Result, ok, err,
}
use lawang.Record.Names.{valid_provider_key, valid_name, max_kind}

abbrev pub max_scope_id : ℕ
max_scope_id = 512

pub record Scope : Type 0 where
  pub provider : Text
  pub container_kind : Text
  pub container_id : Text

pub data ScopeError : Type 0 where
  bad_provider_key bad_kind no_container bad_character too_long : ScopeError

unfoldable pub unreserved : ℕ → Bool
unreserved c =
    ((leb b'A' c && leb c b'Z') || (leb b'a' c && leb c b'z'))
    || ((leb b'0' c && leb c b'9') || ((c == b'.' || c == b'_') || (c == b'~' || c == b'-')))

unfoldable pub control : ℕ → Bool
control c = ltb c 0x20 || c == 0x7F

unfoldable pub is_upper_hex : ℕ → Bool
is_upper_hex c = (leb b'0' c && leb c b'9') || (leb b'A' c && leb c b'F')

unfoldable pub unhex : ℕ → ℕ
unhex c = if leb b'A' c then c - b'A' + 10 else c - b'0'

-- upperHex[n].
unfoldable pub hex_digit : ℕ → ℕ
hex_digit n = if ltb n 10 then b'0' + n else b'A' + (n - 10)

-- What one byte of the container's id is written as.
unfoldable pub escape : ℕ → Text
escape c = if unreserved c then c ∷ [] else b'%' ∷ hex_digit (c / 16) ∷ hex_digit (c % 16) ∷ []

-- The loop of ScopeID, where `written` bytes stand before.
unfoldable pub escape_all : ℕ → Text → Result ScopeError Text
escape_all written [] = ok []
escape_all written (c ∷ cs) =
    if not (unreserved c) && control c
    then err bad_character
    else if ltb max_scope_id (written + length (escape c))
    then err too_long
    else elim (escape_all (written + length (escape c)) cs) [
      | err e ↦ err e
      | ok rest ↦ ok (escape c ++ rest)
    ]

abbrev pub is_blank : Text → Bool
is_blank [] = true
is_blank (b ∷ bs) = false

-- The part before the container's id.
abbrev pub scope_prefix : Text → Text → Text
scope_prefix provider kind = provider ++ (b':' ∷ (kind ++ b':' ∷ []))

unfoldable pub scope_id : Text → Text → Text → Result ScopeError Text
scope_id provider kind container =
    if not (valid_provider_key provider)
    then err bad_provider_key
    else if not (valid_name max_kind false kind)
    then err bad_kind
    else if is_blank container
    then err no_container
    else elim (escape_all (length (scope_prefix provider kind)) container) [
      | err e ↦ err e
      | ok rest ↦ ok (scope_prefix provider kind ++ rest)
    ]

-- strings.IndexByte(s, ':'), as the text before and behind the colon.
unfoldable pub cut_colon : Text → Option (Text × Text)
cut_colon [] = none
cut_colon (c ∷ cs) =
    let rest = cut_colon cs in
    if c == b':'
    then some ([], cs)
    else elim rest [ none ↦ none | some (before, behind) ↦ some (c ∷ before, behind) ]

-- An escape of checkScopeID: two capital hexadecimal digits, of a byte that is written so.
unfoldable pub good_escape : ℕ → ℕ → Bool
good_escape h l =
    (is_upper_hex h && is_upper_hex l)
    && not (unreserved (unhex h * 16 + unhex l) || control (unhex h * 16 + unhex l))

unfoldable pub check_escapes : Text → Bool
check_escapes [] = true
check_escapes (c ∷ []) = unreserved c
check_escapes (c ∷ d ∷ []) = unreserved c && check_escapes (d ∷ [])
check_escapes (c ∷ h ∷ l ∷ cs) = elim (unreserved c) [
  | true ↦ check_escapes (h ∷ l ∷ cs)
  | false ↦ (c == b'%' && good_escape h l) && check_escapes cs
]

-- The loop of ParseScopeID over an id that was checked. `unhex(h)<<4 | unhex(l)` of two digits is
-- their number.
unfoldable pub unescape : Text → Text
unescape [] = []
unescape (c ∷ []) = c ∷ []
unescape (c ∷ d ∷ []) = c ∷ unescape (d ∷ [])
unescape (c ∷ h ∷ l ∷ cs) = elim (c == b'%') [
  | true ↦ (unhex h * 16 + unhex l) ∷ unescape cs
  | false ↦ c ∷ unescape (h ∷ l ∷ cs)
]

-- checkScopeID, as the three parts that it finds.
unfoldable pub check_container : Text → Text → Text → Result ScopeError (Text × Text × Text)
check_container provider kind enc =
    if is_blank enc
    then err no_container
    else if check_escapes enc
    then ok (provider, kind, enc)
    else err bad_character

unfoldable pub check_kind : Text → Option (Text × Text) → Result ScopeError (Text × Text × Text)
check_kind provider none = err bad_kind
check_kind provider (some (kind, enc)) =
    if valid_name max_kind false kind then check_container provider kind enc else err bad_kind

unfoldable pub check_provider : Option (Text × Text) → Result ScopeError (Text × Text × Text)
check_provider none = err bad_provider_key
check_provider (some (provider, rest)) =
    if valid_provider_key provider
    then check_kind provider (cut_colon rest)
    else err bad_provider_key

unfoldable pub check_scope_id : Text → Result ScopeError (Text × Text × Text)
check_scope_id s =
    if ltb max_scope_id (length s) then err too_long else check_provider (cut_colon s)

unfoldable pub parse_scope_id : Text → Result ScopeError Scope
parse_scope_id s = elim (check_scope_id s) [
  | err e ↦ err e
  | ok (provider, kind, enc) ↦
      ok (record { provider = provider; container_kind = kind; container_id = unescape enc })
]
