-- ===== src/Outbox/Cause.antt =====
-- internal/outbox/cause.go: why a row failed, as a class, a status and a code, and the text of it.
use lawang.Prelude.{
  decimal, ℕ, Bool, true, false, ◌&&◌, ◌||◌, not, [], ◌∷◌, ◌++◌, leb, ◌==◌, if◌then◌else◌, any,
  length, Text, text,
}

pub data Class : Type 0 where
  unclassified normalizer provider_unavailable sink_unavailable sink_rejected : Class
  sink_unauthorized sink_refused sink_unreadable vault_unavailable internal worker_lost : Class

unfoldable pub class_text : Class → Text
class_text unclassified = text "unclassified failure"
class_text normalizer = text "normalizer failed"
class_text provider_unavailable = text "provider unavailable"
class_text sink_unavailable = text "sink unavailable"
class_text sink_rejected = text "sink rejected the record"
class_text sink_unauthorized = text "sink refused the credential"
class_text sink_refused = text "sink refused the request"
class_text sink_unreadable = text "the sink's answer could not be read"
class_text vault_unavailable = text "vault unavailable"
class_text internal = text "internal error"
class_text worker_lost = text "no attempt on this row reported an outcome"

abbrev pub max_code_len : ℕ
max_code_len = 64

abbrev pub code_withheld : Text
code_withheld = text "withheld"

-- A status of 0 and an empty code are absent.
pub record Cause : Type 0 where
  pub class : Class
  pub status : ℕ
  pub code : Text

unfoldable pub new_cause : Class → Cause
new_cause c = record { class = c; status = 0; code = [] }

unfoldable pub with_status : Cause → ℕ → Cause
with_status c status = if leb 100 status && leb status 599 then record c { status = status } else c

unfoldable pub not_code_char : ℕ → Bool
not_code_char r = not (
    (leb b'a' r && leb r b'z')
    || ((leb b'A' r && leb r b'Z')
        || ((leb b'0' r && leb r b'9') || (r == b'_' || (r == b'-' || r == b'.')))))

-- The runes of a code are tested byte by byte: no byte of a longer rune is a code character.
unfoldable pub with_code : Cause → Text → Cause
with_code c [] = c
with_code c (x ∷ code) =
    if leb (length (x ∷ code)) max_code_len && not (any not_code_char (x ∷ code))
    then record c { code = x ∷ code }
    else record c { code = code_withheld }

is_empty : Text → Bool
is_empty [] = true
is_empty (x ∷ s) = false

unfoldable pub cause_string : Cause → Text
unfolding class_text is_empty decimal
cause_string c =
    if not (c.status == 0) && not (is_empty c.code)
    then class_text c.class
      ++ (text " (status " ++ (decimal c.status ++ (text ", code " ++ (c.code ++ text ")"))))
    else if not (c.status == 0)
    then class_text c.class ++ (text " (status " ++ (decimal c.status ++ text ")"))
    else if not (is_empty c.code)
    then class_text c.class ++ (text " (code " ++ (c.code ++ text ")"))
    else class_text c.class
