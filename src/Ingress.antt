-- ===== src/Ingress.antt =====
-- internal/ingress/ingress.go: how a request is answered. The hub is a parameter, and
-- net/http's router and the parser of media types are parameters too. Logs have no part in the model.
pub mod Edge
pub mod Answers
pub mod Serving
mod Tests
use lawang.Prelude.{
  ℕ, ◌+◌, Bool, true, false, ◌&&◌, ◌||◌, not, List, [], ◌∷◌, ◌++◌, Option, none, some, any, leb,
  ltb, ◌==◌, if◌then◌else◌, length, Text, text, text_eq, map, Result, ok, err,
}
use lawang.Provider.{HttpRequest, Reply}

-- The zero value, which is no verdict, is `no_verdict`.
pub data Verdict : Type 0 where
  no_verdict stored duplicate parked unverified : Verdict

unfoldable pub status_of : Verdict → ℕ
status_of stored = 202
status_of duplicate = 200
status_of parked = 200
status_of unverified = 401
status_of no_verdict = 0

abbrev pub verdict_text : Verdict → Text
verdict_text stored = text "stored"
verdict_text duplicate = text "duplicate"
verdict_text parked = text "parked"
verdict_text unverified = text "unverified"
verdict_text no_verdict = text "invalid"

-- What is written for a request.
pub record Response : Type 0 where
  pub status : ℕ
  pub content_type : Text
  pub retry_after : Option ℕ
  pub body : Text

abbrev pub retry_after_seconds : ℕ
retry_after_seconds = 5

abbrev pub max_reply_body : ℕ
max_reply_body = 8192

abbrev pub max_content_type : ℕ
max_content_type = 64

abbrev pub content_type_text : Text
content_type_text = text "text/plain; charset=utf-8"

abbrev pub line : Text → Text
line s = s ++ 10 ∷ []

unfoldable pub respond : ℕ → Text → Response
respond status msg = record {
  status = status;
  content_type = content_type_text;
  retry_after = none;
  body = msg;
}

abbrev pub not_found_body : Text
not_found_body = line (text "no such provider")

unfoldable pub not_found : Response
not_found = respond 404 not_found_body

unfoldable pub internal_error : Response
internal_error = respond 500 (line (text "error"))

unfoldable pub too_large : Response
too_large = respond 413 (line (text "body too large"))

unfoldable pub unreadable_body : Response
unreadable_body = respond 400 (line (text "body could not be read"))

unfoldable pub try_again : Response
try_again = record (respond 503 (line (text "try again"))) {
  retry_after = some retry_after_seconds;
}

-- `http.MaxBytesReader` fails once the stream goes on behind the limit; the error of the
-- stream itself comes only where the limit was kept.
unfoldable pub read_stream : ℕ → HttpRequest → Result Response Text
read_stream max_body r =
    if ltb max_body (length r.stream)
    then err too_large
    else if r.fails
    then err unreadable_body
    else ok r.stream

-- readBody.
unfoldable pub read_body : ℕ → HttpRequest → Result Response Text
read_body max_body r = elim r.content_length [
  | none ↦ read_stream max_body r
  | some n ↦ if ltb max_body n then err too_large else read_stream max_body r
]

unfoldable pub handshake_status : ℕ → Bool
handshake_status status =
    if status == 401 || status == 403
    then false
    else if leb 200 status && ltb status 300
    then true
    else leb 400 status && ltb status 500

unfoldable pub lower : ℕ → ℕ
lower c = if leb b'A' c && leb c b'Z' then c + 32 else c

-- `strings.EqualFold(value, "utf-8")`: none of its letters folds with one outside ASCII.
abbrev pub is_utf_8 : Text → Bool
is_utf_8 value = text_eq (map lower value) (text "utf-8")

abbrev pub is_handshake_media_type : Text → Bool
is_handshake_media_type t = text_eq t (text "application/json") || text_eq t (text "text/plain")

-- `parse` is mime.ParseMediaType: the media type and its parameters.
unfoldable pub valid_handshake_content_type :
    (Text → Option (Text × List (Text × Text))) → Text → Bool
valid_handshake_content_type parse s =
    if ltb max_content_type (length s) then false else elim (parse s) [
      | none ↦ false
      | some (media_type, params) ↦
          is_handshake_media_type media_type
          && not (any (λ p. not (text_eq p.0 (text "charset") && is_utf_8 p.1)) params)
    ]

abbrev pub or_text : Text → Text → Text
or_text [] otherwise = otherwise
or_text (b ∷ bs) otherwise = b ∷ bs

abbrev pub or_ok : ℕ → ℕ
or_ok status = if status == 0 then 200 else status

-- writeReply.
unfoldable pub write_reply : (Text → Option (Text × List (Text × Text))) → Reply → Response
write_reply parse reply =
    if not (handshake_status (or_ok reply.status))
    then internal_error
    else if ltb max_reply_body (length reply.body)
    then internal_error
    else if not (valid_handshake_content_type parse (or_text reply.content_type content_type_text))
    then internal_error
    else record {
      status = or_ok reply.status;
      content_type = or_text reply.content_type content_type_text;
      retry_after = none;
      body = reply.body;
    }

unfoldable pub public_url : Text → HttpRequest → Text
public_url [] r = []
public_url (b ∷ base) r = (b ∷ base) ++ r.request_uri

unfoldable pub ends_in_slash : Text → Bool
ends_in_slash [] = false
ends_in_slash (c ∷ []) = c == b'/'
ends_in_slash (c ∷ d ∷ cs) = ends_in_slash (d ∷ cs)

-- canonicalPath. `clean` is path.Clean.
unfoldable pub canonical_path : (Text → Text) → Text → Bool
canonical_path clean [] = false
canonical_path clean (c ∷ cs) =
    (c == b'/')
    && text_eq
        (if ends_in_slash (c ∷ cs) && not (text_eq (clean (c ∷ cs)) (text "/"))
          then clean (c ∷ cs) ++ text "/"
          else clean (c ∷ cs))
        (c ∷ cs)
