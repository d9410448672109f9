-- ===== src/Sink/Http/Replies.antt =====
-- internal/sink/http.go: what the answer to one request means. The JSON decoder is a parameter.
use lawang.Prelude.{
  ℕ, Bool, true, false, ◌&&◌, ◌||◌, not, List, [], ◌∷◌, map, Option, none, some, leb, ltb, ◌==◌,
  if◌then◌else◌, any, length, Text, text, text_eq, Result, ok, err,
}
use lawang.Sink.{Rejection, Action, action_retry, action_halt}
use lawang.Outbox.Cause.{
  Cause, new_cause, with_code, with_status, internal, sink_unavailable, sink_rejected,
  sink_unauthorized, sink_refused, sink_unreadable,
}

abbrev pub detail_unreadable_reply : Text
detail_unreadable_reply = text "the sink's answer could not be read"

abbrev pub detail_no_request : Text
detail_no_request = text "the request could not be built"

abbrev pub max_response_bytes : ℕ
max_response_bytes = 65_536

abbrev pub member_rejected : Text
member_rejected = text "rejected"

pub record Fault : Type 0 where
  pub action : Action
  pub cause : Cause
  pub detail : Text

-- encoding/json and bytes.TrimSpace. `members` is an answer as an object: its members with their raw
-- values, or `none` where it is no object or is null. `entries` is a raw value as a list of objects with
-- an id and a code. `code` is the member `code` of an answer.
pub record Json : Type 0 where
  pub trim_space : Text → Text
  pub members : Text → Option (List (Text × Text))
  pub entries : Text → Option (List (Text × Text))
  pub code : Text → Option Text

-- The outcome of one request: it could not be built, the transport failed with a detail, or an answer
-- came with a status, a body cut to one byte over the limit, and whether reading it failed.
pub data Reply : Type 0 where
  not_built : Reply
  not_sent : Text → Reply
  replied : ℕ → Text → Bool → Reply

unfoldable pub unreadable_fault : ℕ → Fault
unreadable_fault status = record {
  action = action_retry;
  cause = with_status (new_cause sink_unreadable) status;
  detail = detail_unreadable_reply;
}

-- A status that is no success: a fault, or a refusal of the whole request.
pub data StatusVerdict : Type 0 where
  faults : Fault → StatusVerdict
  refuses : Cause → StatusVerdict

unfoldable pub status_of : ℕ → Text → StatusVerdict
status_of status code =
    let unavailable : Fault = record {
      action = action_retry;
      cause = with_code (with_status (new_cause sink_unavailable) status) code;
      detail = [];
    } in
    if status == 401 || status == 403
    then faults (record {
      action = action_halt;
      cause = with_code (with_status (new_cause sink_unauthorized) status) code;
      detail = [];
    })
    else if status == 408 || status == 429
    then faults unavailable
    else if status == 422
    then refuses (with_code (with_status (new_cause sink_rejected) status) code)
    else if leb 400 status && leb status 499
    then faults (record {
      action = action_halt;
      cause = with_code (with_status (new_cause sink_refused) status) code;
      detail = [];
    })
    else faults unavailable

unfoldable pub refusals : List Text → Cause → List Rejection
refusals ids cause = map (λ id. record { id = id; cause = cause; detail = [] }) ids

abbrev pub code_or_empty : Option Text → Text
code_or_empty none = []
code_or_empty (some c) = c

unfoldable pub code_from : Json → Text → Bool → Text
code_from json answer failed =
    if failed || length (json.trim_space answer) == 0 then [] else code_or_empty (json.code answer)

unfoldable pub member : Text → List (Text × Text) → Option Text
member name [] = none
member name ((k, v) ∷ ms) = let rest = member name ms in if text_eq k name then some v else rest

abbrev pub is_null : Text → Bool
is_null s = text_eq s (text "null")

unfoldable pub is_among : Text → List Text → Bool
is_among id ids = any (text_eq id) ids

-- The loop over the entries of an answer.
unfoldable pub entries_from :
    ℕ → List Text → List Text → List (Text × Text) → Result Fault (List Rejection)
entries_from status ids seen [] = ok []
entries_from status ids seen ((id, code) ∷ es) = elim (not (is_among id ids) || is_among id seen) [
  | true ↦ err (unreadable_fault status)
  | false ↦ elim (entries_from status ids (id ∷ seen) es) [
    | err f ↦ err f
    | ok rest ↦ ok (
        record {
          id = id;
          cause = with_code (with_status (new_cause sink_rejected) status) code;
          detail = [];
        }
        ∷ rest)
  ]
]

unfoldable pub entries_of :
    ℕ → List Text → Option (List (Text × Text)) → Result Fault (List Rejection)
entries_of status ids none = err (unreadable_fault status)
entries_of status ids (some es) = entries_from status ids [] es

unfoldable pub rejected_member :
    Json → ℕ → List Text → List (Text × Text) → Option Text → Result Fault (List Rejection)
rejected_member json status ids [] none = ok []
rejected_member json status ids (m ∷ ms) none = err (unreadable_fault status)
rejected_member json status ids ms (some raw) =
    if is_null (json.trim_space raw)
    then err (unreadable_fault status)
    else entries_of status ids (json.entries raw)

unfoldable pub rejections_of :
    Json → ℕ → List Text → Option (List (Text × Text)) → Result Fault (List Rejection)
rejections_of json status ids none = err (unreadable_fault status)
rejections_of json status ids (some ms) =
    rejected_member json status ids ms (member member_rejected ms)

unfoldable pub rejections_from : Json → Text → List Text → ℕ → Result Fault (List Rejection)
rejections_from json answer ids status =
    if length (json.trim_space answer) == 0
    then ok []
    else rejections_of json status ids (json.members (json.trim_space answer))

unfoldable pub on_status : StatusVerdict → List Text → Result Fault (List Rejection)
on_status (faults f) ids = err f
on_status (refuses cause) ids = ok (refusals ids cause)

-- send, from the outcome of its request on.
unfoldable pub on_reply : Json → List Text → Reply → Result Fault (List Rejection)
on_reply json ids not_built =
    err (record { action = action_retry; cause = new_cause internal; detail = detail_no_request })
on_reply json ids (not_sent detail) =
    err (record { action = action_retry; cause = new_cause sink_unavailable; detail = detail })
on_reply json ids (replied status answer failed) =
    if ltb status 200 || ltb 299 status
    then on_status (status_of status (code_from json answer failed)) ids
    else if failed || ltb max_response_bytes (length answer)
    then err (unreadable_fault status)
    else rejections_from json answer ids status
