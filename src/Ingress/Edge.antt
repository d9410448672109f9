-- ===== src/Ingress/Edge.antt =====
-- serveHTTP of internal/ingress/ingress.go, over a hub.
use lawang.Prelude.{ℕ, List, Option, none, some, if◌then◌else◌, ◌==◌, Text, Result, ok, err}
use lawang.Provider.{HttpRequest, Request, Source, Entry, lookup}
use lawang.Ingress.{
  Verdict, status_of, verdict_text, Response, respond, not_found, internal_error, try_again,
  read_body, write_reply, public_url, canonical_path, line,
}

-- How the hub fails: the sender is gone, the request's deadline has passed, or anything else.
pub data AcceptFailure : Type 0 where
  sender_left deadline_exceeded accept_failed : AcceptFailure

-- What the edge is built of. `hub` is the hub's Accept, which keeps what it knows in an `S`.
pub record Edge (S : Type 0) : Type 0 where
  pub registry : List Entry
  pub hub : Entry → Request → S → Result AcceptFailure (Verdict × S)
  pub max_body : ℕ
  pub public_base_url : Text
  pub parse_media_type : Text → Option (Text × List (Text × Text))
  pub clean_path : Text → Text

module _ {S : Type 0} (edge : Edge S) where
  -- The answer to what the hub returned, and none to a sender that is gone.
  unfoldable pub answer : Result AcceptFailure (Verdict × S) → S → Option Response × S
  answer (err sender_left) s = (none, s)
  answer (err deadline_exceeded) s = (some try_again, s)
  answer (err accept_failed) s = (some internal_error, s)
  answer (ok (v, t)) s =
      if status_of v == 0
      then (some internal_error, t)
      else (some (respond (status_of v) (line (verdict_text v))), t)

  unfoldable pub request_of : HttpRequest → Text → Request
  request_of r body = record {
    method = r.method;
    url = public_url edge.public_base_url r;
    header = r.header;
    body = body;
  }

  unfoldable pub serve_source : Entry → Source → HttpRequest → S → Option Response × S
  serve_source e source r s = elim (read_body edge.max_body r) [
    | err refusal ↦ (some refusal, s)
    | ok body ↦ elim (source.handshake r body) [
      | some reply ↦ (some (write_reply edge.parse_media_type reply), s)
      | none ↦ answer (edge.hub e (request_of r body) s) s
    ]
  ]

  unfoldable pub serve_entry : Entry → HttpRequest → S → Option Response × S
  serve_entry e r s = elim e.source [
    | none ↦ (some not_found, s)
    | some source ↦ serve_source e source r s
  ]

  unfoldable pub serve_http : HttpRequest → S → Option Response × S
  serve_http r s = elim (lookup r.provider edge.registry) [
    | none ↦ (some not_found, s)
    | some e ↦ serve_entry e r s
  ]

  -- canonicalPathOnly, in front of the webhook route. `escaped` is the path as it was sent.
  unfoldable pub serve_canonical : Text → HttpRequest → S → Option Response × S
  serve_canonical escaped r s =
      if canonical_path edge.clean_path escaped then serve_http r s else (some not_found, s)
