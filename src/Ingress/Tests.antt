-- ===== src/Ingress/Tests.antt =====
-- An edge over a hub that counts what it is asked and verifies nothing.
use lawang.Prelude.{
  ℕ, ◌+◌, ◌≡◌, refl, false, List, [], ◌∷◌, Option, none, some, Text, text, Result, ok, err,
}
use lawang.Pipeline.Ledger.Versions.{decimal_versions}
use lawang.Provider.{HttpRequest, Request, Source, Entry, answered, lookup}
use lawang.Ingress.{Verdict, unverified, Response, respond, line, not_found}
use lawang.Ingress.Edge.{Edge, AcceptFailure, request_of, serve_http}
use lawang.Ingress.Answers.{IsHarmless}
use lawang.Ingress.Serving.{only_the_hub_refuses, answers-IsHarmless}

abbrev source : Source
source = record {
  handshake = λ r body. none;
  delivery_keys = λ body header. none;
  verify = λ req secret. answered false;
}

abbrev clickup : Entry
clickup = record { key = text "clickup"; versions = decimal_versions; source = some source }

abbrev counting : Entry → Request → ℕ → Result AcceptFailure (Verdict × ℕ)
counting e req n = ok (unverified, n + 1)

abbrev edge : Edge ℕ
edge = record {
  registry = clickup ∷ [];
  hub = counting;
  max_body = 2;
  public_base_url = [];
  parse_media_type = λ s. none;
  clean_path = λ s. s;
}

abbrev post : Text → HttpRequest
post body = record {
  provider = text "clickup";
  method = text "POST";
  request_uri = text "/ingress/clickup";
  header = [];
  content_length = none;
  stream = body;
  fails = false;
}

refused_run :
    serve_http edge (post (text "{}")) 0 ≡ (some (respond 401 (line (text "unverified"))), 1)
unfolding serve_http lookup lawang.Prelude.text_eq lawang.Ingress.Edge.serve_entry
    lawang.Ingress.Edge.serve_source lawang.Ingress.read_body lawang.Ingress.read_stream
    lawang.Ingress.Edge.answer lawang.Ingress.status_of
refused_run = refl

too_large_run :
    serve_http edge (post (text "{ }")) 0 ≡ (some (respond 413 (line (text "body too large"))), 0)
unfolding serve_http lookup lawang.Prelude.text_eq lawang.Ingress.Edge.serve_entry
    lawang.Ingress.Edge.serve_source lawang.Ingress.read_body lawang.Ingress.read_stream respond
    lawang.Ingress.too_large
too_large_run = refl

status_run : (respond 401 (line (text "unverified"))).status ≡ 401
unfolding respond
status_run = refl

only_the_hub_refuses_example :
    (e : Entry) × (lookup (text "clickup") (clickup ∷ []) ≡ some e)
    × (counting e (request_of edge (post (text "{}")) (text "{}")) 0 ≡ ok (unverified, 1))
only_the_hub_refuses_example =
    only_the_hub_refuses edge (post (text "{}")) 0 1 (respond 401 (line (text "unverified")))
      refused_run status_run

answers-IsHarmless_example : IsHarmless (λ s. none) (respond 413 (line (text "body too large")))
answers-IsHarmless_example =
    answers-IsHarmless edge (post (text "{ }")) 0 0 (respond 413 (line (text "body too large")))
      too_large_run
