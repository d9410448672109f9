-- ===== src/Sink/Http.antt =====
-- internal/sink/http.go: the sink that posts batches of records to an endpoint. A delivery is split
-- into requests of a bounded size. The documents of the records, the JSON of an answer and the
-- transport are parameters; the bodies that were posted are written down in a log.
pub mod Replies
pub mod Batching
pub mod Accounts
pub mod Offers
pub mod Requests
pub mod Totals
mod Tests
use lawang.Prelude.{
  ℕ, ◌+◌, Bool, true, false, not, List, [], ◌∷◌, ◌++◌, map, Option, none, some, ltb, ◌==◌,
  if◌then◌else◌, length, Text, text, Result, ok, err,
}
use lawang.Tenancy
use lawang.Sink.{Rejection, Action, action_retry}
use lawang.Sink.Http.Replies.{Fault, Json, Reply, replied, on_reply}
use lawang.Outbox.Cause.{Cause, new_cause, with_code, internal, vault_unavailable}

abbrev pub detail_no_credential : Text
detail_no_credential = text "this tenant has no sink credential"

abbrev pub detail_invalid_record : Text
detail_invalid_record = text "the record does not pass the format"

abbrev pub detail_record_too_large : Text
detail_record_too_large = text "the record is larger than one request of this sink"

abbrev pub detail_wrong_tenant : Text
detail_wrong_tenant = text "the record was not sealed for this tenant"

abbrev pub code_record_too_large : Text
code_record_too_large = text "record_too_large"

abbrev pub code_invalid_record : Text
code_invalid_record = text "invalid_record"

abbrev pub code_wrong_tenant : Text
code_wrong_tenant = text "wrong_tenant"

abbrev pub body_prefix : Text
body_prefix = text "{\"v\":1,\"records\":["

abbrev pub body_suffix : Text
body_suffix = text "]}"

abbrev pub body_framing : ℕ
body_framing = length body_prefix + length body_suffix

-- A record as this sink reads it: its id, whether it is sealed for the tenant of the call, and its
-- JSON under the wire names, or `none` where it does not marshal.
pub record Offer : Type 0 where
  pub id : Text
  pub sealed : Bool
  pub encoded : Option Text

-- The documents of a batch: of each record its document, or its rejection.
pub data Marshalled : Type 0 where
  document : Text → Text → Marshalled
  rejected_here : Rejection → Marshalled

abbrev pub rejection : Text → Text → Text → Rejection
rejection id code detail = record {
  id = id;
  cause = with_code (new_cause internal) code;
  detail = detail;
}

-- rejectUnsealed, then json.Marshal, then the test of the size.
unfoldable pub marshal_one : ℕ → Offer → Marshalled
marshal_one max_bytes r =
    if not r.sealed
    then rejected_here (rejection r.id code_wrong_tenant detail_wrong_tenant)
    else elim (r.encoded) [
      | none ↦ rejected_here (rejection r.id code_invalid_record detail_invalid_record)
      | some doc ↦
          if ltb max_bytes (body_framing + length doc)
          then rejected_here (rejection r.id code_record_too_large detail_record_too_large)
          else document r.id doc
    ]

unfoldable pub marshal_all : ℕ → List Offer → List Marshalled
marshal_all max_bytes recs = map (marshal_one max_bytes) recs

unfoldable pub rejections_here : List Marshalled → List Rejection
rejections_here [] = []
rejections_here (document id doc ∷ ms) = rejections_here ms
rejections_here (rejected_here r ∷ ms) = r ∷ rejections_here ms

-- The documents with commas between them.
unfoldable pub join_documents : List Text → Text
join_documents [] = []
join_documents (d ∷ []) = d
join_documents (d ∷ e ∷ ds) = d ++ (b',' ∷ join_documents (e ∷ ds))

unfoldable pub body_of : List Text → Text
body_of chunk = body_prefix ++ (join_documents chunk ++ body_suffix)

-- The variables of the loop of Deliver: the request being gathered, what was refused, and the log
-- of the bodies posted with the ids that each was about, the last one first.
pub record Batch : Type 0 where
  pub chunk : List Text
  pub ids : List Text
  pub size : ℕ
  pub refused : List Rejection
  pub posted : List (Text × List Text)

pub record Failed : Type 0 where
  pub why : Fault
  pub posted : List (Text × List Text)

abbrev pub is_empty {ℓ} : {A : Type ℓ} → List A → Bool
is_empty [] = true
is_empty (x ∷ xs) = false

-- What a comma costs, where the request is not the first of its chunk.
abbrev pub comma : List Text → ℕ
comma [] = 0
comma (d ∷ ds) = 1

unfoldable pub append_document : Text → Text → ℕ → Batch → Batch
append_document id doc cost b = record b {
  chunk = b.chunk ++ doc ∷ [];
  ids = b.ids ++ id ∷ [];
  size = b.size + cost;
}

-- The request gathered so far was posted, and an empty one begins.
abbrev pub flushed : Batch → List Rejection → Batch
flushed b rejected = record {
  chunk = [];
  ids = [];
  size = body_framing;
  refused = b.refused ++ rejected;
  posted = (body_of b.chunk, b.ids) ∷ b.posted;
}

-- The exchange of one request: `n` are the requests made before it in this call.
module _ (json : Json) (post : ℕ → Text → Text → Reply) (token : Text) where
  unfoldable pub send : ℕ → List Text → List Text → Result Fault (List Rejection)
  send n chunk ids = on_reply json ids (post n token (body_of chunk))

  unfoldable pub flush_chunk : Batch → Result Failed Batch
  flush_chunk b = elim (send (length b.posted) b.chunk b.ids) [
    | err f ↦ err (record { why = f; posted = (body_of b.chunk, b.ids) ∷ b.posted })
    | ok rejected ↦ ok (flushed b rejected)
  ]

  unfoldable pub flush : Batch → Result Failed Batch
  flush b = if is_empty b.chunk then ok b else flush_chunk b

  -- One turn of the loop with a document.
  unfoldable pub add_document : ℕ → Text → Text → Batch → Result Failed Batch
  add_document max_bytes id doc b =
      if ltb max_bytes (b.size + (length doc + comma b.chunk))
      then elim (flush b) [ err f ↦ err f | ok b' ↦ ok (append_document id doc (length doc) b') ]
      else ok (append_document id doc (length doc + comma b.chunk) b)

  unfoldable pub add_all : ℕ → List Marshalled → Batch → Result Failed Batch
  add_all max_bytes [] b = flush b
  add_all max_bytes (rejected_here r ∷ ms) b = add_all max_bytes ms b
  add_all max_bytes (document id doc ∷ ms) b = elim (add_document max_bytes id doc b) [
    | err f ↦ err f
    | ok b' ↦ add_all max_bytes ms b'
  ]

  -- Deliver with a credential, from the documents on.
  unfoldable pub deliver_documents : ℕ → List Marshalled → Result Failed Batch
  deliver_documents max_bytes ms = add_all max_bytes ms (record {
    chunk = [];
    ids = [];
    size = body_framing;
    refused = rejections_here ms;
    posted = [];
  })

pub data DeliverError : Type 0 where
  bad_tenant : DeliverError
  faulted : Fault → DeliverError

unfoldable pub refused_of : Result Failed Batch → Result DeliverError (List Rejection)
refused_of (ok b) = ok b.refused
refused_of (err f) = err (faulted f.why)

abbrev no_credential : Fault
no_credential = record {
  action = action_retry;
  cause = new_cause vault_unavailable;
  detail = detail_no_credential;
}

-- Deliver. `token_of` is `none` where there is no credential or no answer of the vault.
unfoldable pub http_deliver :
    Json
    → (ℕ → Text → Text → Reply)
    → (Text → Option Text)
    → ℕ
    → Text
    → List Offer
    → Result DeliverError (List Rejection)
http_deliver json post token_of max_bytes tenant recs = elim (Tenancy.parse tenant) [
  | err e ↦ err bad_tenant
  | ok t ↦ elim recs [
    | [] ↦ ok []
    | r ∷ rs ↦ elim (token_of tenant) [
      | none ↦ err (faulted no_credential)
      | some [] ↦ err (faulted no_credential)
      | some (b ∷ bs) ↦
          refused_of
            (deliver_documents json post (b ∷ bs) max_bytes (marshal_all max_bytes (r ∷ rs)))
    ]
  ]
]
