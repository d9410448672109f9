-- ===== src/Sink/Http/Tests.antt =====
-- Runs of internal/sink/http.go with two records that do not fit into one request.
use lawang.Prelude.{
  text_eq-ne, text_eq, ◌==◌, if◌then◌else◌, ℕ, ◌≡◌, ◌⊎◌, inl, inr, true, false, List, [], ◌∷◌, map,
  Option, none, some, In, Text, text, Result, ok, err, refl,
}
use lawang.Sink.{Rejection}
use lawang.Sink.Http.{
  Offer, Batch, Failed, Marshalled, marshal_all, deliver_documents, body_of, rejections_here,
  http_deliver,
}
use lawang.Sink.Http.Replies.{Json, Reply, replied}
use lawang.Sink.Http.Accounts.{NoDup, Within, rejected_ids}
use lawang.Sink.Http.Batching.{AllWithin, log_of, requests_within_limit}
use lawang.Sink.Http.Requests.{documents_of, requests_of, joined}
use lawang.Sink.Http.Totals.{posted_ids, delivery_accounts_for_all}
use lawang.Sink.Http.Offers.{offer_ids, document_ids}
use lawang.Outbox.RecordQueries.{PreparedRecord}
use lawang.Worker.{dead_records}
use lawang.Worker.Verdicts.{verdict_of}
use lawang.Worker.HttpSink.{http_refusals_are_accepted}

-- A decoder that reads no members.
abbrev plain : Json
plain = record {
  trim_space = λ s. s;
  members = λ s. some [];
  entries = λ s. none;
  code = λ s. none;
}

-- A receiver that takes the first request and refuses the second with a 422.
abbrev second_refused : ℕ → Text → Text → Reply
second_refused n token body = if n == 0 then replied 200 [] false else replied 422 [] false

abbrev offers : List Offer
offers =
    record { id = text "rec_1"; sealed = true; encoded = some (text "{}") }
    ∷ record { id = text "rec_2"; sealed = true; encoded = some (text "{}") }
    ∷ record { id = text "rec_3"; sealed = false; encoded = some (text "{}") }
    ∷ []

abbrev run : Result Failed Batch
run = deliver_documents plain second_refused (text "t") 23 (marshal_all 23 offers)

abbrev batch_of : Result Failed Batch → Batch
batch_of (ok b) = b
batch_of (err f) = record { chunk = []; ids = []; size = 0; refused = []; posted = [] }

ran : run ≡ ok (batch_of run)
unfolding deliver_documents lawang.Sink.Http.add_all marshal_all lawang.Sink.Http.marshal_one
    lawang.Sink.Http.add_document lawang.Sink.Http.append_document lawang.Sink.Http.flush
    lawang.Sink.Http.flush_chunk lawang.Sink.Http.send lawang.Sink.Http.Replies.on_reply
    lawang.Sink.Http.Replies.rejections_from lawang.Sink.Http.Replies.on_status
    lawang.Sink.Http.Replies.status_of
ran = refl

ran_ids : posted_ids (batch_of run).posted ≡ text "rec_1" ∷ text "rec_2" ∷ []
unfolding deliver_documents lawang.Sink.Http.add_all marshal_all lawang.Sink.Http.marshal_one
    lawang.Sink.Http.add_document lawang.Sink.Http.append_document lawang.Sink.Http.flush
    lawang.Sink.Http.flush_chunk lawang.Sink.Http.send lawang.Sink.Http.Replies.on_reply
    lawang.Sink.Http.Replies.rejections_from lawang.Sink.Http.Replies.on_status
    lawang.Sink.Http.Replies.status_of
ran_ids = refl

ran_refused : rejected_ids (batch_of run).refused ≡ text "rec_3" ∷ text "rec_2" ∷ []
unfolding deliver_documents lawang.Sink.Http.add_all marshal_all lawang.Sink.Http.marshal_one
    lawang.Sink.Http.add_document lawang.Sink.Http.append_document lawang.Sink.Http.flush
    lawang.Sink.Http.flush_chunk lawang.Sink.Http.send lawang.Sink.Http.Replies.on_reply
    lawang.Sink.Http.Replies.rejections_from lawang.Sink.Http.Replies.on_status
    lawang.Sink.Http.Replies.status_of rejections_here lawang.Sink.Http.Replies.refusals
ran_refused = refl

requests_within_limit_example : AllWithin 23 (log_of run)
requests_within_limit_example = requests_within_limit plain second_refused (text "t") 23 offers

offers-NoDup : NoDup (offer_ids offers)
unfolding text_eq
offers-NoDup = (not_1, (not_2, (not_3, tt)))
  where
    not_1 : In (text "rec_1") (text "rec_2" ∷ text "rec_3" ∷ []) → ⊥
    not_1 (inl e) = text_eq-ne _ _ refl e
    not_1 (inr (inl e)) = text_eq-ne _ _ refl e
    not_1 (inr (inr m)) = m

    not_2 : In (text "rec_2") (text "rec_3" ∷ []) → ⊥
    not_2 (inl e) = text_eq-ne _ _ refl e
    not_2 (inr m) = m

    not_3 : In (text "rec_3") [] → ⊥
    not_3 m = m

delivery_accounts_for_all_example :
    (((parts : List (List (Text × Text))) × (joined parts ≡ documents_of (marshal_all 23 offers))
        × ((batch_of run).posted ≡ requests_of parts))
      × (posted_ids (batch_of run).posted ≡ document_ids (marshal_all 23 offers))
      × ((r : Text)
          → In r (offer_ids offers)
          → In r (posted_ids (batch_of run).posted)
            ⊎ In r (rejected_ids (rejections_here (marshal_all 23 offers)))))
    × (NoDup (rejected_ids (batch_of run).refused)
        × Within (rejected_ids (batch_of run).refused) (offer_ids offers))
delivery_accounts_for_all_example =
    delivery_accounts_for_all plain second_refused (text "t") 23 offers (batch_of run) offers-NoDup
      ran

abbrev prepared : Text → PreparedRecord
prepared id = record {
  record_id = id;
  document = text "{}";
  op = text "upsert";
  kind = text "task";
}

abbrev batch : List PreparedRecord
batch = prepared (text "rec_1") ∷ prepared (text "rec_2") ∷ prepared (text "rec_3") ∷ []

abbrev credential : Text → Option Text
credential tenant = some (text "t")

delivered :
    http_deliver plain second_refused credential 23 (text "acme") offers ≡ ok (batch_of run).refused
unfolding http_deliver lawang.Tenancy.parse lawang.Sink.Http.refused_of deliver_documents
    lawang.Sink.Http.add_all marshal_all lawang.Sink.Http.marshal_one lawang.Sink.Http.add_document
    lawang.Sink.Http.append_document lawang.Sink.Http.flush lawang.Sink.Http.flush_chunk
    lawang.Sink.Http.send lawang.Sink.Http.Replies.on_reply lawang.Sink.Http.Replies.rejections_from
    lawang.Sink.Http.Replies.on_status lawang.Sink.Http.Replies.status_of
delivered = refl

http_refusals_are_accepted_example :
    dead_records (batch_of run).refused batch ≡ ok (map verdict_of (batch_of run).refused)
http_refusals_are_accepted_example =
    http_refusals_are_accepted plain second_refused credential 23 (text "acme") offers batch
      (batch_of run).refused offers-NoDup refl delivered
