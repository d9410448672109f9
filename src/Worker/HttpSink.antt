-- ===== src/Worker/HttpSink.antt =====
-- internal/worker/worker.go with the sink of internal/sink/http.go.
use lawang.Prelude.{
  ℕ, ◌≡◌, inl, inr, List, [], ◌∷◌, map, Option, some, Option-cases, In, In-map, In-map_of, Text, ok,
  Result-cases, arith, refl, sym, subst,
}
use lawang.Tenancy
use lawang.Sink.{Rejection}
use lawang.Sink.Http.{Offer, marshal_all, deliver_documents, refused_of, http_deliver}
use lawang.Sink.Http.Replies.{Json, Reply}
use lawang.Sink.Http.Accounts.{NoDup, Within, rejected_ids}
use lawang.Sink.Http.Totals.{delivery_accounts_for_all}
use lawang.Sink.Http.Offers.{offer_ids}
use lawang.Outbox.RecordQueries.{PreparedRecord}
use lawang.Worker.{dead_records}
use lawang.Worker.Verdicts.{AreDistinct, AreOffered, verdict_of, dead_records_accepts}

AreDistinct-of : (rejected : List Rejection) → NoDup (rejected_ids rejected) → AreDistinct rejected
AreDistinct-of [] d = tt
AreDistinct-of (r ∷ rs) d = (
  λ x m e. d.0 (subst (λ z. In z (rejected_ids rs)) e (In-map_of (λ (y : Rejection). y.id) rs x m)),
  AreDistinct-of rs d.1,
)

abbrev pub prepared_ids : List PreparedRecord → List Text
prepared_ids batch = map (λ r. r.record_id) batch

AreOffered-of :
    (rejected : List Rejection) (batch : List PreparedRecord)
    → Within (rejected_ids rejected) (prepared_ids batch)
    → AreOffered rejected batch
AreOffered-of rejected batch w r m =
    let (x, n, e) =
      In-map (λ (y : PreparedRecord). y.record_id) batch r.id
        (w r.id (In-map_of (λ (y : Rejection). y.id) rejected r m)) in
    (x, n, sym e)

http_deliver-ok :
    (json : Json) (post : ℕ → Text → Text → Reply) (token_of : Text → Option Text) (max_bytes : ℕ)
    (tenant : Text) (recs : List Offer) (rejected : List Rejection)
    → NoDup (offer_ids recs)
    → http_deliver json post token_of max_bytes tenant recs ≡ ok rejected
    → NoDup (rejected_ids rejected) × Within (rejected_ids rejected) (offer_ids recs)
unfolding http_deliver refused_of
http_deliver-ok json post token_of max_bytes tenant [] rejected d h =
    elim (Result-cases (Tenancy.parse tenant)) [
      | inl (e, k) ↦ absurd (ground (arith, k))
      | inr (t, k) ↦
          let nothing : rejected ≡ [] = ground (arith, k) in rw nothing (tt, λ x m. absurd m)
    ]
http_deliver-ok json post token_of max_bytes tenant (r ∷ rs) rejected d h =
    elim (Result-cases (Tenancy.parse tenant)) [
      | inl (e, k) ↦ absurd (ground (arith, k))
      | inr (t, k) ↦ elim (Option-cases (token_of tenant)) [
        | inl n ↦ absurd (ground (arith, k, n))
        | inr (token, n) ↦ with_token t k token n
      ]
    ]
  where
    with_token :
        (t : Text)
        → Tenancy.parse tenant ≡ ok t
        → (token : Text) → token_of tenant ≡ some token
        → NoDup (rejected_ids rejected) × Within (rejected_ids rejected) (offer_ids (r ∷ rs))
    with_token t k [] n = absurd (ground (arith, k, n))
    with_token t k (b ∷ bs) n =
        elim (Result-cases
          (deliver_documents json post (b ∷ bs) max_bytes (marshal_all max_bytes (r ∷ rs)))) [
            | inl (f, l) ↦ absurd (ground (arith, k, n, l))
            | inr (done, l) ↦
                let ended : done.refused ≡ rejected = ground (arith, k, n, l) in
                rw (← ended)
                  (delivery_accounts_for_all json post (b ∷ bs) max_bytes (r ∷ rs) done d l).1
          ]

-- Whatever the receiver answers, when the HTTP sink returns refusals for a batch of distinct ids,
-- the worker accepts them, and each becomes the dead letter of its record.
pub http_refusals_are_accepted :
    (json : Json) (post : ℕ → Text → Text → Reply) (token_of : Text → Option Text) (max_bytes : ℕ)
    (tenant : Text) (recs : List Offer) (batch : List PreparedRecord) (rejected : List Rejection)
    → NoDup (offer_ids recs)
    → prepared_ids batch ≡ offer_ids recs
    → http_deliver json post token_of max_bytes tenant recs ≡ ok rejected
    → dead_records rejected batch ≡ ok (map verdict_of rejected)
http_refusals_are_accepted json post token_of max_bytes tenant recs batch rejected d e h =
    let (once, known) = http_deliver-ok json post token_of max_bytes tenant recs rejected d h in
    (dead_records_accepts rejected batch (map verdict_of rejected)).1
      (refl, AreDistinct-of rejected once, AreOffered-of rejected batch (λ x m. rw e (known x m)))
