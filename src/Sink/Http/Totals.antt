-- ===== src/Sink/Http/Totals.antt =====
-- The loop of Deliver in internal/sink/http.go over a whole batch: what it posted and refused.
use lawang.Prelude.{
  ℕ, ◌≡◌, ◌+◌, true, false, inl, inr, ◌⊎◌, Bool-cases, List, [], ◌∷◌, ◌++◌, ltb, In, In-append,
  length, Text, ok, Result-cases, arith, refl, ◌∙◌, sym, ap, subst,
}
use lawang.Sink.{Rejection}
use lawang.Sink.Http.{
  flushed, Offer, Marshalled, document, rejected_here, marshal_all, rejections_here, Batch,
  is_empty, comma, send, flush_chunk, flush, append_document, add_document, add_all,
  deliver_documents,
}
use lawang.Sink.Http.Replies.{Json, Reply}
use lawang.Sink.Http.Offers.{offer_ids, document_ids, marshal_all-IsSplit}
use lawang.Sink.Http.Requests.{documents_of, requests_of, joined, deliver_documents-packed}
use lawang.Sink.Http.Accounts.{
  NoDup, Within, Apart, rejected_ids, AreNamed, on_reply-AreNamed, In-append_left, In-append_right,
  append_assoc, append_nil, NoDup-append, NoDup-split, map-append_lem,
}

-- The ids of all records posted, in the order they were posted in.
abbrev pub posted_ids : List (Text × List Text) → List Text
posted_ids [] = []
posted_ids ((body, ids) ∷ ps) = posted_ids ps ++ ids

-- What holds while `rest` are the ids of the documents still to come. `all` are the ids of the batch
-- and `done` those of its documents so far.
record IsAccounted (all done rest : List Text) (b : Batch) : Type 0 where
  gathered_ids : is_empty b.chunk ≡ is_empty b.ids
  in_order : posted_ids b.posted ++ b.ids ≡ done
  once_each : NoDup (b.ids ++ rest)
  known : Within (b.ids ++ rest) all
  refused_once : NoDup (rejected_ids b.refused)
  refused_known : Within (rejected_ids b.refused) all
  refused_apart : Apart (rejected_ids b.refused) (b.ids ++ rest)

is_empty-nil : {A : Type 0} (xs : List A) → is_empty xs ≡ true → xs ≡ []
is_empty-nil [] h = refl
is_empty-nil (x ∷ xs) h = cc

flushed-IsAccounted :
    (all done rest : List Text) (b : Batch) (rejected : List Rejection)
    → IsAccounted all done rest b
    → AreNamed b.ids rejected
    → IsAccounted all done rest (flushed b rejected)
flushed-IsAccounted all done rest b rejected v (distinct, inside) =
    let (ids_distinct, rest_distinct, apart) = NoDup-split b.ids rest v.once_each in
    let whole = map-append_lem b.refused rejected in
    record {
      gathered_ids = refl;
      in_order = append_nil (posted_ids b.posted ++ b.ids) ∙ v.in_order;
      once_each = rest_distinct;
      known = λ x m. v.known x (In-append_right x b.ids rest m);
      refused_once = rw whole (
          NoDup-append (rejected_ids b.refused) (rejected_ids rejected) v.refused_once distinct
            (λ x m n. v.refused_apart x m (In-append_left x b.ids rest (inside x n))));
      refused_known = λ x m.
          elim (In-append x (rejected_ids b.refused) (rejected_ids rejected)
            (subst (In x) whole m)) [
              | inl n ↦ v.refused_known x n
              | inr n ↦ v.known x (In-append_left x b.ids rest (inside x n))
            ];
      refused_apart = λ x m k.
          elim (In-append x (rejected_ids b.refused) (rejected_ids rejected)
            (subst (In x) whole m)) [
              | inl n ↦ v.refused_apart x n (In-append_right x b.ids rest k)
              | inr n ↦ apart x (inside x n) k
            ];
    }

is_empty-append : {A : Type 0} (xs : List A) (x : A) → is_empty (xs ++ x ∷ []) ≡ false
is_empty-append [] x = refl
is_empty-append (y ∷ ys) x = refl

append_document-IsAccounted :
    (all done rest : List Text) (id doc : Text) (cost : ℕ) (b : Batch)
    → IsAccounted all done (id ∷ rest) b
    → IsAccounted all (done ++ id ∷ []) rest (append_document id doc cost b)
unfolding append_document
append_document-IsAccounted all done rest id doc cost b v =
    let shift = append_assoc b.ids (id ∷ []) rest in
    record {
      gathered_ids = is_empty-append b.chunk doc ∙ sym (is_empty-append b.ids id);
      in_order =
          sym (append_assoc (posted_ids b.posted) b.ids (id ∷ []))
          ∙ ap (λ l. l ++ id ∷ []) v.in_order;
      once_each = rw shift v.once_each;
      known = λ x m. v.known x (subst (In x) shift m);
      refused_once = v.refused_once;
      refused_known = v.refused_known;
      refused_apart = λ x m k. v.refused_apart x m (subst (In x) shift k);
    }

module _ (json : Json) (post : ℕ → Text → Text → Reply) (token : Text) (all : List Text) where
  flush-IsAccounted :
      (done rest : List Text) (b b' : Batch)
      → IsAccounted all done rest b
      → flush json post token b ≡ ok b'
      → IsAccounted all done rest b' × (b'.ids ≡ []) × (b'.chunk ≡ [])
  unfolding flush flush_chunk send
  flush-IsAccounted done rest b b' v h = elim (Bool-cases (is_empty b.chunk)) [
    | inl e ↦
        let unchanged : b ≡ b' = ground (arith, e) in
        rw (← unchanged) (v, is_empty-nil b.ids (sym v.gathered_ids ∙ e), is_empty-nil b.chunk e)
    | inr e ↦ elim (Result-cases (send json post token (length b.posted) b.chunk b.ids)) [
      | inl (f, k) ↦ absurd (ground (arith, e, k))
      | inr (rejected, k) ↦
          let ended : flushed b rejected ≡ b' = ground (arith, e, k) in
          rw (← ended) (
            flushed-IsAccounted all done rest b rejected v
                (on_reply-AreNamed json b.ids _ rejected (NoDup-split b.ids rest v.once_each).0 k),
            refl,
            refl,
          )
    ]
  ]

  add_document-IsAccounted :
      (max_bytes : ℕ) (done rest : List Text) (id doc : Text) (b b' : Batch)
      → IsAccounted all done (id ∷ rest) b
      → add_document json post token max_bytes id doc b ≡ ok b'
      → IsAccounted all (done ++ id ∷ []) rest b'
  unfolding add_document
  add_document-IsAccounted max_bytes done rest id doc b b' v h =
      elim (Bool-cases (ltb max_bytes (b.size + (length doc + comma b.chunk)))) [
        | inr e ↦
            let ended : append_document id doc (length doc + comma b.chunk) b ≡ b' =
              ground (arith, e) in
            rw (← ended) (append_document-IsAccounted all done rest id doc _ b v)
        | inl e ↦ elim (Result-cases (flush json post token b)) [
          | inl (f, k) ↦ absurd (ground (arith, e, k))
          | inr (c, k) ↦
              let ended : append_document id doc (length doc) c ≡ b' = ground (arith, e, k) in
              rw (← ended) (
                append_document-IsAccounted all done rest id doc _ c
                  (flush-IsAccounted done (id ∷ rest) b c v k).0)
        ]
      ]

  add_all-IsAccounted :
      (max_bytes : ℕ) (done : List Text) (ms : List Marshalled) (b b' : Batch)
      → IsAccounted all done (document_ids ms) b
      → add_all json post token max_bytes ms b ≡ ok b'
      → IsAccounted all (done ++ document_ids ms) [] b' × (b'.ids ≡ [])
  unfolding add_all
  add_all-IsAccounted max_bytes done [] b b' v h =
      let (w, none_left, _) = flush-IsAccounted done [] b b' v h in
      (rw (append_nil done) w, none_left)
  add_all-IsAccounted max_bytes done (rejected_here r ∷ ms) b b' v h =
      add_all-IsAccounted max_bytes done ms b b' v h
  add_all-IsAccounted max_bytes done (document id doc ∷ ms) b b' v h =
      elim (Result-cases (add_document json post token max_bytes id doc b)) [
        | inl (f, k) ↦ absurd (ground (arith, k))
        | inr (c, k) ↦
            let (w, none_left) =
              add_all-IsAccounted max_bytes (done ++ id ∷ []) ms c b'
                (add_document-IsAccounted max_bytes done (document_ids ms) id doc b c v k)
                (ground (arith, k)) in
            (
              subst (λ z. IsAccounted all z [] b') (append_assoc done (id ∷ []) (document_ids ms))
                  w,
              none_left,
            )
      ]

-- When all requests of a batch of distinct ids are answered, the bodies posted are those of parts
-- of the documents that make up the whole batch in its order, each request about the ids of its
-- part; each record was posted or refused before; and the refusals name records of the batch, none
-- twice.
pub delivery_accounts_for_all :
    (json : Json) (post : ℕ → Text → Text → Reply) (token : Text) (max_bytes : ℕ)
    (recs : List Offer) (b : Batch)
    → NoDup (offer_ids recs)
    → deliver_documents json post token max_bytes (marshal_all max_bytes recs) ≡ ok b
    → (((parts : List (List (Text × Text))) × (joined parts
            ≡ documents_of (marshal_all max_bytes recs))
          × (b.posted ≡ requests_of parts))
        × (posted_ids b.posted ≡ document_ids (marshal_all max_bytes recs))
        × ((r : Text)
            → In r (offer_ids recs)
            → In r (posted_ids b.posted)
              ⊎ In r (rejected_ids (rejections_here (marshal_all max_bytes recs)))))
      × (NoDup (rejected_ids b.refused) × Within (rejected_ids b.refused) (offer_ids recs))
unfolding deliver_documents
delivery_accounts_for_all json post token max_bytes recs b d h =
    let ms = marshal_all max_bytes recs in
    let split = marshal_all-IsSplit max_bytes recs d in
    let (v, none_left) =
      add_all-IsAccounted json post token (offer_ids recs) max_bytes [] ms _ b
        (record {
          gathered_ids = refl;
          in_order = refl;
          once_each = split.docs_once;
          known = split.docs_known;
          refused_once = split.refused_once;
          refused_known = split.refused_known;
          refused_apart = split.split_apart;
        })
        h in
    let order : posted_ids b.posted ≡ document_ids ms =
      sym (append_nil (posted_ids b.posted))
      ∙ subst (λ z. posted_ids b.posted ++ z ≡ document_ids ms) none_left v.in_order in
    (
      (
        deliver_documents-packed json post token max_bytes ms b h none_left,
        order,
        λ r m. rw order (split.each r m),
      ),
      (v.refused_once, v.refused_known),
    )
