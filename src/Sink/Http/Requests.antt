-- ===== src/Sink/Http/Requests.antt =====
-- What the requests of internal/sink/http.go's Deliver carry: the documents that it gathers, in
-- whole requests.
use lawang.Prelude.{
  ℕ, ◌≡◌, ◌+◌, inl, inr, Bool-cases, List, [], ◌∷◌, ◌++◌, ltb, length, Text, ok, Result-cases,
  arith, refl, ◌∙◌, sym, ap, subst,
}
use lawang.Sink.Http.{
  Marshalled, document, rejected_here, body_of, Batch, is_empty, comma, flushed, send, flush_chunk,
  flush, append_document, add_document, add_all, deliver_documents,
}
use lawang.Sink.Http.Replies.{Json, Reply}
use mathlib.Core.List.{append-nil, append_assoc}

-- A document with the id of its record.
abbrev pub documents_of : List Marshalled → List (Text × Text)
documents_of [] = []
documents_of (document id doc ∷ ms) = (id, doc) ∷ documents_of ms
documents_of (rejected_here r ∷ ms) = documents_of ms

abbrev pub ids_of : List (Text × Text) → List Text
ids_of [] = []
ids_of ((id, doc) ∷ ds) = id ∷ ids_of ds

abbrev pub texts_of : List (Text × Text) → List Text
texts_of [] = []
texts_of ((id, doc) ∷ ds) = doc ∷ texts_of ds

-- The requests that carry these parts of a batch: of each the body and the ids it is about.
abbrev pub requests_of : List (List (Text × Text)) → List (Text × List Text)
requests_of [] = []
requests_of (p ∷ ps) = (body_of (texts_of p), ids_of p) ∷ requests_of ps

-- Parts that are listed the last one first, put together again.
abbrev pub joined : List (List (Text × Text)) → List (Text × Text)
joined [] = []
joined (p ∷ ps) = joined ps ++ p

-- What was posted and is gathered, where `done` are the documents so far.
record IsPacked (done : List (Text × Text)) (b : Batch) : Type 0 where
  parts : List (List (Text × Text))
  part : List (Text × Text)
  sent : b.posted ≡ requests_of parts
  chunk_right : b.chunk ≡ texts_of part
  ids_right : b.ids ≡ ids_of part
  in_order : joined parts ++ part ≡ done

ids_of-append :
    (xs : List (Text × Text)) (id doc : Text) → ids_of (xs ++ (id, doc) ∷ []) ≡ ids_of xs ++ id ∷ []
ids_of-append [] id doc = refl
ids_of-append (x ∷ xs) id doc = ap (λ z. x.0 ∷ z) (ids_of-append xs id doc)

texts_of-append :
    (xs : List (Text × Text)) (id doc : Text)
    → texts_of (xs ++ (id, doc) ∷ []) ≡ texts_of xs ++ doc ∷ []
texts_of-append [] id doc = refl
texts_of-append (x ∷ xs) id doc = ap (λ z. x.1 ∷ z) (texts_of-append xs id doc)

append_document-IsPacked :
    (done : List (Text × Text)) (id doc : Text) (cost : ℕ) (b : Batch)
    → IsPacked done b
    → IsPacked (done ++ (id, doc) ∷ []) (append_document id doc cost b)
unfolding append_document
append_document-IsPacked done id doc cost b v = record {
  parts = v.parts;
  part = v.part ++ (id, doc) ∷ [];
  sent = v.sent;
  chunk_right = ap (λ z. z ++ doc ∷ []) v.chunk_right ∙ sym (texts_of-append v.part id doc);
  ids_right = ap (λ z. z ++ id ∷ []) v.ids_right ∙ sym (ids_of-append v.part id doc);
  in_order =
      sym (append_assoc (joined v.parts) v.part ((id, doc) ∷ []))
      ∙ ap (λ z. z ++ (id, doc) ∷ []) v.in_order;
}

module _ (json : Json) (post : ℕ → Text → Text → Reply) (token : Text) where
  flush-IsPacked :
      (done : List (Text × Text)) (b b' : Batch)
      → IsPacked done b
      → flush json post token b ≡ ok b'
      → IsPacked done b'
  unfolding flush flush_chunk
  flush-IsPacked done b b' v h = elim (Bool-cases (is_empty b.chunk)) [
    | inl e ↦ let unchanged : b ≡ b' = ground (arith, e) in rw (← unchanged) v
    | inr e ↦ elim (Result-cases (send json post token (length b.posted) b.chunk b.ids)) [
      | inl (f, k) ↦ absurd (ground (arith, e, k))
      | inr (rejected, k) ↦
          let ended : flushed b rejected ≡ b' = ground (arith, e, k) in
          rw (← ended) (record {
            parts = v.part ∷ v.parts;
            part = [];
            sent = rw (v.chunk_right, v.ids_right, v.sent) refl;
            chunk_right = refl;
            ids_right = refl;
            in_order = append-nil (joined v.parts ++ v.part) ∙ v.in_order;
          })
    ]
  ]

  add_document-IsPacked :
      (max_bytes : ℕ) (done : List (Text × Text)) (id doc : Text) (b b' : Batch)
      → IsPacked done b
      → add_document json post token max_bytes id doc b ≡ ok b'
      → IsPacked (done ++ (id, doc) ∷ []) b'
  unfolding add_document
  add_document-IsPacked max_bytes done id doc b b' v h =
      elim (Bool-cases (ltb max_bytes (b.size + (length doc + comma b.chunk)))) [
        | inr e ↦
            let ended : append_document id doc (length doc + comma b.chunk) b ≡ b' =
              ground (arith, e) in
            rw (← ended) (append_document-IsPacked done id doc _ b v)
        | inl e ↦ elim (Result-cases (flush json post token b)) [
          | inl (f, k) ↦ absurd (ground (arith, e, k))
          | inr (c, k) ↦
              let ended : append_document id doc (length doc) c ≡ b' = ground (arith, e, k) in
              rw (← ended) (append_document-IsPacked done id doc _ c (flush-IsPacked done b c v k))
        ]
      ]

  add_all-IsPacked :
      (max_bytes : ℕ) (done : List (Text × Text)) (ms : List Marshalled) (b b' : Batch)
      → IsPacked done b
      → add_all json post token max_bytes ms b ≡ ok b'
      → IsPacked (done ++ documents_of ms) b'
  unfolding add_all
  add_all-IsPacked max_bytes done [] b b' v h = rw (append-nil done) (flush-IsPacked done b b' v h)
  add_all-IsPacked max_bytes done (rejected_here r ∷ ms) b b' v h =
      add_all-IsPacked max_bytes done ms b b' v h
  add_all-IsPacked max_bytes done (document id doc ∷ ms) b b' v h =
      elim (Result-cases (add_document json post token max_bytes id doc b)) [
        | inl (f, k) ↦ absurd (ground (arith, k))
        | inr (c, k) ↦
            subst (λ z. IsPacked z b') (append_assoc done ((id, doc) ∷ []) (documents_of ms))
              (add_all-IsPacked max_bytes (done ++ (id, doc) ∷ []) ms c b'
                (add_document-IsPacked max_bytes done id doc b c v k) (ground (arith, k)))
      ]

ids_of-nil : (ds : List (Text × Text)) → ids_of ds ≡ [] → ds ≡ []
ids_of-nil [] h = refl
ids_of-nil (d ∷ ds) h = cc

-- Where nothing is left over, the requests carry the documents in parts that make up the whole.
pub deliver_documents-packed :
    (json : Json) (post : ℕ → Text → Text → Reply) (token : Text) (max_bytes : ℕ)
    (ms : List Marshalled) (b : Batch)
    → deliver_documents json post token max_bytes ms ≡ ok b
    → b.ids ≡ []
    → (parts : List (List (Text × Text))) × (joined parts ≡ documents_of ms)
      × (b.posted ≡ requests_of parts)
unfolding deliver_documents
deliver_documents-packed json post token max_bytes ms b h n =
    let v =
      add_all-IsPacked json post token max_bytes [] ms _ b
        (record {
          parts = [];
          part = [];
          sent = refl;
          chunk_right = refl;
          ids_right = refl;
          in_order = refl;
        })
        h in
    let none_left = ids_of-nil v.part (sym v.ids_right ∙ n) in
    (
      v.parts,
      sym (append-nil (joined v.parts))
          ∙ subst (λ z. joined v.parts ++ z ≡ documents_of ms) none_left v.in_order,
      v.sent,
    )
