-- ===== src/Sink/Http/Batching.antt =====
-- How internal/sink/http.go splits a delivery into requests.
use lawang.Prelude.{
  ◌⊎◌, ℕ, ◌≡◌, ◌≤◌, ◌+◌, true, inl, inr, Bool-cases, List, [], ◌∷◌, ◌++◌, Option-cases, ltb, length,
  length-append, Text, Result, ok, err, Result-cases, arith, refl, ◌∙◌, sym, subst,
}
use lawang.Sink.Http.{
  Offer, Marshalled, document, rejected_here, marshal_one, marshal_all, rejections_here,
  join_documents, body_of, body_framing, body_prefix, body_suffix, Batch, Failed, is_empty, comma,
  send, flush_chunk, flush, append_document, add_document, add_all, deliver_documents,
}
use lawang.Sink.Http.Replies.{Json, Reply}

-- Every document leaves room for the frame of a request.
abbrev pub DocumentsFit : ℕ → List Marshalled → Type 0
DocumentsFit max_bytes [] = Unit
DocumentsFit max_bytes (rejected_here r ∷ ms) = DocumentsFit max_bytes ms
DocumentsFit max_bytes (document id doc ∷ ms) =
    (body_framing + length doc ≤ max_bytes) × DocumentsFit max_bytes ms

marshal_all-DocumentsFit :
    (max_bytes : ℕ) (recs : List Offer) → DocumentsFit max_bytes (marshal_all max_bytes recs)
unfolding marshal_all marshal_one
marshal_all-DocumentsFit max_bytes [] = tt
marshal_all-DocumentsFit max_bytes (r ∷ rs) =
    let rest = marshal_all-DocumentsFit max_bytes rs in
    elim (Bool-cases r.sealed) [
      | inr s ↦ rw (s, marshal_one) rest
      | inl s ↦ elim (Option-cases r.encoded) [
        | inl n ↦ rw (s, n, marshal_one) rest
        | inr (doc, e) ↦ elim (Bool-cases (ltb max_bytes (body_framing + length doc))) [
          | inl l ↦ rw (s, e, l, marshal_one) rest
          | inr l ↦ rw (s, e, l, marshal_one) (ground (arith, l), rest)
        ]
      ]
    ]

length-body_of :
    (chunk : List Text) → length (body_of chunk) ≡ body_framing + length (join_documents chunk)
unfolding body_of
length-body_of chunk = omega (
  arith,
  length-append body_prefix (join_documents chunk ++ body_suffix),
  length-append (join_documents chunk) body_suffix,
)

length-join_documents :
    (chunk : List Text) (doc : Text)
    → length (join_documents (chunk ++ doc ∷ []))
      ≡ length (join_documents chunk) + (length doc + comma chunk)
unfolding join_documents
length-join_documents [] doc = omega arith
length-join_documents (d ∷ []) doc = omega (arith, length-append d (b',' ∷ doc))
length-join_documents (d ∷ e ∷ ds) doc =
    let k = length-join_documents (e ∷ ds) doc in
    omega (
      arith,
      k,
      length-append d (b',' ∷ join_documents (e ∷ (ds ++ doc ∷ []))),
      length-append d (b',' ∷ join_documents (e ∷ ds)),
    )

-- The bodies of the log.
abbrev pub AllWithin : ℕ → List (Text × List Text) → Type 0
AllWithin max_bytes [] = Unit
AllWithin max_bytes ((body, ids) ∷ ps) = (length body ≤ max_bytes) × AllWithin max_bytes ps

-- `size` is the length of the request gathered so far, which keeps within the limit, as do those posted.
pub record IsWithin (max_bytes : ℕ) (b : Batch) : Type 0 where
  pub size_right : b.size ≡ length (body_of b.chunk)
  pub gathered : (is_empty b.chunk ≡ true) ⊎ (b.size ≤ max_bytes)
  pub sent : AllWithin max_bytes b.posted

abbrev pub log_of : Result Failed Batch → List (Text × List Text)
log_of (ok b) = b.posted
log_of (err f) = f.posted

-- The state after a turn keeps the invariant, and a failed turn leaves a log within the limit.
abbrev Kept : ℕ → Result Failed Batch → Type 0
Kept max_bytes (ok b) = IsWithin max_bytes b
Kept max_bytes (err f) = AllWithin max_bytes f.posted

is_empty-nil : {A : Type 0} (xs : List A) → is_empty xs ≡ true → xs ≡ []
is_empty-nil [] h = refl
is_empty-nil (x ∷ xs) h = cc

module _ (json : Json) (post : ℕ → Text → Text → Reply) (token : Text) (max_bytes : ℕ) where
  flush-Kept : (b : Batch) → IsWithin max_bytes b → Kept max_bytes (flush json post token b)
  unfolding flush flush_chunk join_documents
  flush-Kept b v = elim (Bool-cases (is_empty b.chunk)) [
    | inl e ↦ rw (e, flush) v
    | inr e ↦
        let small : length (body_of b.chunk) ≤ max_bytes = elim v.gathered [
          | inl k ↦ absurd (ground (arith, k, e))
          | inr k ↦ subst (λ z. z ≤ max_bytes) v.size_right k
        ] in
        elim (Result-cases (send json post token (length b.posted) b.chunk b.ids)) [
          | inl (f, k) ↦ rw (e, flush) (rw (k, flush_chunk) (small, v.sent))
          | inr (rejected, k) ↦
              rw (e, flush)
                (rw (k, flush_chunk)
                  (record {
                    size_right = sym (length-body_of []);
                    gathered = inl refl;
                    sent = (small, v.sent);
                  }))
        ]
  ]

  -- After a flush the request gathered so far is empty.
  flush-empty :
      (b b' : Batch) → IsWithin max_bytes b → flush json post token b ≡ ok b' → b'.chunk ≡ []
  unfolding flush flush_chunk
  flush-empty b b' v h = elim (Bool-cases (is_empty b.chunk)) [
    | inl e ↦
        let unchanged : b ≡ b' = ground (arith, e) in
        subst (λ (z : Batch). z.chunk ≡ []) unchanged (is_empty-nil b.chunk e)
    | inr e ↦ elim (Result-cases (send json post token (length b.posted) b.chunk b.ids)) [
      | inl (f, k) ↦ absurd (ground (arith, e, k))
      | inr (rejected, k) ↦ ground (arith, e, k)
    ]
  ]

  append_document-IsWithin :
      (id doc : Text) (b : Batch)
      → IsWithin max_bytes b
      → b.size + (length doc + comma b.chunk) ≤ max_bytes
      → IsWithin max_bytes (append_document id doc (length doc + comma b.chunk) b)
  unfolding append_document
  append_document-IsWithin id doc b v h = record {
    size_right =
        let a = length-body_of (b.chunk ++ doc ∷ []) in
        let c = length-body_of b.chunk in
        omega (arith, a, c, length-join_documents b.chunk doc, v.size_right);
    gathered = inr h;
    sent = v.sent;
  }

  add_document-Kept :
      (id doc : Text) (b : Batch)
      → body_framing + length doc ≤ max_bytes
      → IsWithin max_bytes b
      → Kept max_bytes (add_document json post token max_bytes id doc b)
  unfolding add_document join_documents
  add_document-Kept id doc b fits v =
      elim (Bool-cases (ltb max_bytes (b.size + (length doc + comma b.chunk)))) [
        | inr e ↦ rw (e, add_document) (append_document-IsWithin id doc b v (ground (arith, e)))
        | inl e ↦ elim (Result-cases (flush json post token b)) [
          | inl (f, k) ↦ rw (e, add_document) (rw k (subst (Kept max_bytes) k (flush-Kept b v)))
          | inr (b', k) ↦
              let v' : IsWithin max_bytes b' = subst (Kept max_bytes) k (flush-Kept b v) in
              let none_left = flush-empty b b' v k in
              let free : comma b'.chunk ≡ 0 = rw none_left refl in
              let start : b'.size ≡ body_framing =
                v'.size_right ∙ rw none_left (length-body_of []) in
              let cost : length doc + comma b'.chunk ≡ length doc = omega (arith, free) in
              rw (e, add_document)
                (rw k (
                  subst (λ z. IsWithin max_bytes (append_document id doc z b')) cost
                    (append_document-IsWithin id doc b' v' (omega (arith, fits, start, cost)))))
        ]
      ]

  add_all-Kept :
      (ms : List Marshalled) (b : Batch)
      → DocumentsFit max_bytes ms
      → IsWithin max_bytes b
      → Kept max_bytes (add_all json post token max_bytes ms b)
  unfolding add_all
  add_all-Kept [] b d v = flush-Kept b v
  add_all-Kept (rejected_here r ∷ ms) b d v = add_all-Kept ms b d v
  add_all-Kept (document id doc ∷ ms) b d v =
      elim (Result-cases (add_document json post token max_bytes id doc b)) [
        | inl (f, k) ↦ rw (k, add_all) (subst (Kept max_bytes) k (add_document-Kept id doc b d.0 v))
        | inr (b', k) ↦
            rw (k, add_all)
              (add_all-Kept ms b' d.1 (subst (Kept max_bytes) k (add_document-Kept id doc b d.0 v)))
      ]

Kept-log :
    (max_bytes : ℕ) (r : Result Failed Batch) → Kept max_bytes r → AllWithin max_bytes (log_of r)
Kept-log max_bytes (ok b) v = v.sent
Kept-log max_bytes (err f) v = v

-- No request that a delivery posts is longer than the limit, also where one of them fails.
pub requests_within_limit :
    (json : Json) (post : ℕ → Text → Text → Reply) (token : Text) (max_bytes : ℕ)
    (recs : List Offer)
    → AllWithin max_bytes
        (log_of (deliver_documents json post token max_bytes (marshal_all max_bytes recs)))
unfolding deliver_documents add_all marshal_all join_documents rejections_here
requests_within_limit json post token max_bytes recs = Kept-log max_bytes _ (
    add_all-Kept json post token max_bytes (marshal_all max_bytes recs) _
      (marshal_all-DocumentsFit max_bytes recs)
      (record { size_right = sym (length-body_of []); gathered = inl refl; sent = tt }))
