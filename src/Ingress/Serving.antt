-- ===== src/Ingress/Serving.antt =====
-- What serveHTTP of internal/ingress/ingress.go does with a request.
use lawang.Prelude.{
  List, ◌≡◌, ◌≤◌, Option, some, Option-cases, inl, inr, ◌⊎◌, length, Text, Result, ok, err, arith,
  refl, ◌∙◌, sym, ap, subst,
}
use lawang.Provider.{HttpRequest, Source, Entry, lookup}
use lawang.Ingress.{
  not_found, internal_error, Verdict, stored, duplicate, parked, unverified, no_verdict, status_of,
  verdict_text, Response, respond, write_reply, line,
}
use lawang.Ingress.Edge.{
  Edge, AcceptFailure, sender_left, deadline_exceeded, accept_failed, answer, request_of,
  serve_source, serve_entry, serve_http,
}
use lawang.Ingress.Answers.{
  IsHarmless, IsOwn, not_found-IsOwn, internal_error-IsOwn, try_again-IsOwn, read_body-cases,
  write_reply-IsOwn,
}

module _ {S : Type 0} (edge : Edge S) where
  -- The edge answered by itself, and what the hub keeps is as it was.
  abbrev pub IsUntouched : S → Option Response → S → Type 0
  IsUntouched s o t =
      (t ≡ s) × ((resp : Response) → o ≡ some resp → IsOwn edge.parse_media_type resp)

  -- The hub took the request with all of its body, and its verdict is the answer.
  abbrev pub IsAccepted : HttpRequest → S → Option Response → S → Type 0
  IsAccepted r s o t =
      (e : Entry) × (v : Verdict) × (lookup r.provider edge.registry ≡ some e)
      × (edge.hub e (request_of edge r r.stream) s ≡ ok (v, t))
      × (v ≡ no_verdict → ⊥)
      × (length r.stream ≤ edge.max_body)
      × (o ≡ some (respond (status_of v) (line (verdict_text v))))

  abbrev Outcome : HttpRequest → S → Option Response × S → Type 0
  Outcome r s x =
      IsUntouched s x.0 x.1
      ⊎ (IsAccepted r s x.0 x.1
          ⊎ ((e : Entry) × (lookup r.provider edge.registry ≡ some e)
              × (edge.hub e (request_of edge r r.stream) s ≡ ok (no_verdict, x.1))
              × (x.0 ≡ some internal_error)))

  untouched :
      (r : HttpRequest) (s : S) (resp : Response)
      → IsOwn edge.parse_media_type resp
      → Outcome r s (some resp, s)
  untouched r s resp own =
      inl (refl, λ other e. let same_answer : resp ≡ other = ground arith in rw (← same_answer) own)

  answer-Outcome :
      (e : Entry) (r : HttpRequest) (s : S)
      → lookup r.provider edge.registry ≡ some e
      → length r.stream ≤ edge.max_body
      → (x : Result AcceptFailure (Verdict × S)) → edge.hub e (request_of edge r r.stream) s ≡ x
      → Outcome r s (answer edge x s)
  unfolding answer status_of
  answer-Outcome e r s known l (err sender_left) h = inl (refl, λ resp q. absurd cc)
  answer-Outcome e r s known l (err deadline_exceeded) h =
      untouched r s _ (try_again-IsOwn edge.parse_media_type)
  answer-Outcome e r s known l (err accept_failed) h =
      untouched r s _ (internal_error-IsOwn edge.parse_media_type)
  answer-Outcome e r s known l (ok (no_verdict, t)) h = inr (inr (e, known, h, refl))
  answer-Outcome e r s known l (ok (stored, t)) h =
      inr (inl (e, stored, known, h, (λ q. absurd cc), l, refl))
  answer-Outcome e r s known l (ok (duplicate, t)) h =
      inr (inl (e, duplicate, known, h, (λ q. absurd cc), l, refl))
  answer-Outcome e r s known l (ok (parked, t)) h =
      inr (inl (e, parked, known, h, (λ q. absurd cc), l, refl))
  answer-Outcome e r s known l (ok (unverified, t)) h =
      inr (inl (e, unverified, known, h, (λ q. absurd cc), l, refl))

  serve_source-Outcome :
      (e : Entry) (source : Source) (r : HttpRequest) (s : S)
      → lookup r.provider edge.registry ≡ some e
      → Outcome r s (serve_source edge e source r s)
  unfolding serve_source
  serve_source-Outcome e source r s known =
      elim (read_body-cases edge.parse_media_type edge.max_body r) [
        | inr (resp, k, own) ↦ rw (k, serve_source) (untouched r s resp own)
        | inl (k, l) ↦ elim (Option-cases (source.handshake r r.stream)) [
          | inr (reply, q) ↦
              rw (k, q, serve_source)
                (untouched r s (write_reply edge.parse_media_type reply)
                  (write_reply-IsOwn edge.parse_media_type reply))
          | inl q ↦ rw (k, q, serve_source) (answer-Outcome e r s known l _ refl)
        ]
      ]

  pub serve_http-Outcome : (r : HttpRequest) (s : S) → Outcome r s (serve_http edge r s)
  unfolding serve_http serve_entry
  serve_http-Outcome r s = elim (Option-cases (lookup r.provider edge.registry)) [
    | inl k ↦
        let unknown : serve_http edge r s ≡ (some not_found, s) = rw (serve_http, k) refl in
        subst (Outcome r s) (sym unknown)
          (untouched r s not_found (not_found-IsOwn edge.parse_media_type))
    | inr (e, k) ↦ elim (Option-cases e.source) [
      | inl n ↦
          let no_source : serve_http edge r s ≡ (some not_found, s) =
            rw (serve_http, k, serve_entry, n) refl in
          subst (Outcome r s) (sym no_source)
            (untouched r s not_found (not_found-IsOwn edge.parse_media_type))
      | inr (source, n) ↦
          let served : serve_http edge r s ≡ serve_source edge e source r s =
            ground (arith, k, n) in
          subst (Outcome r s) (sym served) (serve_source-Outcome e source r s k)
    ]
  ]

status_of-unverified : (v : Verdict) → status_of v ≡ 401 → v ≡ unverified
unfolding status_of
status_of-unverified unverified e = refl
status_of-unverified stored e = absurd (omega arith)
status_of-unverified duplicate e = absurd (omega arith)
status_of-unverified parked e = absurd (omega arith)
status_of-unverified no_verdict e = absurd (omega arith)

-- Whatever hub stands behind it, the edge answers 401 only to a request of a registered provider
-- whose whole body the hub took and found unverified: neither a handshake nor a failure is
-- answered so.
pub only_the_hub_refuses :
    {S : Type 0} (edge : Edge S) (r : HttpRequest) (s t : S) (resp : Response)
    → serve_http edge r s ≡ (some resp, t)
    → resp.status ≡ 401
    → (e : Entry) × (lookup r.provider edge.registry ≡ some e)
      × (edge.hub e (request_of edge r r.stream) s ≡ ok (unverified, t))
unfolding respond internal_error
only_the_hub_refuses edge r s t resp h q =
    elim (subst (Outcome edge r s) h (serve_http-Outcome edge r s)) [
      | inl (still, own) ↦ absurd ((own resp refl).1 q)
      | inr (inl (e, v, known, run, real, l, said)) ↦
          let answered : respond (status_of v) (line (verdict_text v)) ≡ resp = ground arith in
          let refused : v ≡ unverified =
            status_of-unverified v (ap (λ (x : Response). x.status) answered ∙ q) in
          (e, known, rw refused at run)
      | inr (inr (e, known, run, said)) ↦
          let answered : internal_error ≡ resp = ground arith in
          absurd (let wrong = ap (λ (x : Response). x.status) answered ∙ q in omega arith)
    ]

-- What the hub keeps changes only where the hub takes the request.
pub changes_go_through_the_hub :
    {S : Type 0} (edge : Edge S) (r : HttpRequest) (s t : S) (o : Option Response)
    → serve_http edge r s ≡ (o, t)
    → (t ≡ s)
      ⊎ ((e : Entry) × (v : Verdict) × (lookup r.provider edge.registry ≡ some e)
          × (edge.hub e (request_of edge r r.stream) s ≡ ok (v, t)))
changes_go_through_the_hub edge r s t o h =
    elim (subst (Outcome edge r s) h (serve_http-Outcome edge r s)) [
      | inl (still, own) ↦ inl still
      | inr (inl (e, v, known, run, real, l, said)) ↦ inr (e, v, known, run)
      | inr (inr (e, known, run, said)) ↦ inr (e, no_verdict, known, run)
    ]

respond-verdict :
    (parse : Text → Option (Text × List (Text × Text))) (v : Verdict)
    → (v ≡ no_verdict → ⊥)
    → IsHarmless parse (respond (status_of v) (line (verdict_text v)))
unfolding respond status_of
respond-verdict parse no_verdict n = absurd (n refl)
respond-verdict parse stored n = (inl (omega arith, omega arith), inl refl, omega arith)
respond-verdict parse duplicate n = (inl (omega arith, omega arith), inl refl, omega arith)
respond-verdict parse parked n = (inl (omega arith, omega arith), inl refl, omega arith)
respond-verdict parse unverified n = (inr (omega arith, omega arith), inl refl, omega arith)

-- Each answer of the edge has a status from 200 to 299 or from 400 to 503, so it is no redirect;
-- its type is plain text or one that a handshake may use; and its body has at most 8192 bytes.
pub answers-IsHarmless :
    {S : Type 0} (edge : Edge S) (r : HttpRequest) (s t : S) (resp : Response)
    → serve_http edge r s ≡ (some resp, t)
    → IsHarmless edge.parse_media_type resp
answers-IsHarmless edge r s t resp h =
    elim (subst (Outcome edge r s) h (serve_http-Outcome edge r s)) [
      | inl (still, own) ↦ (own resp refl).0
      | inr (inl (e, v, known, run, real, l, said)) ↦
          let answered : respond (status_of v) (line (verdict_text v)) ≡ resp = ground arith in
          rw (← answered) (respond-verdict edge.parse_media_type v real)
      | inr (inr (e, known, run, said)) ↦
          let answered : internal_error ≡ resp = ground arith in
          rw (← answered) (internal_error-IsOwn edge.parse_media_type).0
    ]
