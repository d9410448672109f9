-- ===== src/Ingress/Answers.antt =====
-- What the answers of internal/ingress/ingress.go say.
use lawang.Prelude.{
  ℕ, ◌≡◌, ◌≤◌, ◌<◌, true, ◌&&◌, ◌||◌, Bool-cases, List, Option, Option-cases, inl, inr, ◌⊎◌, leb,
  ltb, ◌==◌, length, Text, Result, ok, err, arith, refl, sym, subst, text,
}
use lawang.Provider.{HttpRequest, Reply}
use lawang.Ingress.{
  Response, respond, not_found, internal_error, try_again, read_body, read_stream, too_large,
  unreadable_body, not_found_body, write_reply, line, handshake_status,
  valid_handshake_content_type, content_type_text, max_reply_body, or_ok, or_text,
}

module _ (parse : Text → Option (Text × List (Text × Text))) where
  -- The edge's own words, or what a handshake may say: no redirect, no challenge for credentials, and
  -- no type that is not in the list.
  abbrev pub IsHarmless : Response → Type 0
  IsHarmless resp =
      ((200 ≤ resp.status × resp.status < 300) ⊎ (400 ≤ resp.status × resp.status ≤ 503))
      × ((resp.content_type ≡ content_type_text)
          ⊎ (valid_handshake_content_type parse resp.content_type ≡ true))
      × (length resp.body ≤ max_reply_body)

  respond-IsHarmless :
      (status : ℕ) (msg : Text)
      → 400 ≤ status
      → status ≤ 503
      → length msg ≤ max_reply_body
      → IsHarmless (respond status msg)
  unfolding respond
  respond-IsHarmless status msg a b l = (inr (a, b), inl refl, l)

  -- What the edge answers without the hub.
  abbrev pub IsOwn : Response → Type 0
  IsOwn resp = IsHarmless resp × (resp.status ≡ 401 → ⊥)

  respond-IsOwn :
      (status : ℕ) (msg : Text)
      → 400 ≤ status
      → status ≤ 503
      → (status ≡ 401 → ⊥)
      → length msg ≤ max_reply_body
      → IsOwn (respond status msg)
  unfolding respond
  respond-IsOwn status msg a b n l = (respond-IsHarmless status msg a b l, n)

  pub not_found-IsOwn : IsOwn not_found
  unfolding not_found respond
  not_found-IsOwn =
      respond-IsOwn 404 not_found_body (omega arith) (omega arith) (λ e. absurd (omega arith))
        (omega arith)

  pub internal_error-IsOwn : IsOwn internal_error
  unfolding internal_error respond
  internal_error-IsOwn =
      respond-IsOwn 500 (line (text "error")) (omega arith) (omega arith)
        (λ e. absurd (omega arith)) (omega arith)

  pub try_again-IsOwn : IsOwn try_again
  unfolding try_again respond
  try_again-IsOwn =
      ((inr (omega arith, omega arith), inl refl, omega arith), λ e. absurd (omega arith))

  too_large-IsOwn : IsOwn too_large
  unfolding too_large respond
  too_large-IsOwn =
      respond-IsOwn 413 (line (text "body too large")) (omega arith) (omega arith)
        (λ e. absurd (omega arith)) (omega arith)

  unreadable_body-IsOwn : IsOwn unreadable_body
  unfolding unreadable_body respond
  unreadable_body-IsOwn =
      respond-IsOwn 400 (line (text "body could not be read")) (omega arith) (omega arith)
        (λ e. absurd (omega arith)) (omega arith)

  abbrev IsReadOr : ℕ → HttpRequest → Result Response Text → Type 0
  IsReadOr max_body r outcome =
      ((outcome ≡ ok r.stream) × (length r.stream ≤ max_body))
      ⊎ ((resp : Response) × (outcome ≡ err resp) × IsOwn resp)

  read_stream-cases :
      (max_body : ℕ) (r : HttpRequest) → IsReadOr max_body r (read_stream max_body r)
  unfolding read_stream
  read_stream-cases max_body r = elim (Bool-cases (ltb max_body (length r.stream))) [
    | inl l ↦ inr (too_large, ground (arith, l), too_large-IsOwn)
    | inr l ↦ elim (Bool-cases r.fails) [
      | inl f ↦ inr (unreadable_body, ground (arith, l, f), unreadable_body-IsOwn)
      | inr f ↦ inl (ground (arith, l, f), ground (arith, l))
    ]
  ]

  pub read_body-cases :
      (max_body : ℕ) (r : HttpRequest) → IsReadOr max_body r (read_body max_body r)
  unfolding read_body read_stream
  read_body-cases max_body r = elim (Option-cases r.content_length) [
    | inl n ↦
        subst (IsReadOr max_body r) (sym (rw (read_body, n) refl)) (read_stream-cases max_body r)
    | inr (n, k) ↦ elim (Bool-cases (ltb max_body n)) [
      | inl l ↦ inr (too_large, rw (read_body, k, l) refl, too_large-IsOwn)
      | inr l ↦
          subst (IsReadOr max_body r) (sym (rw (read_body, k, l) refl))
            (read_stream-cases max_body r)
    ]
  ]

  handshake_status_lem :
      (status : ℕ)
      → handshake_status status ≡ true
      → ((200 ≤ status × status < 300) ⊎ (400 ≤ status × status ≤ 503)) × (status ≡ 401 → ⊥)
  unfolding handshake_status
  handshake_status_lem status h = elim (Bool-cases (status == 401 || status == 403)) [
    | inl e ↦ absurd (ground (arith, e))
    | inr e ↦ elim (Bool-cases (leb 200 status && ltb status 300)) [
      | inl k ↦ (inl (ground (arith, k), ground (arith, k)), λ q. ground (arith, e, q))
      | inr k ↦
          let last : (leb 400 status && ltb status 500) ≡ true = ground (arith, e, k) in
          (inr (ground (arith, last), ground (arith, last)), λ q. ground (arith, e, q))
    ]
  ]

  pub write_reply-IsOwn : (reply : Reply) → IsOwn (write_reply parse reply)
  unfolding write_reply
  write_reply-IsOwn reply = elim (Bool-cases (handshake_status (or_ok reply.status))) [
    | inr e ↦ rw (e, write_reply) internal_error-IsOwn
    | inl e ↦ elim (Bool-cases (ltb max_reply_body (length reply.body))) [
      | inl l ↦ rw (e, l, write_reply) internal_error-IsOwn
      | inr l ↦
          elim (Bool-cases
            (valid_handshake_content_type parse (or_text reply.content_type content_type_text))) [
              | inr c ↦ rw (e, l, c, write_reply) internal_error-IsOwn
              | inl c ↦
                  let (harmless, open_to_all) = handshake_status_lem (or_ok reply.status) e in
                  rw (e, l, c, write_reply) ((harmless, inr c, ground (arith, l)), open_to_all)
            ]
    ]
  ]
