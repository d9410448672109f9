-- ===== src/Pipeline/Mask/Tokens.antt =====
-- What internal/pipeline/mask.go's apply does with the spans of a text and the tokens it is given.
use lawang.Prelude.{
  ◌∙◌, subst, take-drop_from, ℕ, ◌≡◌, ◌≤◌, ◌-◌, ◌⊎◌, inl, inr, List, [], ◌∷◌, ◌++◌, true,
  Bool-cases, ltb, In, arith, refl, Option, none, some, Option-cases, drop, Text, ok, err, any,
  text_eq→eq, any-eq_true,
}
use lawang.Pipeline.Mask.{
  Span, FoundSecret, SecretKind, email, phone, iban, TextScan, no_token, masked_too_long, slice,
  kind_eq, secret_eq, secrets, secrets_from, token_for, rune_count, replace_from, fit, apply,
}

-- A stretch of a text and what stands behind it.
pub slice-drop : (s : Text) (a b : ℕ) → a ≤ b → slice s a b ++ drop b s ≡ drop a s
slice-drop s a b h = take-drop_from (b - a) a b s (omega arith)

kind_eq→eq : (a b : SecretKind) → kind_eq a b ≡ true → a ≡ b
unfolding kind_eq
kind_eq→eq email email h = refl
kind_eq→eq phone phone h = refl
kind_eq→eq iban iban h = refl
kind_eq→eq email phone h = cc
kind_eq→eq email iban h = cc
kind_eq→eq phone email h = cc
kind_eq→eq phone iban h = cc
kind_eq→eq iban email h = cc
kind_eq→eq iban phone h = cc

secret_eq→eq : (a b : FoundSecret) → secret_eq a b ≡ true → a ≡ b
unfolding secret_eq
secret_eq→eq a b h =
    let k = kind_eq→eq a.kind b.kind (ground arith) in
    let v = text_eq→eq a.value b.value (ground arith) in cc

-- The secret of each span is given out, unless it was seen.
secrets_from-In :
    (seen : List FoundSecret) (ss : List Span) (c : Span)
    → In c ss
    → In c.secret seen ⊎ In c.secret (secrets_from seen ss)
unfolding secrets_from
secrets_from-In seen [] c m = absurd m
secrets_from-In seen (x ∷ xs) c m = elim (Bool-cases (any (secret_eq x.secret) seen)) [
  | inl e ↦ rw e (known m e (secrets_from-In seen xs c))
  | inr e ↦ rw e (fresh m (secrets_from-In (x.secret ∷ seen) xs c))
]
  where
    known :
        In c (x ∷ xs)
        → any (secret_eq x.secret) seen ≡ true
        → (In c xs → In c.secret seen ⊎ In c.secret (secrets_from seen xs))
        → In c.secret seen ⊎ In c.secret (secrets_from seen xs)
    known (inl q) e f =
        let (y, k, p) = any-eq_true (secret_eq x.secret) seen e in
        inl (rw q (rw (secret_eq→eq x.secret y p) k))
    known (inr n) e f = f n

    fresh :
        In c (x ∷ xs)
        → (In c xs
            → In c.secret (x.secret ∷ seen) ⊎ In c.secret (secrets_from (x.secret ∷ seen) xs))
        → In c.secret seen ⊎ In c.secret (x.secret ∷ secrets_from (x.secret ∷ seen) xs)
    fresh (inl q) f = inr (inl (rw q refl))
    fresh (inr n) f = elim (f n) [
      | inl (inl q) ↦ inr (inl q)
      | inl (inr k) ↦ inl k
      | inr k ↦ inr (inr k)
    ]

-- What apply answers for a text with spans, from what its loop answers.
apply-eq :
    (scan : TextScan) (field : Text) (tokens : FoundSecret → Option Text) (max_chars : ℕ)
    (out : Text)
    → replace_from field tokens scan.text 0 scan.spans ≡ ok out
    → ((scan.spans ≡ []) × (apply scan field tokens max_chars ≡ ok out))
      ⊎ (apply scan field tokens max_chars ≡ fit field max_chars out)
unfolding apply replace_from
apply-eq scan field tokens max_chars out h = go scan.spans h
  where
    go :
        (ss : List Span)
        → replace_from field tokens scan.text 0 ss ≡ ok out
        → ((ss ≡ [])
            × (apply (record { text = scan.text; spans = ss }) field tokens max_chars ≡ ok out))
          ⊎ (apply (record { text = scan.text; spans = ss }) field tokens max_chars
              ≡ fit field max_chars out)
    go [] h = inl (refl, h)
    go (x ∷ xs) h = inr (rw (h, apply) refl)

replace_from-eq_ok :
    (field : Text) (tokens : FoundSecret → Option Text) (s : Text) (at : ℕ) (ss : List Span)
    → ((c : Span) → In c ss → (token : Text) × (token_for tokens c.secret ≡ some token))
    → (out : Text) × (replace_from field tokens s at ss ≡ ok out)
unfolding replace_from
replace_from-eq_ok field tokens s at [] h = (drop at s, refl)
replace_from-eq_ok field tokens s at (c ∷ cs) h =
    let (out, e) = replace_from-eq_ok field tokens s c.end cs (λ x m. h x (inr m)) in
    let (token, k) = h c (inl refl) in
    (slice s at c.start ++ (token ++ out), rw (k, replace_from) (rw e refl))

-- Once each of the secrets given out has a token, apply never misses one: it answers with a text
-- that keeps within the limit, or with some text where there is no span, or it says that the
-- masked text is too long.
pub tokens_of_secrets_suffice :
    (scan : TextScan) (field : Text) (tokens : FoundSecret → Option Text) (max_chars : ℕ)
    → ((f : FoundSecret) → In f (secrets scan) → (token : Text) × (token_for tokens f ≡ some token))
    → ((out : Text) × (apply scan field tokens max_chars ≡ ok out)
        × ((scan.spans ≡ []) ⊎ (rune_count out ≤ max_chars)))
      ⊎ (apply scan field tokens max_chars ≡ err (masked_too_long field))
unfolding secrets fit
tokens_of_secrets_suffice scan field tokens max_chars h =
    let (out, e) = replace_from-eq_ok field tokens scan.text 0 scan.spans (λ c m.
      elim (secrets_from-In [] scan.spans c m) [ inl n ↦ absurd n | inr n ↦ h c.secret n ]) in
    elim (apply-eq scan field tokens max_chars out e) [
      | inl k ↦ inl (out, k.1, inl k.0)
      | inr k ↦ elim (Bool-cases (ltb max_chars (rune_count out))) [
        | inl b ↦ inr (k ∙ rw (b, fit) refl)
        | inr b ↦ inl (out, k ∙ rw (b, fit) refl, inr (ground arith))
      ]
    ]

replace_from-eq_err :
    (field : Text) (tokens : FoundSecret → Option Text) (s : Text) (at : ℕ) (ss : List Span)
    (c : Span)
    → In c ss
    → token_for tokens c.secret ≡ none
    → (kind : SecretKind) × (replace_from field tokens s at ss ≡ err (no_token kind field))
unfolding replace_from
replace_from-eq_err field tokens s at [] c m h = absurd m
replace_from-eq_err field tokens s at (x ∷ xs) c (inl q) h =
    (x.secret.kind, rw (subst (λ z. token_for tokens z.secret ≡ none) q h, replace_from) refl)
replace_from-eq_err field tokens s at (x ∷ xs) c (inr m) h =
    let (kind, e) = replace_from-eq_err field tokens s x.end xs c m h in
    elim (Option-cases (token_for tokens x.secret)) [
      | inl n ↦ (x.secret.kind, rw (n, replace_from) refl)
      | inr (t, k) ↦ (kind, rw (k, replace_from) (rw e refl))
    ]

-- A span whose secret has no token, or an empty one, makes apply fail with a missing token:
-- nothing is left in place.
pub missing_token_fails :
    (scan : TextScan) (field : Text) (tokens : FoundSecret → Option Text) (max_chars : ℕ) (c : Span)
    → In c scan.spans
    → token_for tokens c.secret ≡ none
    → (kind : SecretKind) × (apply scan field tokens max_chars ≡ err (no_token kind field))
unfolding apply
missing_token_fails scan field tokens max_chars c m h =
    go scan.spans m (replace_from-eq_err field tokens scan.text 0 scan.spans c m h)
  where
    go :
        (ss : List Span)
        → In c ss
        → (kind : SecretKind) × (replace_from field tokens scan.text 0 ss
            ≡ err (no_token kind field))
        → (kind : SecretKind) × (apply
              (record { text = scan.text; spans = ss })
              field
              tokens
              max_chars
            ≡ err (no_token kind field))
    go [] m k = absurd m
    go (x ∷ xs) m (kind, e) = (kind, rw (e, apply) refl)
