-- ===== src/Pipeline/Mask/Woven.antt =====
-- What stands where in the text that internal/pipeline/mask.go's apply answers.
use lawang.Prelude.{
  ◌∙◌, zero, suc, ap, sym, ℕ, ◌≡◌, ◌≤◌, ◌-◌, ◌+◌, ◌⊎◌, inl, inr, List, [], ◌∷◌, ◌++◌, Bool-cases,
  ltb, In, arith, length, refl, Option, some, Option-cases, Result-cases, take, drop, Text, ok,
}
use lawang.Pipeline.Mask.{
  Span, FoundSecret, slice, find_secrets, token_for, rune_count, replace_from, fit, apply,
}
use lawang.Pipeline.Mask.Apart.{
  IsApart, IsStretch, AreMatches, find_secrets-IsApart, find_secrets-IsStretch,
}
use lawang.Pipeline.Mask.Tokens.{slice-drop}

-- `gap`, then by turns one of `xs` and one of `gaps`.
abbrev pub weave : Text → List Text → List Text → Text
weave gap [] gaps = gap
weave gap (x ∷ xs) [] = gap ++ x
weave gap (x ∷ xs) (g ∷ gs) = gap ++ (x ++ weave g xs gs)

-- The gaps are what lies between the spans, where the first one begins at the byte `at`.
abbrev pub AreGaps : ℕ → List Span → Text → List Text → Type 0
AreGaps at [] gap [] = Unit
AreGaps at [] gap (g ∷ gs) = ⊥
AreGaps at (c ∷ cs) gap [] = ⊥
AreGaps at (c ∷ cs) gap (g ∷ gs) = (at + length gap ≡ c.start) × AreGaps c.end cs g gs

-- `ts` are the tokens of the spans' secrets.
abbrev pub AreTokens : (FoundSecret → Option Text) → List Span → List Text → Type 0
AreTokens tokens [] [] = Unit
AreTokens tokens [] (t ∷ ts) = ⊥
AreTokens tokens (c ∷ cs) [] = ⊥
AreTokens tokens (c ∷ cs) (t ∷ ts) = (token_for tokens c.secret ≡ some t) × AreTokens tokens cs ts

abbrev pub values_of : List Span → List Text
values_of [] = []
values_of (c ∷ cs) = c.secret.value ∷ values_of cs

length-slice : (s : Text) (a b : ℕ) → a ≤ b → b ≤ length s → a + length (slice s a b) ≡ b
length-slice s a b h l = omega (arith, length-take_drop (b - a) a s (omega arith))
  where
    length-take_drop : (n a : ℕ) (s : Text) → a + n ≤ length s → length (take n (drop a s)) ≡ n
    length-take_drop zero a s p = refl
    length-take_drop (suc n) a [] p = absurd (omega arith)
    length-take_drop (suc n) zero (x ∷ s) p = omega (arith, length-take_drop n zero s (omega arith))
    length-take_drop (suc n) (suc a) (x ∷ s) p = length-take_drop (suc n) a s (omega arith)

-- The text `out` is the text `from` with the token of each span in place of its value.
abbrev pub IsMasked : (FoundSecret → Option Text) → List Span → ℕ → Text → Text → Type 0
IsMasked tokens ss at from out =
    (first : Text) × (gaps : List Text) × (ts : List Text) × AreGaps at ss first gaps
    × AreTokens tokens ss ts
    × (from ≡ weave first (values_of ss) gaps)
    × (out ≡ weave first ts gaps)

replace_from-IsMasked :
    (field : Text) (tokens : FoundSecret → Option Text) (s : Text) (at : ℕ) (ss : List Span)
    (out : Text)
    → IsApart (length s) at ss
    → ((c : Span) → In c ss → IsStretch s c)
    → replace_from field tokens s at ss ≡ ok out
    → IsMasked tokens ss at (drop at s) out
unfolding replace_from
replace_from-IsMasked field tokens s at [] out a v h =
    (drop at s, [], [], tt, tt, refl, ground arith)
replace_from-IsMasked field tokens s at (c ∷ cs) out a v h =
    elim (Option-cases (token_for tokens c.secret)) [
      | inl n ↦ absurd (ground (arith, n))
      | inr (t, k) ↦ elim (Result-cases (replace_from field tokens s c.end cs)) [
        | inl (e, r) ↦ absurd (ground (arith, k, r))
        | inr (rest, r) ↦
            let (g, gs, ts, cut, are, there, here) =
              replace_from-IsMasked field tokens s c.end cs rest a.2 (λ x m. v x (inr m)) r in
            let (lt, le, e) = v c (inl refl) in
            let ended : slice s at c.start ++ (t ++ rest) ≡ out = ground (arith, k, r) in
            let join : slice s at c.start ++ (c.secret.value ++ drop c.end s) ≡ drop at s =
              ap (λ z. slice s at c.start ++ z)
                (ap (λ z. z ++ drop c.end s) e ∙ slice-drop s c.start c.end (omega (arith, lt)))
              ∙ slice-drop s at c.start a.0 in
            (
              slice s at c.start,
              g ∷ gs,
              t ∷ ts,
              (length-slice s at c.start a.0 (omega (arith, lt, le)), cut),
              (k, are),
              sym join ∙ ap (λ z. slice s at c.start ++ (c.secret.value ++ z)) there,
              sym ended ∙ ap (λ z. slice s at c.start ++ (t ++ z)) here,
            )
      ]
    ]

-- What apply answers is what its loop answers.
apply-loop :
    (s field : Text) (tokens : FoundSecret → Option Text) (max_chars : ℕ) (ss : List Span)
    (out : Text)
    → apply (record { text = s; spans = ss }) field tokens max_chars ≡ ok out
    → (replace_from field tokens s 0 ss ≡ ok out) × ((ss ≡ []) ⊎ (rune_count out ≤ max_chars))
unfolding apply replace_from fit
apply-loop s field tokens max_chars [] out h = (h, inl refl)
apply-loop s field tokens max_chars (x ∷ xs) out h =
    elim (Result-cases (replace_from field tokens s 0 (x ∷ xs))) [
      | inl (e, k) ↦ absurd (ground (arith, k))
      | inr (u, k) ↦ elim (Bool-cases (ltb max_chars (rune_count u))) [
        | inl b ↦ absurd (ground (arith, k, b))
        | inr b ↦
            let same_text : u ≡ out = ground (arith, k, b) in
            rw (← same_text) (k, inr (ground (arith, b)))
      ]
    ]

-- What apply answers for a text whose matches are stretches of it: the text is the gaps between
-- its spans with their values, and the answer is the same gaps in their order with the token of
-- each span in place of its value, within the limit unless there is no span.
pub masking_replaces_the_spans :
    (email_re iban_re phone_re : Text → List (ℕ × ℕ)) (s field : Text)
    (tokens : FoundSecret → Option Text) (max_chars : ℕ) (out : Text)
    → AreMatches email_re iban_re phone_re s
    → apply (find_secrets email_re iban_re phone_re s) field tokens max_chars ≡ ok out
    → IsMasked tokens (find_secrets email_re iban_re phone_re s).spans 0 s out
      × (((find_secrets email_re iban_re phone_re s).spans ≡ []) ⊎ (rune_count out ≤ max_chars))
unfolding find_secrets
masking_replaces_the_spans email_re iban_re phone_re s field tokens max_chars out m h =
    let scan = find_secrets email_re iban_re phone_re s in
    let (loop, small) = apply-loop s field tokens max_chars scan.spans out h in
    (
      replace_from-IsMasked field tokens s 0 scan.spans out
          (find_secrets-IsApart email_re iban_re phone_re s m)
          (find_secrets-IsStretch email_re iban_re phone_re s m) loop,
      small,
    )
