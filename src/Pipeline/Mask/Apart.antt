-- ===== src/Pipeline/Mask/Apart.antt =====
-- The spans of internal/pipeline/mask.go's findSecrets: in order, apart, and over every match.
use lawang.Prelude.{
  Bool, In-append, Text, ℕ, ◌≡◌, ◌≤◌, ◌<◌, ◌⊎◌, inl, inr, List, [], ◌∷◌, true, false, Bool-cases,
  ltb, In, arith, length, refl, if◌then◌else◌,
}
use lawang.Pipeline.Mask.{
  valid_phone, phone, valid_iban, iban, email, accepts, SecretKind, append_matches, slice, Span,
  insert_start, sort_start, keep_apart, find_secrets, candidates,
}

-- The spans follow each other from `at` on, none is turned around, and the last ends within `n`.
abbrev pub IsApart : ℕ → ℕ → List Span → Type 0
IsApart n at [] = at ≤ n
IsApart n at (s ∷ ss) = (at ≤ s.start) × (s.start ≤ s.end) × IsApart n s.end ss

-- Every span in `ss` ends within `n`, and is not turned around.
abbrev pub IsWithin : ℕ → List Span → Type 0
IsWithin n ss = (s : Span) → In s ss → (s.start ≤ s.end) × (s.end ≤ n)

pub keep_apart-IsApart :
    (n at : ℕ) (ss : List Span) → at ≤ n → IsWithin n ss → IsApart n at (keep_apart at ss)
unfolding keep_apart
keep_apart-IsApart n at [] h w = h
keep_apart-IsApart n at (s ∷ ss) h w = elim (Bool-cases (ltb s.start at)) [
  | inl e ↦ rw e (keep_apart-IsApart n at ss h (λ x m. w x (inr m)))
  | inr e ↦ rw e (
    ground arith,
    (w s (inl refl)).0,
    keep_apart-IsApart n s.end ss (w s (inl refl)).1 (λ x m. w x (inr m)),
  )
]

-- No span begins before one that stands earlier.
abbrev IsSorted : List Span → Type 0
IsSorted [] = Unit
IsSorted (s ∷ ss) = ((x : Span) → In x ss → s.start ≤ x.start) × IsSorted ss

In-insert_start : (x y : Span) (ss : List Span) → In y (insert_start x ss) → (y ≡ x) ⊎ In y ss
unfolding insert_start
In-insert_start x y [] (inl e) = inl e
In-insert_start x y [] (inr m) = absurd m
In-insert_start x y (z ∷ zs) m = ground (arith, In-insert_start x y zs)

In-insert_start_of : (x y : Span) (ss : List Span) → (y ≡ x) ⊎ In y ss → In y (insert_start x ss)
unfolding insert_start
In-insert_start_of x y [] m = m
In-insert_start_of x y (z ∷ zs) m = ground (arith, In-insert_start_of x y zs)

after-insert :
    (x y z : Span) (zs : List Span)
    → ((u : Span) → In u zs → z.start ≤ u.start)
    → ltb z.start x.start ≡ true
    → In y (insert_start x zs)
    → z.start ≤ y.start
after-insert x y z zs h e m = elim (In-insert_start x y zs m) [
  | inl q ↦ rw q (ground arith)
  | inr m' ↦ h y m'
]

after-head :
    (x y z : Span) (zs : List Span)
    → ((u : Span) → In u zs → z.start ≤ u.start)
    → ltb z.start x.start ≡ false
    → In y (z ∷ zs)
    → x.start ≤ y.start
after-head x y z zs h e (inl q) = rw q (ground arith)
after-head x y z zs h e (inr m) = let k = h y m in ground arith

insert_start-IsSorted : (x : Span) (ss : List Span) → IsSorted ss → IsSorted (insert_start x ss)
unfolding insert_start
insert_start-IsSorted x [] h = (λ y m. absurd m, tt)
insert_start-IsSorted x (z ∷ zs) h = elim (Bool-cases (ltb z.start x.start)) [
  | inl e ↦ rw e (λ y m. after-insert x y z zs h.0 e m, insert_start-IsSorted x zs h.1)
  | inr e ↦ rw e (λ y m. after-head x y z zs h.0 e m, h)
]

pub sort_start-In : (y : Span) (ss : List Span) → In y (sort_start ss) → In y ss
unfolding sort_start
sort_start-In y [] m = m
sort_start-In y (x ∷ xs) m = elim (In-insert_start x y (sort_start xs) m) [
  | inl e ↦ inl e
  | inr m' ↦ inr (sort_start-In y xs m')
]

pub sort_start-In_of : (y : Span) (ss : List Span) → In y ss → In y (sort_start ss)
unfolding sort_start
sort_start-In_of y [] m = m
sort_start-In_of y (x ∷ xs) (inl e) = In-insert_start_of x y (sort_start xs) (inl e)
sort_start-In_of y (x ∷ xs) (inr m) =
    In-insert_start_of x y (sort_start xs) (inr (sort_start-In_of y xs m))

sort_start-IsSorted : (ss : List Span) → IsSorted (sort_start ss)
unfolding sort_start
sort_start-IsSorted [] = tt
sort_start-IsSorted (x ∷ xs) = insert_start-IsSorted x (sort_start xs) (sort_start-IsSorted xs)

-- `c` begins inside one of `ss`.
abbrev pub IsCovered : ℕ → List Span → Type 0
IsCovered at ss = (s : Span) × In s ss × (s.start ≤ at) × (at < s.end)

keep_apart-IsCovered :
    (at : ℕ) (ss : List Span)
    → IsSorted ss
    → ((s : Span) → In s ss → s.start < s.end)
    → (c : Span) → In c ss
    → (c.start < at) ⊎ IsCovered c.start (keep_apart at ss)
unfolding keep_apart
keep_apart-IsCovered at [] h w c m = absurd m
keep_apart-IsCovered at (s ∷ ss) h w c m = elim (Bool-cases (ltb s.start at)) [
  | inl e ↦ rw e (skipped _ m (keep_apart-IsCovered at ss h.1 (λ x n. w x (inr n)) c) e)
  | inr e ↦ rw e (kept _ m (keep_apart-IsCovered s.end ss h.1 (λ x n. w x (inr n)) c))
]
  where
    skipped :
        (rest : List Span)
        → In c (s ∷ ss)
        → (In c ss → (c.start < at) ⊎ IsCovered c.start rest)
        → ltb s.start at ≡ true
        → (c.start < at) ⊎ IsCovered c.start rest
    skipped rest (inl q) f e = inl (rw q (ground arith))
    skipped rest (inr n) f e = f n

    kept :
        (rest : List Span)
        → In c (s ∷ ss)
        → (In c ss → (c.start < s.end) ⊎ IsCovered c.start rest)
        → (c.start < at) ⊎ IsCovered c.start (s ∷ rest)
    kept rest (inl q) f = inr (s, inl refl, rw q (omega arith), rw q (w s (inl refl)))
    kept rest (inr n) f = elim (f n) [
      | inl q ↦ inr (s, inl refl, h.0 c n, q)
      | inr (x, k, le, lt) ↦ inr (x, inr k, le, lt)
    ]

-- What `FindAllStringIndex` gives of a pattern that matches no empty text: stretches of the text.
abbrev pub IsMatches : Text → List (ℕ × ℕ) → Type 0
IsMatches s ms = (m : ℕ × ℕ) → In m ms → (m.0 < m.1) × (m.1 ≤ length s)

-- A span that stands for a stretch of the text.
abbrev pub IsStretch : Text → Span → Type 0
IsStretch s c = (c.start < c.end) × (c.end ≤ length s) × (c.secret.value ≡ slice s c.start c.end)

In-cons_if :
    (b : Bool) (c x : Span) (xs : List Span) → In c (if b then x ∷ xs else xs) → (c ≡ x) ⊎ In c xs
In-cons_if true c x xs m = m
In-cons_if false c x xs m = inr m

In-if_cons :
    (b : Bool) (c x : Span) (xs : List Span) → In c (if b then xs else x ∷ xs) → (c ≡ x) ⊎ In c xs
In-if_cons true c x xs m = inr m
In-if_cons false c x xs m = m

append_matches-IsStretch :
    (s : Text) (ms : List (ℕ × ℕ)) (kind : SecretKind) (test : Text → Bool) (bounded : Bool)
    → IsMatches s ms
    → (c : Span) → In c (append_matches s ms kind test bounded)
    → IsStretch s c
unfolding append_matches
append_matches-IsStretch s [] kind test bounded h c m = absurd m
append_matches-IsStretch s ((a, b) ∷ ms) kind test bounded h c m =
    elim (In-cons_if (accepts s test bounded a b) c _ (append_matches s ms kind test bounded) m) [
      | inl q ↦ rw q ((h (a, b) (inl refl)).0, (h (a, b) (inl refl)).1, refl)
      | inr n ↦ append_matches-IsStretch s ms kind test bounded (λ x k. h x (inr k)) c n
    ]

keep_apart-In : (at : ℕ) (ss : List Span) (c : Span) → In c (keep_apart at ss) → In c ss
unfolding keep_apart
keep_apart-In at [] c m = m
keep_apart-In at (x ∷ xs) c m = elim (In-if_cons (ltb x.start at) c x _ m) [
  | inl q ↦ inl q
  | inr n ↦ inr (keep_apart-In (if ltb x.start at then at else x.end) xs c n)
]

module _ (email_re iban_re phone_re : Text → List (ℕ × ℕ)) (s : Text) where
  -- The three patterns give matches of the text.
  abbrev pub AreMatches : Type 0
  AreMatches = IsMatches s (email_re s) × IsMatches s (iban_re s) × IsMatches s (phone_re s)

  candidates-IsStretch :
      AreMatches → (c : Span) → In c (candidates email_re iban_re phone_re s) → IsStretch s c
  unfolding candidates
  candidates-IsStretch h c m =
      elim (In-append c (append_matches s (email_re s) email (λ _. true) false) _ m) [
        | inl n ↦ append_matches-IsStretch s (email_re s) email (λ _. true) false h.0 c n
        | inr n ↦ elim (In-append c (append_matches s (iban_re s) iban valid_iban true) _ n) [
          | inl k ↦ append_matches-IsStretch s (iban_re s) iban valid_iban true h.1 c k
          | inr k ↦ append_matches-IsStretch s (phone_re s) phone valid_phone true h.2 c k
        ]
      ]

  -- Each span stands for a stretch of the text.
  pub find_secrets-IsStretch :
      AreMatches
      → (c : Span) → In c (find_secrets email_re iban_re phone_re s).spans
      → IsStretch s c
  unfolding find_secrets
  find_secrets-IsStretch h c m =
      candidates-IsStretch h c (sort_start-In c _ (keep_apart-In 0 _ c m))

  -- Where the matches are stretches of the text, the spans follow each other, apart and within the
  -- text.
  pub find_secrets-IsApart :
      AreMatches → IsApart (length s) 0 (find_secrets email_re iban_re phone_re s).spans
  unfolding find_secrets
  find_secrets-IsApart h =
      keep_apart-IsApart (length s) 0 (sort_start (candidates email_re iban_re phone_re s))
        (omega arith)
        λ x m. let k = candidates-IsStretch h x (sort_start-In x _ m) in (omega (arith, k.0), k.1)

  -- Where the matches are stretches of the text, every match that passes its tests begins inside a
  -- span that is replaced.
  pub find_secrets-IsCovered :
      AreMatches
      → (c : Span) → In c (candidates email_re iban_re phone_re s)
      → IsCovered c.start (find_secrets email_re iban_re phone_re s).spans
  unfolding find_secrets
  find_secrets-IsCovered h c m =
      elim (keep_apart-IsCovered 0 (sort_start (candidates email_re iban_re phone_re s))
        (sort_start-IsSorted (candidates email_re iban_re phone_re s))
        (λ x n. (candidates-IsStretch h x (sort_start-In x _ n)).0) c (sort_start-In_of c _ m)) [
          | inl q ↦ absurd (omega arith)
          | inr k ↦ k
        ]
