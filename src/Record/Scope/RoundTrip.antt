-- ===== src/Record/Scope/RoundTrip.antt =====
-- ScopeID and ParseScopeID of internal/record/scope.go undo each other.
use mathlib.Core.List.{append_assoc}
use lawang.Prelude.{
  ltb-eq_false, ℕ, ◌≡◌, ◌+◌, ◌<◌, ◌≤◌, true, false, ◌&&◌, not, Bool-cases, [], ◌∷◌, ◌++◌, some, ltb,
  ◌==◌, length, length-append, any-eq_false, In, inl, inr, Text, ok, Result-cases, arith, refl, ◌∙◌,
  ap,
}
use lawang.Record.Names.{valid_name, name_char, is_lower, valid_provider_key, max_kind}
use lawang.Record.Scope.{
  unreserved, control, escape, escape_all, check_escapes, unescape, max_scope_id, cut_colon,
  scope_prefix, scope_id, parse_scope_id, check_scope_id, check_provider, check_kind,
  check_container, is_blank,
}
use lawang.Record.Scope.Escapes.{check_escapes-escape}

-- What a Go string holds.
abbrev pub IsBytes : Text → Type 0
IsBytes s = (b : ℕ) → In b s → b < 256

escape-length : (c : ℕ) → 1 ≤ length (escape c)
unfolding escape
escape-length c = elim (Bool-cases (unreserved c)) [
  | inl e ↦ rw e (omega arith)
  | inr e ↦ rw e (omega arith)
]

-- The loop of ScopeID stays within the limit, and what it writes is read back.
pub escape_all_read :
    (written : ℕ) (cs enc : Text)
    → IsBytes cs
    → written ≤ max_scope_id
    → escape_all written cs ≡ ok enc
    → (check_escapes enc ≡ true)
      × (unescape enc ≡ cs)
      × (written + length enc ≤ max_scope_id)
      × (length cs ≤ length enc)
unfolding escape_all check_escapes unescape
escape_all_read written [] enc b w h =
    let nothing : enc ≡ [] = ground arith in rw nothing (refl, refl, omega arith, omega arith)
escape_all_read written (c ∷ cs) enc b w h = elim (Bool-cases (not (unreserved c) && control c)) [
  | inl e ↦ absurd (ground (arith, e))
  | inr e ↦ elim (Bool-cases (ltb max_scope_id (written + length (escape c)))) [
    | inl l ↦ absurd (ground (arith, e, l))
    | inr l ↦ elim (Result-cases (escape_all (written + length (escape c)) cs)) [
      | inl (x, k) ↦ absurd (ground (arith, e, l, k))
      | inr (rest, k) ↦
          let whole : enc ≡ escape c ++ rest = ground (arith, e, l, k) in
          let (good, back, fits, longer) =
            escape_all_read (written + length (escape c)) cs rest (λ x m. b x (inr m))
              (ground (arith, l)) k in
          let (here, there) = check_escapes-escape c rest (b c (inl refl)) (ground (arith, e)) in
          let one = escape-length c in
          rw (whole, here, there, good, back, length-append (escape c) rest)
            (refl, refl, omega arith, omega arith)
    ]
  ]
]

cut_colon-append :
    (s rest : Text)
    → ((b : ℕ) → In b s → (b == b':') ≡ false)
    → cut_colon (s ++ (b':' ∷ rest)) ≡ some (s, rest)
unfolding cut_colon
cut_colon-append [] rest h = refl
cut_colon-append (c ∷ cs) rest h =
    rw (h c (inl refl), cut_colon-append cs rest (λ b m. h b (inr m))) refl

name_char-colon : (c : ℕ) → name_char false c ≡ true → (c == b':') ≡ false
unfolding name_char is_lower
name_char-colon c h = ground arith

valid_name-colon :
    (s : Text)
    → valid_name max_kind false s ≡ true
    → ((b : ℕ) → In b s → (b == b':') ≡ false) × (length s ≤ max_kind)
unfolding valid_name is_lower
valid_name-colon [] h = absurd (ground arith)
valid_name-colon (c ∷ cs) h = (
  λ b m. elim m [
    | inl e ↦ rw e (ground arith)
    | inr n ↦
        name_char-colon b
          (ground (arith, any-eq_false (λ d. not (name_char false d)) cs b (ground arith) n))
  ],
  ground arith,
)

scope_prefix-length :
    (provider kind : Text)
    → valid_provider_key provider ≡ true
    → valid_name max_kind false kind ≡ true
    → length (scope_prefix provider kind) ≤ max_scope_id
unfolding valid_provider_key
scope_prefix-length provider kind p k = omega (
  arith,
  length-append provider (b':' ∷ (kind ++ b':' ∷ [])),
  length-append kind (b':' ∷ []),
  (valid_name-colon provider p).1,
  (valid_name-colon kind k).1,
)

is_blank-longer : (a b : Text) → is_blank a ≡ false → length a ≤ length b → is_blank b ≡ false
is_blank-longer [] b e l = absurd cc
is_blank-longer (x ∷ a) [] e l = absurd (omega arith)
is_blank-longer (x ∷ a) (y ∷ b) e l = refl

abbrev ParsesAs : Text → Text → Text → Text → Type 0
ParsesAs s provider kind container =
    parse_scope_id s
    ≡ ok (record { provider = provider; container_kind = kind; container_id = container })

-- A text of the three parts is taken apart at its two colons.
parse_scope_id-parts :
    (provider kind enc : Text)
    → valid_provider_key provider ≡ true
    → valid_name max_kind false kind ≡ true
    → is_blank enc ≡ false
    → check_escapes enc ≡ true
    → length (scope_prefix provider kind ++ enc) ≤ max_scope_id
    → ParsesAs (scope_prefix provider kind ++ enc) provider kind (unescape enc)
unfolding parse_scope_id check_scope_id check_provider check_kind check_container valid_provider_key
parse_scope_id-parts provider kind enc p k e g l =
    let shape : (scope_prefix provider kind ++ enc) ≡ provider ++ (b':' ∷ (kind ++ (b':' ∷ enc))) =
      append_assoc provider (b':' ∷ (kind ++ b':' ∷ [])) enc
      ∙ ap (λ z. provider ++ (b':' ∷ z)) (append_assoc kind (b':' ∷ []) enc) in
    let first : cut_colon (scope_prefix provider kind ++ enc)
        ≡ some (provider, kind ++ (b':' ∷ enc)) =
      rw shape (cut_colon-append provider (kind ++ (b':' ∷ enc)) (valid_name-colon provider p).0) in
    let second = cut_colon-append kind enc (valid_name-colon kind k).0 in
    let last : check_container provider kind enc ≡ ok (provider, kind, enc) = rw (e, g) refl in
    let mid : check_kind provider (cut_colon (kind ++ (b':' ∷ enc))) ≡ ok (provider, kind, enc) =
      rw (second, k) last in
    let checked : check_scope_id (scope_prefix provider kind ++ enc) ≡ ok (provider, kind, enc) =
      rw
        (
          check_scope_id,
          ltb-eq_false max_scope_id (length (scope_prefix provider kind ++ enc)) l,
          first,
          p,
        )
        mid in
    rw (parse_scope_id, checked) refl

-- ParseScopeID takes apart what ScopeID wrote of a container's id of bytes, into the provider, the
-- kind and the id that were given. So two containers of one scope id are one.
pub parse_scope_id-scope_id :
    (provider kind container s : Text)
    → IsBytes container
    → scope_id provider kind container ≡ ok s
    → parse_scope_id s
      ≡ ok (record { provider = provider; container_kind = kind; container_id = container })
unfolding scope_id
parse_scope_id-scope_id provider kind container s b h =
    elim (Bool-cases (valid_provider_key provider)) [
      | inr p ↦ absurd (ground (arith, p))
      | inl p ↦ elim (Bool-cases (valid_name max_kind false kind)) [
        | inr k ↦ absurd (ground (arith, p, k))
        | inl k ↦ elim (Bool-cases (is_blank container)) [
          | inl e ↦ absurd (ground (arith, p, k, e))
          | inr e ↦
              elim (Result-cases (escape_all (length (scope_prefix provider kind)) container)) [
                | inl (x, q) ↦ absurd (ground (arith, p, k, e, q))
                | inr (enc, q) ↦
                    let whole : s ≡ scope_prefix provider kind ++ enc =
                      ground (arith, p, k, e, q) in
                    let (good, back, fits, longer) =
                      escape_all_read _ container enc b (scope_prefix-length provider kind p k) q in
                    let parsed =
                      parse_scope_id-parts provider kind enc p k
                        (is_blank-longer container enc e longer) good
                        (rw (length-append (scope_prefix provider kind) enc) fits) in
                    rw (whole, ← back) parsed
              ]
        ]
      ]
    ]
