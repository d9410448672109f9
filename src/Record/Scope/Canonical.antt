-- ===== src/Record/Scope/Canonical.antt =====
-- ParseScopeID of internal/record/scope.go accepts just what ScopeID writes.
use mathlib.Core.List.{append_assoc}
use lawang.Prelude.{
  subst, ℕ, ◌≡◌, ◌+◌, ◌*◌, ◌/◌, ◌%◌, ◌≤◌, true, false, ◌&&◌, not, Bool-cases, [], ◌∷◌, ◌++◌, some,
  Option-cases, ltb, ◌==◌, ==_iff, length, length-append, inl, inr, ◌⊎◌, Text, ok, Result-cases,
  arith, refl, ◌∙◌, sym, ap, ltb-eq_false,
}
use lawang.Record.Names.{valid_name, valid_provider_key, max_kind}
use lawang.Record.Scope.{
  Scope, unreserved, control, unhex, escape, escape_all, good_escape, check_escapes, unescape,
  max_scope_id, cut_colon, scope_prefix, scope_id, parse_scope_id, check_scope_id, check_provider,
  check_kind, check_container, is_blank,
}
use lawang.Record.Scope.Escapes.{
  check_escapes-plain, unescape-plain, unescape-escaped, hex_digit-unhex,
}

module _ (w c : ℕ) (cs rest : Text) where
  escape_all-step :
      (unreserved c ≡ true) ⊎ (control c ≡ false)
      → w + length (escape c) ≤ max_scope_id
      → escape_all (w + length (escape c)) cs ≡ ok rest
      → escape_all w (c ∷ cs) ≡ ok (escape c ++ rest)
  unfolding escape_all
  escape_all-step k l h =
      let plain : (not (unreserved c) && control c) ≡ false = ground arith in
      rw (plain, ltb-eq_false max_scope_id (w + length (escape c)) l, h) refl

escape-plain : (c : ℕ) → unreserved c ≡ true → escape c ≡ c ∷ []
unfolding escape
escape-plain c u = rw u refl

-- The byte that a good escape stands for is written as that escape.
good_escape_lem :
    (h l : ℕ)
    → good_escape h l ≡ true
    → (control (unhex h * 16 + unhex l) ≡ false)
      × (escape (unhex h * 16 + unhex l) ≡ b'%' ∷ h ∷ l ∷ [])
unfolding good_escape escape
good_escape_lem h l e =
    let high = hex_digit-unhex h (ground arith) in
    let low = hex_digit-unhex l (ground arith) in
    let reserved : unreserved (unhex h * 16 + unhex l) ≡ false = ground arith in
    let tens : (unhex h * 16 + unhex l) / 16 ≡ unhex h = omega (arith, high.1, low.1) in
    let ones : (unhex h * 16 + unhex l) % 16 ≡ unhex l = omega (arith, high.1, low.1) in
    (ground arith, rw (reserved, tens, ones, high.0, low.0) refl)

escape_all-plain :
    (w c : ℕ) (cs : Text)
    → unreserved c ≡ true
    → w + length (c ∷ cs) ≤ max_scope_id
    → escape_all (w + 1) (unescape cs) ≡ ok cs
    → escape_all w (unescape (c ∷ cs)) ≡ ok (c ∷ cs)
escape_all-plain w c cs u l h =
    let one = escape-plain c u in
    let bound : w + length (escape c) ≤ max_scope_id = rw one (omega (arith, l)) in
    let step = escape_all-step w c (unescape cs) cs (inl u) bound (rw one h) in
    rw (unescape-plain c cs u) (rw one at step)

escape_all-escaped :
    (w h l : ℕ) (cs : Text)
    → good_escape h l ≡ true
    → w + length (b'%' ∷ h ∷ l ∷ cs) ≤ max_scope_id
    → escape_all (w + 3) (unescape cs) ≡ ok cs
    → escape_all w (unescape (b'%' ∷ h ∷ l ∷ cs)) ≡ ok (b'%' ∷ h ∷ l ∷ cs)
escape_all-escaped w h l cs g b e =
    let (apart, three) = good_escape_lem h l g in
    let bound : w + length (escape (unhex h * 16 + unhex l)) ≤ max_scope_id =
      rw three (omega (arith, b)) in
    let step =
      escape_all-step w (unhex h * 16 + unhex l) (unescape cs) cs (inr apart) bound (rw three e) in
    rw (unescape-escaped h l cs) (rw three at step)

pub escape_all-unescape :
    (w : ℕ) (enc : Text)
    → check_escapes enc ≡ true
    → w + length enc ≤ max_scope_id
    → escape_all w (unescape enc) ≡ ok enc
unfolding escape_all unescape check_escapes
escape_all-unescape w [] h l = refl
escape_all-unescape w (c ∷ []) h l = escape_all-plain w c [] h l refl
escape_all-unescape w (c ∷ d ∷ []) h l =
    escape_all-plain w c (d ∷ []) (ground arith) l
      (escape_all-unescape (w + 1) (d ∷ []) (ground arith) (omega (arith, l)))
escape_all-unescape w (c ∷ h ∷ l ∷ cs) e b = elim (Bool-cases (unreserved c)) [
  | inl u ↦ escape_all-plain w c (h ∷ l ∷ cs) u b (
      escape_all-unescape (w + 1) (h ∷ l ∷ cs) (rw (check_escapes-plain c (h ∷ l ∷ cs) u) at e)
        (omega (arith, b)))
  | inr u ↦
      let opened : ((c == b'%' && good_escape h l) && check_escapes cs) ≡ true =
        rw (u, check_escapes) at e in
      let percent : c ≡ b'%' = ground arith in
      rw percent (
        escape_all-escaped w h l cs (ground arith) (omega (arith, b))
          (escape_all-unescape (w + 3) cs (ground arith) (omega (arith, b))))
]

cut_colon-eq_some :
    (s before behind : Text) → cut_colon s ≡ some (before, behind) → s ≡ before ++ (b':' ∷ behind)
unfolding cut_colon
cut_colon-eq_some [] before behind h = absurd cc
cut_colon-eq_some (c ∷ cs) before behind h = elim (Bool-cases (c == b':')) [
  | inl e ↦
      let here : c ≡ b':' = (==_iff c b':').0 e in
      let (a, b) : (before ≡ []) × (behind ≡ cs) = ground (arith, e) in rw (a, b, here) refl
  | inr e ↦ elim (Option-cases (cut_colon cs)) [
    | inl n ↦ absurd (ground (arith, e, n))
    | inr ((x, y), k) ↦
        let (a, b) : (before ≡ c ∷ x) × (behind ≡ y) = ground (arith, e, k) in
        rw (a, b) (ap (λ z. c ∷ z) (cut_colon-eq_some cs x y k))
  ]
]

is_blank-unescape : (enc : Text) → is_blank enc ≡ false → is_blank (unescape enc) ≡ false
unfolding unescape
is_blank-unescape [] h = h
is_blank-unescape (c ∷ []) h = refl
is_blank-unescape (c ∷ d ∷ []) h = refl
is_blank-unescape (c ∷ d ∷ l ∷ cs) h = elim (Bool-cases (c == b'%')) [
  | inl e ↦ rw (e, unescape) refl
  | inr e ↦ rw (e, unescape) refl
]

check_container-ok :
    (provider kind enc p k e : Text)
    → check_container provider kind enc ≡ ok (p, k, e)
    → (p ≡ provider) × (k ≡ kind) × (e ≡ enc) × (is_blank enc ≡ false) × (check_escapes enc ≡ true)
unfolding check_container
check_container-ok provider kind enc p k e h = ground arith

check_kind-ok :
    (provider rest p k e : Text)
    → check_kind provider (cut_colon rest) ≡ ok (p, k, e)
    → (p ≡ provider)
      × (rest ≡ k ++ (b':' ∷ e))
      × (valid_name max_kind false k ≡ true)
      × (is_blank e ≡ false)
      × (check_escapes e ≡ true)
unfolding check_kind
check_kind-ok provider rest p k e h = elim (Option-cases (cut_colon rest)) [
  | inl n ↦ absurd (ground (arith, n))
  | inr ((kind, enc), c) ↦ elim (Bool-cases (valid_name max_kind false kind)) [
    | inr v ↦ absurd (ground (arith, c, v))
    | inl v ↦
        let (a, b, d, f, g) = check_container-ok provider kind enc p k e (ground (arith, c, v)) in
        rw (b, d) (a, cut_colon-eq_some rest kind enc c, v, f, g)
  ]
]

check_scope_id-ok :
    (s p k e : Text)
    → check_scope_id s ≡ ok (p, k, e)
    → (s ≡ scope_prefix p k ++ e)
      × (length s ≤ max_scope_id)
      × (valid_provider_key p ≡ true)
      × (valid_name max_kind false k ≡ true)
      × (is_blank e ≡ false)
      × (check_escapes e ≡ true)
unfolding check_scope_id check_provider
check_scope_id-ok s p k e h = elim (Bool-cases (ltb max_scope_id (length s))) [
  | inl l ↦ absurd (ground (arith, l))
  | inr l ↦ elim (Option-cases (cut_colon s)) [
    | inl n ↦ absurd (ground (arith, l, n))
    | inr ((provider, rest), c) ↦ elim (Bool-cases (valid_provider_key provider)) [
      | inr v ↦ absurd (ground (arith, l, c, v))
      | inl v ↦
          let (a, b, d, f, g) = check_kind-ok provider rest p k e (ground (arith, l, c, v)) in
          let whole : s ≡ p ++ (b':' ∷ (k ++ (b':' ∷ e))) =
            rw (cut_colon-eq_some s provider rest c, a, b) refl in
          let joined =
            append_assoc p (b':' ∷ (k ++ b':' ∷ [])) e
            ∙ ap (λ z. p ++ (b':' ∷ z)) (append_assoc k (b':' ∷ []) e) in
          (whole ∙ sym joined, ground (arith, l), rw a v, d, f, g)
    ]
  ]
]

-- What ParseScopeID accepts is what ScopeID writes of the three parts found: no two texts name one
-- scope.
pub scope_id-parse_scope_id :
    (s : Text) (x : Scope)
    → parse_scope_id s ≡ ok x
    → scope_id x.provider x.container_kind x.container_id ≡ ok s
unfolding parse_scope_id scope_id
scope_id-parse_scope_id s x h = elim (Result-cases (check_scope_id s)) [
  | inl (e, c) ↦ absurd (ground (arith, c))
  | inr ((p, k, e), c) ↦
      let (whole, short, v, n, f, g) = check_scope_id-ok s p k e c in
      let made : record { provider = p; container_kind = k; container_id = unescape e } ≡ x =
        ground (arith, c) in
      let fits : length (scope_prefix p k) + length e ≤ max_scope_id =
        rw (← length-append (scope_prefix p k) e, ← whole) short in
      let loop = escape_all-unescape (length (scope_prefix p k)) e g fits in
      let built : scope_id p k (unescape e) ≡ ok s =
        rw (scope_id, v, n, is_blank-unescape e f, loop) (ap ok (sym whole)) in
      subst (λ z. scope_id z.provider z.container_kind z.container_id ≡ ok s) made built
]
