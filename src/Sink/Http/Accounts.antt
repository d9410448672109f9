-- ===== src/Sink/Http/Accounts.antt =====
-- What internal/sink/http.go accounts for: each record of a batch is posted once or refused, and the
-- refusals name records of the batch, none twice.
use lawang.Prelude.{
  ℕ, ◌≡◌, true, false, ◌||◌, not, inl, inr, Bool-cases, List, [], ◌∷◌, ◌++◌, map, Option, none,
  some, ltb, if◌then◌else◌, ◌==◌, In, In-append, length, Text, ok, err, Result-cases, arith, refl,
  sym, ap, subst, any-eq_true, any-eq_true_of, text_eq, text_eq→eq, text_eq_self,
}
use lawang.Sink.{Rejection}
use lawang.Sink.Http.Replies.{
  Json, Reply, not_built, not_sent, replied, on_reply, on_status, status_of, StatusVerdict, faults,
  refuses, refusals, rejections_from, rejections_of, rejected_member, unreadable_fault, entries_of,
  entries_from, is_among, is_null, member, member_rejected, code_from, max_response_bytes,
}

abbrev pub NoDup : List Text → Type 0
NoDup [] = Unit
NoDup (x ∷ xs) = (In x xs → ⊥) × NoDup xs

abbrev pub Within : List Text → List Text → Type 0
Within xs ys = (x : Text) → In x xs → In x ys

abbrev pub Apart : List Text → List Text → Type 0
Apart xs ys = (x : Text) → In x xs → In x ys → ⊥

abbrev pub rejected_ids : List Rejection → List Text
rejected_ids rs = map (λ r. r.id) rs

pub In-append_left : (x : Text) (xs ys : List Text) → In x xs → In x (xs ++ ys)
In-append_left x [] ys m = absurd m
In-append_left x (y ∷ xs) ys (inl e) = inl e
In-append_left x (y ∷ xs) ys (inr m) = inr (In-append_left x xs ys m)

pub In-append_right : (x : Text) (xs ys : List Text) → In x ys → In x (xs ++ ys)
In-append_right x [] ys m = m
In-append_right x (y ∷ xs) ys m = inr (In-append_right x xs ys m)

pub append_assoc : (xs ys zs : List Text) → (xs ++ ys) ++ zs ≡ xs ++ (ys ++ zs)
append_assoc [] ys zs = refl
append_assoc (x ∷ xs) ys zs = ap (λ l. x ∷ l) (append_assoc xs ys zs)

pub append_nil : (xs : List Text) → xs ++ [] ≡ xs
append_nil [] = refl
append_nil (x ∷ xs) = ap (λ l. x ∷ l) (append_nil xs)

pub NoDup-append : (xs ys : List Text) → NoDup xs → NoDup ys → Apart xs ys → NoDup (xs ++ ys)
NoDup-append [] ys p q d = q
NoDup-append (x ∷ xs) ys p q d = (
  λ m. elim (In-append x xs ys m) [ inl n ↦ p.0 n | inr n ↦ d x (inl refl) n ],
  NoDup-append xs ys p.1 q (λ y n k. d y (inr n) k),
)

pub NoDup-split : (xs ys : List Text) → NoDup (xs ++ ys) → NoDup xs × NoDup ys × Apart xs ys
NoDup-split [] ys p = (tt, p, λ x m. absurd m)
NoDup-split (x ∷ xs) ys p =
    let (a, b, d) = NoDup-split xs ys p.1 in
    (
      (λ m. p.0 (In-append_left x xs ys m), a),
      b,
      λ y m k. elim m [
        | inl e ↦ p.0 (In-append_right x xs ys (subst (λ z. In z ys) e k))
        | inr n ↦ d y n k
      ],
    )

pub map-append_lem :
    (xs ys : List Rejection) → rejected_ids (xs ++ ys) ≡ rejected_ids xs ++ rejected_ids ys
map-append_lem [] ys = refl
map-append_lem (x ∷ xs) ys = ap (λ l. x.id ∷ l) (map-append_lem xs ys)

-- The refusals of one answer name records of its request, none twice.
abbrev pub AreNamed : List Text → List Rejection → Type 0
AreNamed ids rejected = NoDup (rejected_ids rejected) × Within (rejected_ids rejected) ids

is_among-In : (id : Text) (ids : List Text) → is_among id ids ≡ true → In id ids
unfolding is_among
is_among-In id ids h =
    let (x, m, e) = any-eq_true (text_eq id) ids h in
    subst (λ z. In z ids) (sym (text_eq→eq id x e)) m

In-is_among : (id : Text) (ids : List Text) → In id ids → is_among id ids ≡ true
unfolding is_among
In-is_among id ids m = any-eq_true_of (text_eq id) ids id m (text_eq_self id)

entries_from-AreNamed :
    (status : ℕ) (ids seen : List Text) (es : List (Text × Text)) (rejected : List Rejection)
    → entries_from status ids seen es ≡ ok rejected
    → AreNamed ids rejected × Apart (rejected_ids rejected) seen
unfolding entries_from
entries_from-AreNamed status ids seen [] rejected h =
    let nothing : rejected ≡ [] = ground arith in
    rw nothing ((tt, λ x m. absurd m), λ x m. absurd m)
entries_from-AreNamed status ids seen ((id, code) ∷ es) rejected h =
    elim (Bool-cases (not (is_among id ids) || is_among id seen)) [
      | inl e ↦ absurd (ground (arith, e))
      | inr e ↦ elim (Result-cases (entries_from status ids (id ∷ seen) es)) [
        | inl (f, k) ↦ absurd (ground (arith, e, k))
        | inr (rest, k) ↦
            let ((apart, inside), unseen) =
              entries_from-AreNamed status ids (id ∷ seen) es rest k in
            let whole : rejected_ids rejected ≡ id ∷ rejected_ids rest = ground (arith, e, k) in
            rw whole (
              (
                (λ m. unseen id m (inl refl), apart),
                λ x m. elim m [
                  | inl q ↦ rw q (is_among-In id ids (ground (arith, e)))
                  | inr n ↦ inside x n
                ],
              ),
              λ x m s. elim m [
                | inl q ↦ absurd (not_both (In-is_among id seen (subst (λ z. In z seen) q s)) e)
                | inr n ↦ unseen x n (inr s)
              ],
            )
      ]
    ]
  where
    not_both : is_among id seen ≡ true → (not (is_among id ids) || is_among id seen) ≡ false → ⊥
    not_both p q = absurd (ground arith)

rejected_ids-refusals :
    (ids : List Text) (cause : lawang.Outbox.Cause.Cause) → rejected_ids (refusals ids cause) ≡ ids
unfolding refusals
rejected_ids-refusals [] cause = refl
rejected_ids-refusals (i ∷ is) cause = ap (λ l. i ∷ l) (rejected_ids-refusals is cause)

on_status-AreNamed :
    (v : StatusVerdict) (ids : List Text) (rejected : List Rejection)
    → NoDup ids
    → on_status v ids ≡ ok rejected
    → AreNamed ids rejected
unfolding on_status
on_status-AreNamed (faults f) ids rejected d h = absurd (ground arith)
on_status-AreNamed (refuses cause) ids rejected d h =
    let whole : refusals ids cause ≡ rejected = ground arith in
    rw (← whole) (rw (rejected_ids-refusals ids cause) (d, λ x m. m))

nothing_named :
    (ids : List Text) (rejected : List Rejection) → rejected ≡ [] → AreNamed ids rejected
nothing_named ids rejected e = rw e (tt, λ x m. absurd m)

entries_of-AreNamed :
    (status : ℕ) (ids : List Text) (es : Option (List (Text × Text))) (rejected : List Rejection)
    → entries_of status ids es ≡ ok rejected
    → AreNamed ids rejected
unfolding entries_of
entries_of-AreNamed status ids none rejected h = absurd (ground arith)
entries_of-AreNamed status ids (some es) rejected h =
    (entries_from-AreNamed status ids [] es rejected h).0

raw_member-AreNamed :
    (json : Json) (status : ℕ) (ids : List Text) (raw : Text) (rejected : List Rejection)
    → (if is_null (json.trim_space raw)
        then err (unreadable_fault status)
        else entries_of status ids (json.entries raw))
      ≡ ok rejected
    → AreNamed ids rejected
raw_member-AreNamed json status ids raw rejected h =
    elim (Bool-cases (is_null (json.trim_space raw))) [
      | inl e ↦ absurd (ground (arith, e))
      | inr e ↦ entries_of-AreNamed status ids (json.entries raw) rejected (ground (arith, e))
    ]

rejected_member-AreNamed :
    (json : Json) (status : ℕ) (ids : List Text) (ms : List (Text × Text)) (raw : Option Text)
    (rejected : List Rejection)
    → rejected_member json status ids ms raw ≡ ok rejected
    → AreNamed ids rejected
unfolding rejected_member
rejected_member-AreNamed json status ids [] none rejected h =
    nothing_named ids rejected (ground arith)
rejected_member-AreNamed json status ids (m ∷ ms) none rejected h = absurd (ground arith)
rejected_member-AreNamed json status ids [] (some raw) rejected h =
    raw_member-AreNamed json status ids raw rejected h
rejected_member-AreNamed json status ids (m ∷ ms) (some raw) rejected h =
    raw_member-AreNamed json status ids raw rejected h

rejections_of-AreNamed :
    (json : Json) (status : ℕ) (ids : List Text) (ms : Option (List (Text × Text)))
    (rejected : List Rejection)
    → rejections_of json status ids ms ≡ ok rejected
    → AreNamed ids rejected
unfolding rejections_of
rejections_of-AreNamed json status ids none rejected h = absurd (ground arith)
rejections_of-AreNamed json status ids (some ms) rejected h =
    rejected_member-AreNamed json status ids ms (member member_rejected ms) rejected h

rejections_from-AreNamed :
    (json : Json) (answer : Text) (ids : List Text) (status : ℕ) (rejected : List Rejection)
    → rejections_from json answer ids status ≡ ok rejected
    → AreNamed ids rejected
unfolding rejections_from
rejections_from-AreNamed json answer ids status rejected h =
    elim (Bool-cases (length (json.trim_space answer) == 0)) [
      | inl e ↦ nothing_named ids rejected (ground (arith, e))
      | inr e ↦
          rejections_of-AreNamed json status ids (json.members (json.trim_space answer)) rejected
            (ground (arith, e))
    ]

pub on_reply-AreNamed :
    (json : Json) (ids : List Text) (reply : Reply) (rejected : List Rejection)
    → NoDup ids
    → on_reply json ids reply ≡ ok rejected
    → AreNamed ids rejected
unfolding on_reply
on_reply-AreNamed json ids not_built rejected d h = absurd (ground arith)
on_reply-AreNamed json ids (not_sent detail) rejected d h = absurd (ground arith)
on_reply-AreNamed json ids (replied status answer failed) rejected d h =
    elim (Bool-cases (ltb status 200 || ltb 299 status)) [
      | inl e ↦
          on_status-AreNamed (status_of status (code_from json answer failed)) ids rejected d
            (ground (arith, e))
      | inr e ↦ elim (Bool-cases (failed || ltb max_response_bytes (length answer))) [
        | inl k ↦ absurd (ground (arith, e, k))
        | inr k ↦ rejections_from-AreNamed json answer ids status rejected (ground (arith, e, k))
      ]
    ]
