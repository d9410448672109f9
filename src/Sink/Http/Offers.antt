-- ===== src/Sink/Http/Offers.antt =====
-- How marshalAll of internal/sink/http.go parts a batch into documents and refusals.
use lawang.Prelude.{
  ℕ, ◌≡◌, ◌+◌, inl, inr, ◌⊎◌, Bool-cases, List, [], ◌∷◌, map, Option-cases, ltb, In, length, Text,
  refl, subst,
}
use lawang.Sink.{Rejection}
use lawang.Sink.Http.{
  rejection, code_wrong_tenant, code_invalid_record, code_record_too_large, detail_wrong_tenant,
  detail_invalid_record, detail_record_too_large, Offer, Marshalled, document, rejected_here,
  marshal_one, marshal_all, rejections_here, body_framing,
}
use lawang.Sink.Http.Accounts.{NoDup, Within, Apart, rejected_ids}

abbrev pub document_ids : List Marshalled → List Text
document_ids [] = []
document_ids (document id doc ∷ ms) = id ∷ document_ids ms
document_ids (rejected_here r ∷ ms) = document_ids ms

abbrev pub offer_ids : List Offer → List Text
offer_ids recs = map (λ r. r.id) recs

-- A record is offered as a document, or refused before it is posted, under its own id.
marshal_one-cases :
    (max_bytes : ℕ) (r : Offer)
    → ((doc : Text) × (marshal_one max_bytes r ≡ document r.id doc))
      ⊎ ((x : Rejection) × (marshal_one max_bytes r ≡ rejected_here x) × (x.id ≡ r.id))
unfolding marshal_one
marshal_one-cases max_bytes r = elim (Bool-cases r.sealed) [
  | inr s ↦
      inr (rejection r.id code_wrong_tenant detail_wrong_tenant, rw (s, marshal_one) refl, refl)
  | inl s ↦ elim (Option-cases r.encoded) [
    | inl n ↦ inr (
      rejection r.id code_invalid_record detail_invalid_record,
      rw (s, n, marshal_one) refl,
      refl,
    )
    | inr (doc, e) ↦ elim (Bool-cases (ltb max_bytes (body_framing + length doc))) [
      | inl l ↦ inr (
        rejection r.id code_record_too_large detail_record_too_large,
        rw (s, e, l, marshal_one) refl,
        refl,
      )
      | inr l ↦ inl (doc, rw (s, e, l, marshal_one) refl)
    ]
  ]
]

-- How the ids of a batch fall apart into those of its documents and of its refusals.
pub record IsSplit (all docs refused : List Text) : Type 0 where
  pub docs_once : NoDup docs
  pub docs_known : Within docs all
  pub refused_once : NoDup refused
  pub refused_known : Within refused all
  pub split_apart : Apart refused docs
  pub each : (x : Text) → In x all → In x docs ⊎ In x refused

take_document :
    (all docs refused : List Text) (id : Text)
    → (In id all → ⊥)
    → IsSplit all docs refused
    → IsSplit (id ∷ all) (id ∷ docs) refused
take_document all docs refused id new v = record {
  docs_once = (λ m. new (v.docs_known id m), v.docs_once);
  docs_known = λ x m. elim m [ inl e ↦ inl e | inr n ↦ inr (v.docs_known x n) ];
  refused_once = v.refused_once;
  refused_known = λ x m. inr (v.refused_known x m);
  split_apart = λ x m k. elim k [
    | inl e ↦ new (v.refused_known id (subst (λ z. In z refused) e m))
    | inr n ↦ v.split_apart x m n
  ];
  each = λ x m. elim m [
    | inl e ↦ inl (inl e)
    | inr n ↦ elim (v.each x n) [ inl k ↦ inl (inr k) | inr k ↦ inr k ]
  ];
}

take_refusal :
    (all docs refused : List Text) (id : Text)
    → (In id all → ⊥)
    → IsSplit all docs refused
    → IsSplit (id ∷ all) docs (id ∷ refused)
take_refusal all docs refused id new v = record {
  docs_once = v.docs_once;
  docs_known = λ x m. inr (v.docs_known x m);
  refused_once = (λ m. new (v.refused_known id m), v.refused_once);
  refused_known = λ x m. elim m [ inl e ↦ inl e | inr n ↦ inr (v.refused_known x n) ];
  split_apart = λ x m k. elim m [
    | inl e ↦ new (v.docs_known id (subst (λ z. In z docs) e k))
    | inr n ↦ v.split_apart x n k
  ];
  each = λ x m. elim m [
    | inl e ↦ inr (inl e)
    | inr n ↦ elim (v.each x n) [ inl k ↦ inl k | inr k ↦ inr (inr k) ]
  ];
}

pub marshal_all-IsSplit :
    (max_bytes : ℕ) (recs : List Offer)
    → NoDup (offer_ids recs)
    → IsSplit
        (offer_ids recs)
        (document_ids (marshal_all max_bytes recs))
        (rejected_ids (rejections_here (marshal_all max_bytes recs)))
unfolding marshal_all rejections_here
marshal_all-IsSplit max_bytes [] d = record {
  docs_once = tt;
  docs_known = λ x m. absurd m;
  refused_once = tt;
  refused_known = λ x m. absurd m;
  split_apart = λ x m k. absurd m;
  each = λ x m. absurd m;
}
marshal_all-IsSplit max_bytes (r ∷ rs) d =
    let rest = marshal_all-IsSplit max_bytes rs d.1 in
    elim (marshal_one-cases max_bytes r) [
      | inl (doc, e) ↦ rw e (take_document _ _ _ r.id d.0 rest)
      | inr (x, e, i) ↦ rw e (rw i (take_refusal _ _ _ r.id d.0 rest))
    ]
