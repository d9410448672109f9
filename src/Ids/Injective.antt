-- ===== src/Ids/Injective.antt =====
-- internal/ids/ids.go: what the separator check buys, that a message names its parts.
use lawang.Prelude.{
  text_eq_iff, inr, text_eq→eq, ap, inl, text_eq, Bool-cases, ◌≢◌, ◌⊎◌, ◌≡◌, refl, sym, ◌∙◌, List,
  [], ◌∷◌, ◌++◌, false, Text, take, has_byte, ok, arith, >>=-eq_ok,
}
use mathlib.Core.List.{append-nil, append_assoc}
use lawang.Ids.{
  sep, Part, check_part, check_part_bytes, delivery_message, write_parts, record_message,
  hex_encode, record_prefix, record_hex_len, record_id,
}

check_part-ok :
    (name : Part) (value : Text) → check_part name value ≡ ok tt → has_byte sep value ≡ false
unfolding check_part has_byte check_part_bytes
check_part-ok name [] h = refl
check_part-ok name (c ∷ value) h = ground arith

-- The first separator ends the first part.
split_unique :
    (p q r s : Text)
    → has_byte sep p ≡ false
    → has_byte sep q ≡ false
    → p ++ (sep ∷ r) ≡ q ++ (sep ∷ s)
    → (p ≡ q) × (r ≡ s)
unfolding has_byte
split_unique [] [] r s hp hq h = ground arith
split_unique [] (y ∷ q) r s hp hq h = ground arith
split_unique (x ∷ p) [] r s hp hq h = ground arith
split_unique (x ∷ p) (y ∷ q) r s hp hq h = ground (arith, split_unique p q r s)

-- The parts behind the first one, as they stand in the message.
tail_of : List (Part × Text) → Text
tail_of [] = []
tail_of ((name, value) ∷ parts) = sep ∷ (value ++ tail_of parts)

write_parts-eq :
    (parts : List (Part × Text)) (w m : Text) → write_parts parts w ≡ ok m → m ≡ w ++ tail_of parts
unfolding write_parts tail_of
write_parts-eq [] w m h = rw append-nil (ground arith)
write_parts-eq ((name, value) ∷ parts) w m h =
    let (_, _, k) =
      >>=-eq_ok (check_part name value) (λ _. write_parts parts (w ++ (sep ∷ value))) h in
    write_parts-eq parts (w ++ (sep ∷ value)) m k ∙ append_assoc w (sep ∷ value) (tail_of parts)

-- No part that is written holds a separator.
abbrev Clean : List (Part × Text) → Type 0
Clean [] = Unit {0}
Clean ((name, value) ∷ parts) = (has_byte sep value ≡ false) × Clean parts

write_parts-Clean :
    (parts : List (Part × Text)) (w m : Text) → write_parts parts w ≡ ok m → Clean parts
unfolding write_parts
write_parts-Clean [] w m h = tt
write_parts-Clean ((name, value) ∷ parts) w m h =
    let (u, c, k) =
      >>=-eq_ok (check_part name value) (λ _. write_parts parts (w ++ (sep ∷ value))) h in
    (check_part-ok name value c, write_parts-Clean parts (w ++ (sep ∷ value)) m k)

-- Two deliveries that hash one message have one provider and one body.
pub delivery_message_injective :
    (p q b c m : Text)
    → delivery_message p b ≡ ok m
    → delivery_message q c ≡ ok m
    → (p ≡ q) × (b ≡ c)
unfolding delivery_message
delivery_message_injective p q b c m h k =
    let (_, hp, em) = >>=-eq_ok (check_part Part.provider p) (λ _. ok (p ++ (sep ∷ b))) h in
    let (_, hq, en) = >>=-eq_ok (check_part Part.provider q) (λ _. ok (q ++ (sep ∷ c))) k in
    split_unique p q b c (check_part-ok _ p hp) (check_part-ok _ q hq) (ground arith)

record_message-Clean :
    (p e v s t m : Text)
    → record_message p e v s t ≡ ok m
    → (has_byte sep p ≡ false)
      × (has_byte sep e ≡ false)
      × (has_byte sep v ≡ false)
      × (has_byte sep s ≡ false)
      × (m ≡ p ++ (sep ∷ (e ++ (sep ∷ (v ++ (sep ∷ (s ++ (sep ∷ t))))))))
unfolding record_message tail_of
record_message-Clean p e v s t m h =
    let parts =
      (Part.external_id, e) ∷ (Part.version, v) ∷ (Part.scope, s) ∷ (Part.tenant, t) ∷ [] in
    let (_, hp, k) = >>=-eq_ok (check_part Part.provider p) (λ _. write_parts parts p) h in
    let c = write_parts-Clean parts p m k in
    (check_part-ok _ p hp, c.0, c.1.0, c.1.1.0, write_parts-eq parts p m k ∙ simp append-nil)

-- Two records that hash one message agree in all five parts: provider, external id, version,
-- scope and tenant.
pub record_message_injective :
    (p e v s t p' e' v' s' t' m : Text)
    → record_message p e v s t ≡ ok m
    → record_message p' e' v' s' t' ≡ ok m
    → (p ≡ p') × (e ≡ e') × (v ≡ v') × (s ≡ s') × (t ≡ t')
record_message_injective p e v s t p' e' v' s' t' m h k =
    let (cp, ce, cv, cs, em) = record_message-Clean p e v s t m h in
    let (dp, de, dv, ds, en) = record_message-Clean p' e' v' s' t' m k in
    let (ep, r) = split_unique p p' _ _ cp dp (sym em ∙ en) in
    let (ee, r') = split_unique e e' _ _ ce de r in
    let (ev, r'') = split_unique v v' _ _ cv dv r' in
    let (es, et) = split_unique s s' t t' cs ds r'' in (ep, ee, ev, es, et)

module _ (sum : Text → Text) where
  -- The part of a record id that its message decides.
  abbrev pub digest : Text → Text
  digest m = take record_hex_len (hex_encode (sum m))

  record_id-digest :
      (p e v s t i : Text)
      → record_id sum p e v s t ≡ ok i
      → (m : Text) × (record_message p e v s t ≡ ok m) × (i ≡ record_prefix ++ digest m)
  unfolding record_id
  record_id-digest p e v s t i h =
      let (m, e, k) =
        >>=-eq_ok (record_message p e v s t)
          (λ (m : Text). ok (record_prefix ++ take record_hex_len (hex_encode (sum m)))) h in
      (m, e, ground arith)

  -- One record id under two sets of parts: the parts are the same, or the messages that RecordID
  -- hashes of the two are different and the truncated digest is the same on both.
  pub record_id_unique :
      (p e v s t p' e' v' s' t' i : Text)
      → record_id sum p e v s t ≡ ok i
      → record_id sum p' e' v' s' t' ≡ ok i
      → ((p ≡ p') × (e ≡ e') × (v ≡ v') × (s ≡ s') × (t ≡ t'))
        ⊎ ((m : Text) × (n : Text) × (record_message p e v s t ≡ ok m)
            × (record_message p' e' v' s' t' ≡ ok n)
            × (m ≢ n)
            × (digest m ≡ digest n))
  record_id_unique p e v s t p' e' v' s' t' i h k =
      let (m, em, im) = record_id-digest p e v s t i h in
      let (n, en, jn) = record_id-digest p' e' v' s' t' i k in
      elim (Bool-cases (text_eq m n)) [
        | inl q ↦ inl (
            record_message_injective p e v s t p' e' v' s' t' m em
              (en ∙ ap ok (sym (text_eq→eq m n q))))
        | inr q ↦ inr (m, n, em, en, (λ (r : m ≡ n). ground (arith, text_eq_iff m n)), ground arith)
      ]
