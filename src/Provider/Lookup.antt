-- ===== src/Provider/Lookup.antt =====
-- What the registry of internal/provider/registry.go finds.
use lawang.Prelude.{
  ◌≡◌, true, Bool-cases, List, [], ◌∷◌, Option, none, some, Option-cases, In, inl, inr, Text,
  text_eq, text_eq_self, text_eq→eq, ok, Result-cases, arith, refl,
}
use lawang.Record.Names.{valid_provider_key}
use lawang.Provider.{
  Provider, Entry, is_valid_order, lookup, register_one, register_all, new_registry,
}

-- `e` is what a registry keeps of `p`.
abbrev pub IsEntryOf : Provider → Entry → Type 0
IsEntryOf p e =
    (e.key ≡ p.key)
    × (e.versions ≡ p.version_order)
    × (is_valid_order e.versions ≡ true)
    × (e.source ≡ p.source)
    × (valid_provider_key p.key ≡ true)

register_one-ok :
    (p : Provider) (entries more : List Entry)
    → register_one (some p) entries ≡ ok more
    → (e : Entry) × (more ≡ e ∷ entries) × IsEntryOf p e × (lookup p.key entries ≡ none)
unfolding register_one
register_one-ok p entries more h = elim (Bool-cases (valid_provider_key p.key)) [
  | inr v ↦ absurd (ground (arith, v))
  | inl v ↦ elim (Option-cases (lookup p.key entries)) [
    | inr (e, k) ↦ absurd (ground (arith, v, k))
    | inl n ↦ elim (Bool-cases (is_valid_order p.version_order)) [
      | inr o ↦ absurd (ground (arith, v, n, o))
      | inl o ↦ (
        record { key = p.key; versions = p.version_order; source = p.source },
        ground (arith, v, n, o),
        (refl, refl, o, refl, v),
        n,
      )
    ]
  ]
]

lookup-cons :
    (e x : Entry) (key : Text) (entries : List Entry)
    → lookup e.key entries ≡ none
    → lookup key entries ≡ some x
    → lookup key (e ∷ entries) ≡ some x
unfolding lookup
lookup-cons e x key entries n h = elim (Bool-cases (text_eq e.key key)) [
  | inl q ↦ absurd (let same_key = text_eq→eq e.key key q in cc)
  | inr q ↦ rw q h
]

lookup-here : (e : Entry) (entries : List Entry) → lookup e.key (e ∷ entries) ≡ some e
unfolding lookup
lookup-here e entries = rw (text_eq_self e.key) refl

register_all-keeps :
    (ps : List (Option Provider)) (entries all : List Entry) (key : Text) (x : Entry)
    → register_all ps entries ≡ ok all
    → lookup key entries ≡ some x
    → lookup key all ≡ some x
unfolding register_all register_one
register_all-keeps [] entries all key x h l =
    let same_list : entries ≡ all = ground arith in rw (← same_list) l
register_all-keeps (none ∷ ps) entries all key x h l = absurd (ground arith)
register_all-keeps (some p ∷ ps) entries all key x h l =
    elim (Result-cases (register_one (some p) entries)) [
      | inl (e, k) ↦ absurd (ground (arith, k))
      | inr (more, k) ↦
          let (e, q, (a, b, c, d, f), n) = register_one-ok p entries more k in
          let next = lookup-cons e x key entries (rw a n) l in
          register_all-keeps ps more all key x (ground (arith, k)) (rw q next)
    ]

register_all-finds :
    (ps : List (Option Provider)) (entries all : List Entry) (p : Provider)
    → register_all ps entries ≡ ok all
    → In (some p) ps
    → (e : Entry) × (lookup p.key all ≡ some e) × IsEntryOf p e
unfolding register_all register_one
register_all-finds [] entries all p h m = absurd m
register_all-finds (none ∷ ps) entries all p h m = absurd (ground arith)
register_all-finds (some u ∷ ps) entries all p h m =
    elim (Result-cases (register_one (some u) entries)) [
      | inl (e, k) ↦ absurd (ground (arith, k))
      | inr (more, k) ↦ elim m [
        | inr n ↦ register_all-finds ps more all p (ground (arith, k)) n
        | inl same_place ↦
            let same_one : p ≡ u = ground arith in
            let (e, q, i, n) = register_one-ok u entries more k in
            let here : lookup u.key more ≡ some e = rw (q, ← i.0) (lookup-here e entries) in
            (
              e,
              rw same_one (register_all-keeps ps more all u.key e (ground (arith, k)) here),
              rw same_one i,
            )
      ]
    ]

-- A registry that is built finds every provider that it was built of under its own key, with its
-- own version order and source, and the key is a provider key and the order one that the program
-- knows.
pub new_registry-lookup :
    (ps : List (Option Provider)) (entries : List Entry) (p : Provider)
    → new_registry ps ≡ ok entries
    → In (some p) ps
    → (e : Entry) × (lookup p.key entries ≡ some e) × IsEntryOf p e
unfolding new_registry
new_registry-lookup ps entries p h m = register_all-finds ps [] entries p h m
