-- ===== src/Pipeline/Ledger/Locks.antt =====
-- lockOrder of internal/pipeline/ledger.go: the order that the locks of a delivery are taken in.
use lawang.Prelude.{
  sym, ℕ, ◌≡◌, ◌≤◌, ◌<◌, ◌↔◌, ◌⊎◌, inl, inr, Bool, true, false, Bool-cases, List, [], ◌∷◌, ltb,
  ◌==◌, arith, refl, In, if◌then◌else◌, ==_iff,
}

-- slices.Sort.
unfoldable pub insert_key : ℕ → List ℕ → List ℕ
insert_key k [] = k ∷ []
insert_key k (x ∷ xs) = let later = x ∷ insert_key k xs in if ltb x k then later else k ∷ x ∷ xs

unfoldable pub sort_keys : List ℕ → List ℕ
sort_keys [] = []
sort_keys (k ∷ ks) = insert_key k (sort_keys ks)

abbrev pub begins_with : ℕ → List ℕ → Bool
begins_with k [] = false
begins_with k (x ∷ xs) = k == x

-- slices.Compact: a run of equal keys becomes one.
unfoldable pub compact_keys : List ℕ → List ℕ
compact_keys [] = []
compact_keys (k ∷ ks) = let rest = compact_keys ks in if begins_with k ks then rest else k ∷ rest

unfoldable pub lock_order : List ℕ → List ℕ
lock_order keys = compact_keys (sort_keys keys)

abbrev IsSorted : List ℕ → Type 0
IsSorted [] = Unit
IsSorted (x ∷ xs) = ((y : ℕ) → In y xs → x ≤ y) × IsSorted xs

-- Each key is smaller than all behind it.
abbrev pub IsRising : List ℕ → Type 0
IsRising [] = Unit
IsRising (x ∷ xs) = ((y : ℕ) → In y xs → x < y) × IsRising xs

In-insert_key : (k y : ℕ) (ks : List ℕ) → In y (insert_key k ks) ↔ ((y ≡ k) ⊎ In y ks)
unfolding insert_key
In-insert_key k y [] = (λ m. m, λ m. m)
In-insert_key k y (x ∷ xs) =
    (λ m. ground (arith, In-insert_key k y xs), λ m. ground (arith, In-insert_key k y xs))

In-sort_keys : (y : ℕ) (ks : List ℕ) → In y (sort_keys ks) ↔ In y ks
unfolding sort_keys
In-sort_keys y [] = (λ m. m, λ m. m)
In-sort_keys y (k ∷ ks) =
    let i = In-insert_key k y (sort_keys ks) in
    let s = In-sort_keys y ks in
    (
      λ m. elim (i.0 m) [ inl e ↦ inl e | inr n ↦ inr (s.0 n) ],
      λ m. i.1 (elim m [ inl e ↦ inl e | inr n ↦ inr (s.1 n) ]),
    )

insert_key-IsSorted : (k : ℕ) (ks : List ℕ) → IsSorted ks → IsSorted (insert_key k ks)
unfolding insert_key
insert_key-IsSorted k [] h = (λ y m. absurd m, tt)
insert_key-IsSorted k (x ∷ xs) h = elim (Bool-cases (ltb x k)) [
  | inl e ↦
      rw (e, insert_key)
        (
          λ y m. elim ((In-insert_key k y xs).0 m) [ inl q ↦ ground arith | inr n ↦ h.0 y n ],
          insert_key-IsSorted k xs h.1,
        )
  | inr e ↦
      rw (e, insert_key)
        (λ y m. elim m [ inl q ↦ ground arith | inr n ↦ (let b = h.0 y n in ground arith) ], h)
]

sort_keys-IsSorted : (ks : List ℕ) → IsSorted (sort_keys ks)
unfolding sort_keys
sort_keys-IsSorted [] = tt
sort_keys-IsSorted (k ∷ ks) = insert_key-IsSorted k (sort_keys ks) (sort_keys-IsSorted ks)

begins_with-In : (k : ℕ) (ks : List ℕ) → begins_with k ks ≡ true → In k ks
begins_with-In k [] h = cc
begins_with-In k (x ∷ xs) h = inl ((==_iff k x).0 h)

In-compact_keys : (y : ℕ) (ks : List ℕ) → In y (compact_keys ks) ↔ In y ks
unfolding compact_keys
In-compact_keys y [] = (λ m. m, λ m. m)
In-compact_keys y (k ∷ ks) =
    let i = In-compact_keys y ks in
    elim (Bool-cases (begins_with k ks)) [
      | inl e ↦
          rw (e, compact_keys)
            (
              λ m. inr (i.0 m),
              λ m. i.1 (elim m [ inl q ↦ rw q (begins_with-In k ks e) | inr n ↦ n ]),
            )
      | inr e ↦
          rw (e, compact_keys)
            (
              λ m. elim m [ inl q ↦ inl q | inr n ↦ inr (i.0 n) ],
              λ m. elim m [ inl q ↦ inl q | inr n ↦ inr (i.1 n) ],
            )
    ]

behind-lt :
    (k : ℕ) (ks : List ℕ) → IsSorted (k ∷ ks) → begins_with k ks ≡ false → (y : ℕ) → In y ks → k < y
behind-lt k [] h e y m = absurd m
behind-lt k (x ∷ xs) h e y (inl q) = let b = h.0 x (inl refl) in ground arith
behind-lt k (x ∷ xs) h e y (inr n) = let b = h.0 x (inl refl) in let c = h.1.0 y n in ground arith

compact_keys-IsRising : (ks : List ℕ) → IsSorted ks → IsRising (compact_keys ks)
unfolding compact_keys
compact_keys-IsRising [] h = tt
compact_keys-IsRising (k ∷ ks) h = elim (Bool-cases (begins_with k ks)) [
  | inl e ↦ rw (e, compact_keys) (compact_keys-IsRising ks h.1)
  | inr e ↦
      rw (e, compact_keys)
        (λ y m. behind-lt k ks h e y ((In-compact_keys y ks).0 m), compact_keys-IsRising ks h.1)
]

rising_unique :
    (xs ys : List ℕ) → IsRising xs → IsRising ys → ((k : ℕ) → In k xs ↔ In k ys) → xs ≡ ys
rising_unique [] [] p q h = refl
rising_unique [] (y ∷ ys) p q h = absurd ((h y).1 (inl refl))
rising_unique (x ∷ xs) [] p q h = absurd ((h x).0 (inl refl))
rising_unique (x ∷ xs) (y ∷ ys) p q h =
    let first : x ≡ y = front ((h x).0 (inl refl)) ((h y).1 (inl refl)) in
    let rest = rising_unique xs ys p.1 q.1 (λ k. (
      λ m. tail_of first (p.0 k m) ((h k).0 (inr m)),
      λ m. tail_back first (q.0 k m) ((h k).1 (inr m)),
    )) in
    cc
  where
    front : In x (y ∷ ys) → In y (x ∷ xs) → x ≡ y
    front (inl e) m = e
    front (inr n) (inl e) = sym e
    front (inr n) (inr m) = let a = q.0 x n in let b = p.0 y m in absurd (omega (arith, a, b))

    tail_of : {k : ℕ} → x ≡ y → x < k → In k (y ∷ ys) → In k ys
    tail_of e l (inl u) = absurd (omega (arith, e, l, u))
    tail_of e l (inr n) = n

    tail_back : {k : ℕ} → x ≡ y → y < k → In k (x ∷ xs) → In k xs
    tail_back e l (inl u) = absurd (omega (arith, e, l, u))
    tail_back e l (inr n) = n

pub lock_order-IsRising : (keys : List ℕ) → IsRising (lock_order keys)
unfolding lock_order
lock_order-IsRising keys = compact_keys-IsRising (sort_keys keys) (sort_keys-IsSorted keys)

In-lock_order : (k : ℕ) (keys : List ℕ) → In k (lock_order keys) ↔ In k keys
unfolding lock_order
In-lock_order k keys =
    let c = In-compact_keys k (sort_keys keys) in
    let s = In-sort_keys k keys in (λ m. s.0 (c.0 m), λ m. c.1 (s.1 m))

-- Two deliveries whose lock keys are the same, whatever their order and however often each occurs,
-- take the same locks in one order, in which each key is larger than all before it.
pub one_order_of_locks :
    (keys keys' : List ℕ)
    → ((k : ℕ) → In k keys ↔ In k keys')
    → (lock_order keys ≡ lock_order keys') × IsRising (lock_order keys)
one_order_of_locks keys keys' h = (
  rising_unique (lock_order keys) (lock_order keys') (lock_order-IsRising keys)
      (lock_order-IsRising keys')
      (λ k. (
        λ m. (In-lock_order k keys').1 ((h k).0 ((In-lock_order k keys).0 m)),
        λ m. (In-lock_order k keys).1 ((h k).1 ((In-lock_order k keys').0 m)),
      )),
  lock_order-IsRising keys,
)
