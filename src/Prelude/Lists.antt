-- ===== src/Prelude/Lists.antt =====
-- Lists under native indices, membership by recursion, and the Boolean searches of a list.
use Prim.Native.Nat.{ℕ, zero, suc, ◌+◌}
use mathlib.Core.Path.{◌≡◌, refl, ap}
use mathlib.Core.Logic.{◌⊎◌, inl, inr}
use mathlib.Core.Bool.{Bool, true, false, ◌||◌}
use mathlib.Core.List.{List, [], ◌∷◌, ◌++◌, map}
use mathlib.Core.Option.{Option, none, some}
use native.Mathlib.Omega.{arith}
use lawang.Prelude.Tests.{if◌then◌else◌, Bool-cases}

module _ {ℓ} {A : Type ℓ} where
  abbrev pub length : List A → ℕ
  length [] = 0
  length (x ∷ xs) = suc (length xs)

  abbrev pub get_elem? : List A → ℕ → Option A
  get_elem? [] i = none
  get_elem? (x ∷ xs) zero = some x
  get_elem? (x ∷ xs) (suc i) = get_elem? xs i

  abbrev pub take : ℕ → List A → List A
  take zero xs = []
  take (suc n) [] = []
  take (suc n) (x ∷ xs) = x ∷ take n xs

  abbrev pub drop : ℕ → List A → List A
  drop zero xs = xs
  drop (suc n) [] = []
  drop (suc n) (x ∷ xs) = drop n xs

  abbrev pub any : (A → Bool) → List A → Bool
  any p [] = false
  any p (x ∷ xs) = p x || any p xs

  abbrev pub filter : (A → Bool) → List A → List A
  filter p [] = []
  filter p (x ∷ xs) = let rest = filter p xs in if p x then x ∷ rest else rest

  abbrev pub find : (A → Bool) → List A → Option A
  find p [] = none
  find p (x ∷ xs) = let rest = find p xs in if p x then some x else rest

  pub take-drop : (n : ℕ) (xs : List A) → take n xs ++ drop n xs ≡ xs
  take-drop zero xs = refl
  take-drop (suc n) [] = refl
  take-drop (suc n) (x ∷ xs) = ap (λ l. x ∷ l) (take-drop n xs)

  pub take-drop_from :
      (n a b : ℕ) (xs : List A) → b ≡ a + n → take n (drop a xs) ++ drop b xs ≡ drop a xs
  take-drop_from n zero b xs e = let k : b ≡ n = omega arith in rw k (take-drop n xs)
  take-drop_from n (suc a) zero xs e = absurd (omega arith)
  take-drop_from zero (suc a) (suc b) [] e = refl
  take-drop_from (suc n) (suc a) (suc b) [] e = refl
  take-drop_from n (suc a) (suc b) (x ∷ xs) e = take-drop_from n a b xs (omega arith)

  pub length-append : (xs ys : List A) → length (xs ++ ys) ≡ length xs + length ys
  length-append [] ys = omega arith
  length-append (x ∷ xs) ys = omega (arith, length-append xs ys)

module _ {A : Type 0} where
  -- `x` stands in the list. A type by recursion, with the place kept.
  abbrev pub In : A → List A → Type 0
  In x [] = ⊥
  In x (y ∷ ys) = (x ≡ y) ⊎ In x ys

  pub In-append : (x : A) (xs ys : List A) → In x (xs ++ ys) → In x xs ⊎ In x ys
  In-append x [] ys m = inr m
  In-append x (y ∷ xs) ys (inl e) = inl (inl e)
  In-append x (y ∷ xs) ys (inr m) = elim (In-append x xs ys m) [
    | inl k ↦ inl (inr k)
    | inr k ↦ inr k
  ]

  pub any-eq_true :
      (p : A → Bool) (xs : List A) → any p xs ≡ true → (x : A) × In x xs × (p x ≡ true)
  any-eq_true p [] h = cc
  any-eq_true p (x ∷ xs) h = elim (Bool-cases (p x)) [
    | inl e ↦ (x, inl refl, e)
    | inr e ↦ let (y, m, q) = any-eq_true p xs (ground arith) in (y, inr m, q)
  ]

  pub any-eq_false : (p : A → Bool) (xs : List A) (x : A) → any p xs ≡ false → In x xs → p x ≡ false
  any-eq_false p [] x h m = absurd m
  any-eq_false p (y ∷ ys) x h (inl e) = rw e (ground arith)
  any-eq_false p (y ∷ ys) x h (inr m) = any-eq_false p ys x (ground arith) m

  pub find-eq_some :
      (p : A → Bool) (xs : List A) (x : A) → find p xs ≡ some x → In x xs × (p x ≡ true)
  find-eq_some p [] x h = cc
  find-eq_some p (y ∷ ys) x h = ground (arith, find-eq_some p ys x)

  pub find-eq_none : (p : A → Bool) (xs : List A) (x : A) → find p xs ≡ none → In x xs → p x ≡ false
  find-eq_none p [] x h m = absurd m
  find-eq_none p (y ∷ ys) x h (inl e) = rw e (ground arith)
  find-eq_none p (y ∷ ys) x h (inr m) = find-eq_none p ys x (ground arith) m

  pub In-filter : (p : A → Bool) (xs : List A) (x : A) → In x (filter p xs) → In x xs × (p x ≡ true)
  In-filter p [] x m = absurd m
  In-filter p (y ∷ ys) x m = ground (arith, In-filter p ys x)

  pub In-filter_of :
      (p : A → Bool) (xs : List A) (x : A) → In x xs → p x ≡ true → In x (filter p xs)
  In-filter_of p [] x m h = absurd m
  In-filter_of p (y ∷ ys) x (inl e) h = ground arith
  In-filter_of p (y ∷ ys) x (inr m) h = ground (arith, In-filter_of p ys x m h)

module _ {A B : Type 0} (f : A → B) where
  pub In-map : (xs : List A) (y : B) → In y (map f xs) → (x : A) × In x xs × (y ≡ f x)
  In-map [] y m = absurd m
  In-map (x ∷ xs) y (inl e) = (x, inl refl, e)
  In-map (x ∷ xs) y (inr m) = let (z, n, e) = In-map xs y m in (z, inr n, e)

  pub In-map_of : (xs : List A) (x : A) → In x xs → In (f x) (map f xs)
  In-map_of [] x m = absurd m
  In-map_of (y ∷ ys) x (inl e) = inl (ap f e)
  In-map_of (y ∷ ys) x (inr m) = inr (In-map_of ys x m)

module _ {A : Type 0} where
  pub any-eq_true_of : (p : A → Bool) (xs : List A) (x : A) → In x xs → p x ≡ true → any p xs ≡ true
  any-eq_true_of p [] x m h = absurd m
  any-eq_true_of p (y ∷ ys) x (inl e) h = ground arith
  any-eq_true_of p (y ∷ ys) x (inr m) h = ground (arith, any-eq_true_of p ys x m h)

  pub filter-eq_nil :
      (p : A → Bool) (xs : List A) → ((x : A) → In x xs → p x ≡ false) → filter p xs ≡ []
  filter-eq_nil p [] h = refl
  filter-eq_nil p (x ∷ xs) h =
      ground (arith, h x (inl refl), filter-eq_nil p xs (λ y m. h y (inr m)))

  pub take-nil : (n : ℕ) → take {A = A} n [] ≡ []
  take-nil zero = refl
  take-nil (suc n) = refl

  pub any-eq_false_of :
      (p : A → Bool) (xs : List A) → ((x : A) → In x xs → p x ≡ false) → any p xs ≡ false
  any-eq_false_of p [] h = refl
  any-eq_false_of p (x ∷ xs) h =
      ground (arith, h x (inl refl), any-eq_false_of p xs (λ y m. h y (inr m)))

  pub find-eq_none_of :
      (p : A → Bool) (xs : List A) → ((x : A) → In x xs → p x ≡ false) → find p xs ≡ none
  find-eq_none_of p [] h = refl
  find-eq_none_of p (x ∷ xs) h =
      ground (arith, h x (inl refl), find-eq_none_of p xs (λ y m. h y (inr m)))

module _ {A B C : Type 0} (f : A → B) (g : B → C) where
  pub map-map_lem : (xs : List A) → map g (map f xs) ≡ map (λ x. g (f x)) xs
  map-map_lem [] = refl
  map-map_lem (x ∷ xs) = ground (arith, map-map_lem xs)

pub map-eq_map_of :
    {A B : Type 0} (f g : A → B) (xs : List A)
    → ((x : A) → In x xs → f x ≡ g x)
    → map f xs ≡ map g xs
map-eq_map_of f g [] h = refl
map-eq_map_of f g (x ∷ xs) h =
    ground (arith, h x (inl refl), map-eq_map_of f g xs (λ y m. h y (inr m)))

pub map-id_lem : {A : Type 0} (xs : List A) → map (λ x. x) xs ≡ xs
map-id_lem [] = refl
map-id_lem (x ∷ xs) = ground (arith, map-id_lem xs)
