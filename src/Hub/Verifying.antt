-- ===== src/Hub/Verifying.antt =====
-- What verifyAll of internal/hub/hub.go says of the candidates.
use lawang.Prelude.{
  ◌≡◌, true, false, inl, inr, ◌⊎◌, List, [], ◌∷◌, none, some, In, arith, refl, subst,
}
use lawang.Provider.{Request, Source, Verification, answered, panicked, timed_out}
use lawang.Hub.{Candidate, owners, verify_all}

Verification-cases :
    (v : Verification)
    → (v ≡ timed_out) ⊎ ((v ≡ panicked) ⊎ ((v ≡ answered true) ⊎ (v ≡ answered false)))
Verification-cases timed_out = inl refl
Verification-cases panicked = inr (inl refl)
Verification-cases (answered true) = inr (inr (inl refl))
Verification-cases (answered false) = inr (inr (inr refl))

module _ (source : Source) (req : Request) where
  -- No candidate's secret verifies the request.
  abbrev pub NoneVerify : List Candidate → Type 0
  NoneVerify cs = (d : Candidate) → In d cs → source.verify req d.secret ≡ answered false

  -- One candidate's secret verifies the request, and no other's.
  abbrev pub OneVerifies : Candidate → List Candidate → Type 0
  OneVerifies c cs =
      In c cs
      × (source.verify req c.secret ≡ answered true)
      × ((d : Candidate) → In d cs → source.verify req d.secret ≡ answered true → d ≡ c)

  refuted :
      {P : Type 0} (d : Candidate)
      → source.verify req d.secret ≡ answered false
      → source.verify req d.secret ≡ answered true
      → P
  refuted d a b = absurd cc

  NoneVerify-cons :
      (c : Candidate) (cs : List Candidate)
      → source.verify req c.secret ≡ answered false
      → NoneVerify cs
      → NoneVerify (c ∷ cs)
  NoneVerify-cons c cs e h d (inl q) = rw q e
  NoneVerify-cons c cs e h d (inr m) = h d m

  owners_after_one :
      (o : Candidate) (cs os : List Candidate)
      → verify_all source req (some o) cs ≡ owners os
      → ((os ≡ o ∷ []) × NoneVerify cs) ⊎ ((c : Candidate) × (os ≡ o ∷ c ∷ []))
  unfolding verify_all
  owners_after_one o [] os h = inl (ground arith, λ d m. absurd m)
  owners_after_one o (c ∷ cs) os h = elim (Verification-cases (source.verify req c.secret)) [
    | inl e ↦ absurd (ground (arith, e))
    | inr (inl e) ↦ absurd (ground (arith, e))
    | inr (inr (inl e)) ↦ inr (c, ground (arith, e))
    | inr (inr (inr e)) ↦ elim (owners_after_one o cs os (ground (arith, e))) [
      | inl (q, n) ↦ inl (q, NoneVerify-cons c cs e n)
      | inr k ↦ inr k
    ]
  ]

  pub owners_found :
      (cs os : List Candidate)
      → verify_all source req none cs ≡ owners os
      → ((os ≡ []) × NoneVerify cs)
        ⊎ (((c : Candidate) × (os ≡ c ∷ []) × OneVerifies c cs)
            ⊎ ((c : Candidate) × (d : Candidate) × (os ≡ c ∷ d ∷ [])))
  unfolding verify_all
  owners_found [] os h = inl (ground arith, λ d m. absurd m)
  owners_found (c ∷ cs) os h = elim (Verification-cases (source.verify req c.secret)) [
    | inl e ↦ absurd (ground (arith, e))
    | inr (inl e) ↦ absurd (ground (arith, e))
    | inr (inr (inl e)) ↦ elim (owners_after_one c cs os (ground (arith, e))) [
      | inl (q, n) ↦
          inr
            (inl (c, q, (inl refl, e, λ d m v. elim m [ inl p ↦ p | inr k ↦ refuted d (n d k) v ])))
      | inr (d, q) ↦ inr (inr (c, d, q))
    ]
    | inr (inr (inr e)) ↦ elim (owners_found cs os (ground (arith, e))) [
      | inl (q, n) ↦ inl (q, NoneVerify-cons c cs e n)
      | inr (inl (d, q, (m, v, u))) ↦ inr (
          inl (
            d,
            q,
            (
              inr m,
              v,
              λ x n w. elim n [
                | inl p ↦
                    refuted c e
                      (subst (λ (z : Candidate). source.verify req z.secret ≡ answered true) p w)
                | inr k ↦ u x k w
              ],
            ),
          ))
      | inr (inr k) ↦ inr (inr k)
    ]
  ]
