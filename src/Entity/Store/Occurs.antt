-- ===== src/Entity/Store/Occurs.antt =====
-- What stands in a list, and in a map with numbers as keys that is assigned to.
use obmc_yadro_webapp.Prelude.{
  ℕ, ◌≡◌, ◌<◌, ◌≢◌, ◌⊎◌, ◌↔◌, ◌∙◌, ap, sym, inl, inr, Bool, true, List, [], ◌∷◌, ◌++◌, nat_eq, ◌==◌,
  ltb, keep, arith, Bool-cases,
}
use mathlib.Core.Path.{subst}
use obmc_yadro_webapp.Prelude.Ordered.{assign_ordered, IsOrdered, IsAbove}

-- The entry stands in the list.
unfoldable pub Occurs : {A : Type 0} → A → List A → Type 0
Occurs x [] = ⊥
Occurs x (y ∷ ys) = (y ≡ x) ⊎ Occurs x ys

module _ {A : Type 0} where
  pub Occurs-append : (x : A) (xs ys : List A) → Occurs x (xs ++ ys) ↔ (Occurs x xs ⊎ Occurs x ys)
  unfolding Occurs
  Occurs-append x [] ys =
      (λ h. inr h, λ h. elim h [ inl impossible ↦ absurd impossible | inr there ↦ there ])
  Occurs-append x (y ∷ xs) ys = ground (arith, Occurs-append x xs ys)

  pub Occurs-keep :
      (p : A → Bool) (x : A) (xs : List A) → Occurs x (keep p xs) ↔ (Occurs x xs × (p x ≡ true))
  unfolding Occurs
  Occurs-keep p x [] = (λ h. absurd h, λ h. absurd h.0)
  Occurs-keep p x (y ∷ xs) = elim (Bool-cases (p y)) [
    | inl passed ↦ rw passed (
      λ h. elim h [
        | inl here ↦ (inl here, ap p (sym here) ∙ passed)
        | inr there ↦ let rest = (Occurs-keep p x xs).0 there in (inr rest.0, rest.1)
      ],
      λ h. elim h.0 [ inl here ↦ inl here | inr there ↦ inr ((Occurs-keep p x xs).1 (there, h.1)) ],
    )
    | inr failed ↦ rw failed (
      λ h. let rest = (Occurs-keep p x xs).0 h in (inr rest.0, rest.1),
      λ h. elim h.0 [
        | inl here ↦ let not_here = sym failed ∙ ap p here ∙ h.1 in absurd (ground arith)
        | inr there ↦ (Occurs-keep p x xs).1 (there, h.1)
      ],
    )
  ]

module _ {V : Type 0} where
  Occurs-above : (i : ℕ) (e : ℕ × V) (m : List (ℕ × V)) → IsAbove i m → Occurs e m → i < e.0
  unfolding Occurs
  Occurs-above i e [] h o = absurd o
  Occurs-above i e ((j, w) ∷ m) h (inl here) = subst (λ (f : ℕ × V). i < f.0) here h.0
  Occurs-above i e ((j, w) ∷ m) h (inr there) = Occurs-above i e m h.1 there

  -- An entry of a map in which a key is set: that one, or another key's.
  unfoldable pub Set : ℕ → V → ℕ × V → List (ℕ × V) → Type 0
  Set k v e m = Path (ℕ × V) (k, v) e ⊎ ((e.0 ≢ k) × Occurs e m)

  pub Occurs-assign_ordered :
      (k : ℕ) (v : V) (e : ℕ × V) (m : List (ℕ × V))
      → IsOrdered m
      → Occurs e (assign_ordered k v m) ↔ Set k v e m
  unfolding Occurs assign_ordered Set
  Occurs-assign_ordered k v e [] h = (
    λ o. elim o [ inl here ↦ inl here | inr impossible ↦ absurd impossible ],
    λ o. elim o [ inl here ↦ inl here | inr other ↦ absurd other.1 ],
  )
  Occurs-assign_ordered k v e ((i, u) ∷ m) h = elim (Bool-cases (i == k)) [
    | inl same ↦ rw same (
      λ o. elim o [
        | inl here ↦ inl here
        | inr there ↦ let above = Occurs-above i e m h.0 there in inr (ground arith, inr there)
      ],
      λ o. elim o [
        | inl here ↦ inl here
        | inr (other, inl here) ↦
            let key : i ≡ e.0 = ap (λ (f : ℕ × V). f.0) here in absurd (ground arith)
        | inr (other, inr there) ↦ inr there
      ],
    )
    | inr different ↦ elim (Bool-cases (ltb k i)) [
      | inl before ↦
          rw (different, before)
            (
              λ o. elim o [
                | inl here ↦ inl here
                | inr (inl here) ↦
                    let key : i ≡ e.0 = ap (λ (f : ℕ × V). f.0) here in inr (ground arith, inl here)
                | inr (inr there) ↦
                    let above = Occurs-above i e m h.0 there in inr (ground arith, inr there)
              ],
              λ o. elim o [ inl here ↦ inl here | inr other ↦ inr other.1 ],
            )
      | inr behind ↦
          rw (different, behind)
            (
              λ o. elim o [
                | inl here ↦
                    let key : i ≡ e.0 = ap (λ (f : ℕ × V). f.0) here in inr (ground arith, inl here)
                | inr there ↦ elim ((Occurs-assign_ordered k v e m h.1).0 there) [
                  | inl set ↦ inl set
                  | inr (other, kept) ↦ inr (other, inr kept)
                ]
              ],
              λ o. elim o [
                | inl set ↦ inr ((Occurs-assign_ordered k v e m h.1).1 (inl set))
                | inr (other, inl here) ↦ inl here
                | inr (other, inr there) ↦
                    inr ((Occurs-assign_ordered k v e m h.1).1 (inr (other, there)))
              ],
            )
    ]
  ]
