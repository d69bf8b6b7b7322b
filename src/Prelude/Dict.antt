-- ===== src/Prelude/Dict.antt =====
-- `std::map` and `std::unordered_map` as association lists. A new entry goes to the end.
use mathlib.Core.Path.{◌≡◌, refl, subst}
use mathlib.Core.Logic.{inl, inr}
use mathlib.Core.Bool.{Bool, false}
use mathlib.Core.Option.{Option, none, some}
use mathlib.Core.List.{List, [], ◌∷◌}
use native.Mathlib.Omega.{arith}
use obmc_yadro_webapp.Prelude.Tests.{Eq, ◌==◌, if◌then◌else◌, Bool-cases}
use obmc_yadro_webapp.Prelude.Lists.{All, keep}

module _ {ℓ κ} {K : Type ℓ} {V : Type κ} ⦃e : Eq K⦄ where
  -- `find`: the value at a key.
  unfoldable pub lookup : K → List (K × V) → Option V
  lookup k [] = none
  lookup k ((j, v) ∷ m) = if j == k then some v else lookup k m

  -- `emplace`: an existing entry stays.
  unfoldable pub emplace : K → V → List (K × V) → List (K × V)
  emplace k v [] = (k, v) ∷ []
  emplace k v ((j, w) ∷ m) = if j == k then (j, w) ∷ m else (j, w) ∷ emplace k v m

  -- `insert_or_assign`: an existing entry is replaced.
  unfoldable pub insert_or_assign : K → V → List (K × V) → List (K × V)
  insert_or_assign k v [] = (k, v) ∷ []
  insert_or_assign k v ((j, w) ∷ m) = if j == k then (j, v) ∷ m else (j, w) ∷ insert_or_assign k v m

  -- `erase` by key.
  unfoldable pub erase : K → List (K × V) → List (K × V)
  erase k [] = []
  erase k ((j, w) ∷ m) = if j == k then m else (j, w) ∷ erase k m

  -- The key stands in no entry.
  abbrev pub IsAbsent : K → List (K × V) → Type ℓ
  IsAbsent k [] = Unit
  IsAbsent k ((j, w) ∷ m) = ((j == k) ≡ false) × IsAbsent k m

  -- No key stands twice.
  abbrev pub IsDict : List (K × V) → Type ℓ
  IsDict [] = Unit
  IsDict ((j, w) ∷ m) = IsAbsent j m × IsDict m

  pub lookup_of_IsAbsent : (k : K) (m : List (K × V)) → IsAbsent k m → lookup k m ≡ none
  unfolding lookup
  lookup_of_IsAbsent k [] h = refl
  lookup_of_IsAbsent k ((j, w) ∷ m) h = ground (arith, lookup_of_IsAbsent k m h.1)

  pub lookup-emplace :
      (k j : K) (v : V) (m : List (K × V))
      → lookup j (emplace k v m)
        ≡ elim (lookup j m) [ some w ↦ some w | none ↦ if k == j then some v else none ]
  unfolding lookup emplace
  lookup-emplace k j v [] = ground arith
  lookup-emplace k j v ((i, w) ∷ m) =
      ground (arith, e.eqb_iff k j, e.eqb_iff i k, e.eqb_iff i j, lookup-emplace k j v m)

  pub lookup-emplace_other :
      (k j : K) (v : V) (m : List (K × V))
      → (k == j) ≡ false
      → lookup j (emplace k v m) ≡ lookup j m
  unfolding lookup emplace
  lookup-emplace_other k j v [] n = ground arith
  lookup-emplace_other k j v ((i, w) ∷ m) n =
      ground (arith, e.eqb_iff k j, e.eqb_iff i k, e.eqb_iff i j, lookup-emplace_other k j v m n)

  pub lookup-emplace_new :
      (k j : K) (v : V) (m : List (K × V))
      → lookup k m ≡ none
      → lookup j (emplace k v m) ≡ (if k == j then some v else lookup j m)
  lookup-emplace_new k j v m h = ground (arith, e.eqb_iff k j, lookup-emplace k j v m)

  pub lookup-insert_or_assign :
      (k j : K) (v : V) (m : List (K × V))
      → lookup j (insert_or_assign k v m) ≡ (if k == j then some v else lookup j m)
  unfolding lookup insert_or_assign
  lookup-insert_or_assign k j v [] = refl
  lookup-insert_or_assign k j v ((i, w) ∷ m) =
      ground (arith, e.eqb_iff k j, e.eqb_iff i k, e.eqb_iff i j, lookup-insert_or_assign k j v m)

  pub lookup-erase :
      (k j : K) (m : List (K × V))
      → IsDict m
      → lookup j (erase k m) ≡ (if k == j then none else lookup j m)
  unfolding lookup erase
  lookup-erase k j [] h = ground arith
  lookup-erase k j ((i, w) ∷ m) h = ground (
    arith,
    e.eqb_iff k j,
    e.eqb_iff i k,
    e.eqb_iff i j,
    lookup-erase k j m h.1,
    lookup_of_IsAbsent i m h.0,
  )

  IsAbsent-emplace :
      (i k : K) (v : V) (m : List (K × V))
      → (k == i) ≡ false
      → IsAbsent i m
      → IsAbsent i (emplace k v m)
  unfolding emplace
  IsAbsent-emplace i k v [] n h = (n, tt)
  IsAbsent-emplace i k v ((j, w) ∷ m) n h = ground (arith, IsAbsent-emplace i k v m n h.1)

  IsAbsent-assign :
      (i k : K) (v : V) (m : List (K × V))
      → (k == i) ≡ false
      → IsAbsent i m
      → IsAbsent i (insert_or_assign k v m)
  unfolding insert_or_assign
  IsAbsent-assign i k v [] n h = (n, tt)
  IsAbsent-assign i k v ((j, w) ∷ m) n h = ground (arith, IsAbsent-assign i k v m n h.1)

  IsAbsent-erase : (i k : K) (m : List (K × V)) → IsAbsent i m → IsAbsent i (erase k m)
  unfolding erase
  IsAbsent-erase i k [] h = tt
  IsAbsent-erase i k ((j, w) ∷ m) h = ground (arith, IsAbsent-erase i k m h.1)

  pub emplace-IsDict : (k : K) (v : V) (m : List (K × V)) → IsDict m → IsDict (emplace k v m)
  unfolding emplace
  emplace-IsDict k v [] h = (tt, tt)
  emplace-IsDict k v ((j, w) ∷ m) h =
      ground
        (arith, e.eqb_iff j k, e.eqb_iff k j, emplace-IsDict k v m h.1, IsAbsent-emplace j k v m)

  pub insert_or_assign-IsDict :
      (k : K) (v : V) (m : List (K × V)) → IsDict m → IsDict (insert_or_assign k v m)
  unfolding insert_or_assign
  insert_or_assign-IsDict k v [] h = (tt, tt)
  insert_or_assign-IsDict k v ((j, w) ∷ m) h = ground (
    arith,
    e.eqb_iff j k,
    e.eqb_iff k j,
    insert_or_assign-IsDict k v m h.1,
    IsAbsent-assign j k v m,
  )

  pub erase-IsDict : (k : K) (m : List (K × V)) → IsDict m → IsDict (erase k m)
  unfolding erase
  erase-IsDict k [] h = tt
  erase-IsDict k ((j, w) ∷ m) h = ground (arith, erase-IsDict k m h.1, IsAbsent-erase j k m h.0)

  IsAbsent-keep :
      (p : K × V → Bool) (i : K) (m : List (K × V)) → IsAbsent i m → IsAbsent i (keep p m)
  IsAbsent-keep p i [] h = tt
  IsAbsent-keep p i ((j, w) ∷ m) h = ground (arith, IsAbsent-keep p i m h.1)

  pub keep-IsDict : (p : K × V → Bool) (m : List (K × V)) → IsDict m → IsDict (keep p m)
  keep-IsDict p [] h = tt
  keep-IsDict p ((j, w) ∷ m) h = ground (arith, keep-IsDict p m h.1, IsAbsent-keep p j m h.0)

  -- Looking up after a filter that reads the whole entry.
  pub lookup-keep :
      (p : V → Bool) (k : K) (m : List (K × V))
      → IsDict m
      → lookup k (keep (λ b. p b.1) m)
        ≡ elim (lookup k m) [ none ↦ none | some v ↦ if p v then some v else none ]
  unfolding lookup
  lookup-keep p k [] h = refl
  lookup-keep p k ((j, w) ∷ m) h =
      ground (arith, e.eqb_iff j k, lookup-keep p k m h.1, lookup_of_IsAbsent j m h.0)

  pub All-emplace {μ} :
      (P : K × V → Type μ) (k : K) (v : V) (m : List (K × V))
      → P (k, v)
      → All P m
      → All P (emplace k v m)
  unfolding emplace
  All-emplace P k v [] p h = (p, tt)
  All-emplace P k v ((j, w) ∷ m) p h = ground (arith, All-emplace P k v m p h.1)

  pub All-lookup {μ} :
      (P : V → Type μ) (k : K) (v : V) (m : List (K × V))
      → All (λ b. P b.1) m
      → lookup k m ≡ some v
      → P v
  unfolding lookup
  All-lookup P k v [] h e = cc
  All-lookup P k v ((j, w) ∷ m) h e = elim (Bool-cases (j == k)) [
    | inl same ↦ subst P (ground arith) h.0
    | inr other ↦ All-lookup P k v m h.1 (ground arith)
  ]
