-- ===== src/Prelude/Ordered.antt =====
-- `std::map` with a number as its key: an association list in the order of its keys.
use Prim.Native.Nat.{ℕ, ◌<◌}
use mathlib.Core.Path.{◌≡◌, refl}
use mathlib.Core.Option.{some}
use mathlib.Core.List.{List, [], ◌∷◌}
use native.Mathlib.Omega.{arith}
use obmc_yadro_webapp.Prelude.Tests.{◌==◌, ltb, nat_eq, if◌then◌else◌}
use obmc_yadro_webapp.Prelude.Lists.{All}
use obmc_yadro_webapp.Prelude.Dict.{lookup, erase, IsAbsent, IsDict}

module _ {ℓ} {V : Type ℓ} where
  -- `insert_or_assign`.
  unfoldable pub assign_ordered : ℕ → V → List (ℕ × V) → List (ℕ × V)
  assign_ordered k v [] = (k, v) ∷ []
  assign_ordered k v ((j, w) ∷ m) =
      if j == k
      then (k, v) ∷ m
      else if ltb k j
      then (k, v) ∷ (j, w) ∷ m
      else (j, w) ∷ assign_ordered k v m

  -- Every key is above the bound.
  abbrev pub IsAbove : ℕ → List (ℕ × V) → Type 0
  IsAbove k [] = Unit
  IsAbove k ((j, w) ∷ m) = (k < j) × IsAbove k m

  -- The keys rise.
  abbrev pub IsOrdered : List (ℕ × V) → Type 0
  IsOrdered [] = Unit
  IsOrdered ((j, w) ∷ m) = IsAbove j m × IsOrdered m

  pub lookup-assign_ordered :
      (k j : ℕ) (v : V) (m : List (ℕ × V))
      → lookup j (assign_ordered k v m) ≡ (if k == j then some v else lookup j m)
  unfolding lookup assign_ordered
  lookup-assign_ordered k j v [] = refl
  lookup-assign_ordered k j v ((i, w) ∷ m) = ground (arith, lookup-assign_ordered k j v m)

  IsAbove-assign :
      (i k : ℕ) (v : V) (m : List (ℕ × V)) → i < k → IsAbove i m → IsAbove i (assign_ordered k v m)
  unfolding assign_ordered
  IsAbove-assign i k v [] n h = (n, tt)
  IsAbove-assign i k v ((j, w) ∷ m) n h = ground (arith, IsAbove-assign i k v m n h.1)

  IsAbove-lower : (i j : ℕ) (m : List (ℕ × V)) → i < j → IsAbove j m → IsAbove i m
  IsAbove-lower i j [] n h = tt
  IsAbove-lower i j ((k, w) ∷ m) n h = (omega arith, IsAbove-lower i j m n h.1)

  pub assign_ordered-IsOrdered :
      (k : ℕ) (v : V) (m : List (ℕ × V)) → IsOrdered m → IsOrdered (assign_ordered k v m)
  unfolding assign_ordered
  assign_ordered-IsOrdered k v [] h = (tt, tt)
  assign_ordered-IsOrdered k v ((j, w) ∷ m) h =
      ground
        (arith, assign_ordered-IsOrdered k v m h.1, IsAbove-assign j k v m, IsAbove-lower k j m)

  IsAbove-erase : (i k : ℕ) (m : List (ℕ × V)) → IsAbove i m → IsAbove i (erase k m)
  unfolding erase
  IsAbove-erase i k [] h = tt
  IsAbove-erase i k ((j, w) ∷ m) h = ground (arith, IsAbove-erase i k m h.1)

  pub erase-IsOrdered : (k : ℕ) (m : List (ℕ × V)) → IsOrdered m → IsOrdered (erase k m)
  unfolding erase
  erase-IsOrdered k [] h = tt
  erase-IsOrdered k ((j, w) ∷ m) h =
      ground (arith, erase-IsOrdered k m h.1, IsAbove-erase j k m h.0)

  IsAbove-IsAbsent : (j : ℕ) (m : List (ℕ × V)) → IsAbove j m → IsAbsent j m
  IsAbove-IsAbsent j [] h = tt
  IsAbove-IsAbsent j ((k, w) ∷ m) h = (ground arith, IsAbove-IsAbsent j m h.1)

  pub IsOrdered-IsDict : (m : List (ℕ × V)) → IsOrdered m → IsDict m
  IsOrdered-IsDict [] h = tt
  IsOrdered-IsDict ((j, w) ∷ m) h = (IsAbove-IsAbsent j m h.0, IsOrdered-IsDict m h.1)

  pub All-assign_ordered {κ} :
      (P : ℕ × V → Type κ) (k : ℕ) (v : V) (m : List (ℕ × V))
      → P (k, v)
      → All P m
      → All P (assign_ordered k v m)
  unfolding assign_ordered
  All-assign_ordered P k v [] p h = (p, tt)
  All-assign_ordered P k v ((j, w) ∷ m) p h = ground (arith, All-assign_ordered P k v m p h.1)

  pub All-erase {κ} : (P : ℕ × V → Type κ) (k : ℕ) (m : List (ℕ × V)) → All P m → All P (erase k m)
  unfolding erase
  All-erase P k [] h = tt
  All-erase P k ((j, w) ∷ m) h = ground (arith, All-erase P k m h.1)
