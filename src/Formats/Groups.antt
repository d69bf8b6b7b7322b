-- ===== src/Formats/Groups.antt =====
-- The groups of an account as numbers, against the list of the types that the dictionary has for them
-- (src/accounts.hpp).
use obmc_yadro_webapp.Prelude.{
  ℕ, ◌≡◌, ◌≢◌, ◌<◌, refl, inl, inr, Option, none, some, List, [], ◌∷◌, map, All, Eq, ◌==◌, nat_eq,
  text_eq, lookup, arith, Bool-cases, if◌then◌else◌,
}
use mathlib.Core.Path.{subst}
use obmc_yadro_webapp.Prelude.Int.{ℤ, pos}
use obmc_yadro_webapp.Prelude.Text.{Text}
use obmc_yadro_webapp.Entity.{strings, ints, int32, as_int}
use obmc_yadro_webapp.Formats.Base.{format_value_from_dict, raw_string}
use obmc_yadro_webapp.Formats.Parts.{
  AccountType, account_type_to_int, account_type_dict, account_types, emplace_int, int_of, is_int,
  ints_of, format_account_types,
}

-- The types of the groups that the dictionary names.
unfoldable pub known_types : List Text → List AccountType
known_types [] = []
known_types (group ∷ groups) =
    let rest = known_types groups in
    elim (lookup group account_type_dict) [ none ↦ rest | some type ↦ type ∷ rest ]

unfoldable pub to_ints : List AccountType → List ℤ
to_ints types = map (λ type. pos (account_type_to_int type)) types

lookup-All :
    {K V : Type 0} ⦃e : Eq K⦄ (P : V → Type 0) (k : K) (m : List (K × V)) (v : V)
    → All (λ entry. P entry.1) m
    → lookup k m ≡ some v
    → P v
unfolding lookup
lookup-All P k [] v h found = absurd (ground arith)
lookup-All P k ((j, w) ∷ m) v h found = elim (Bool-cases (j == k)) [
  | inl same ↦ subst P (ground arith) h.0
  | inr other ↦ lookup-All P k m v h.1 (ground arith)
]

account_type-lt :
    (group : Text) (type : AccountType)
    → lookup group account_type_dict ≡ some type
    → account_type_to_int type < 8
unfolding account_type_dict account_type_to_int
account_type-lt group type found =
    lookup-All (λ t. account_type_to_int t < 8) group account_type_dict type
      (omega arith, (omega arith, (omega arith, (omega arith, (omega arith, tt))))) found

turn :
    (n : ℕ) (rest : Option (List ℤ)) (ns : List ℤ)
    → n < 8
    → rest ≡ some ns
    → (if n == 8 then rest else emplace_int (some (pos n)) rest) ≡ some (pos n ∷ ns)
unfolding emplace_int
turn n rest ns h e = rw e (ground arith)

-- One turn of the loop, by what the dictionary has for the group.
account_type_step :
    (listed : Option AccountType) (rest : Option (List ℤ)) (types : List AccountType)
    → ((type : AccountType) → listed ≡ some type → account_type_to_int type < 8)
    → rest ≡ some (to_ints types)
    → elim (int_of (
        some (
          int32 (
            pos
              (account_type_to_int (elim listed [ none ↦ AccountType.unknown | some v ↦ v ])))))) [
                | none ↦ none
                | some n ↦
                    if is_int (account_type_to_int AccountType.unknown) n
                    then rest
                    else emplace_int (some n) rest
              ]
      ≡ some (to_ints (elim listed [ none ↦ types | some type ↦ type ∷ types ]))
unfolding int_of is_int emplace_int to_ints as_int account_type_to_int
account_type_step none rest types h e = e
account_type_step (some type) rest types h e =
    turn (account_type_to_int type) rest (to_ints types) (h type refl) e

account_types_lem :
    (groups : List Text) → account_types groups ≡ some (to_ints (known_types groups))
unfolding account_types known_types to_ints raw_string format_value_from_dict
account_types_lem [] = refl
account_types_lem (group ∷ groups) =
    account_type_step (lookup group account_type_dict) (account_types groups) (known_types groups)
      (account_type-lt group) (account_types_lem groups)

known_type :
    (group : Text) (type : AccountType)
    → lookup group account_type_dict ≡ some type
    → type ≢ AccountType.unknown
unfolding account_type_to_int
known_type group type found e =
    let below = subst (λ t. account_type_to_int t < 8) e (account_type-lt group type found) in
    absurd (omega arith)

known_types_step :
    (listed : Option AccountType) (types : List AccountType)
    → ((type : AccountType) → listed ≡ some type → type ≢ AccountType.unknown)
    → All (λ type. type ≢ AccountType.unknown) types
    → All
        (λ type. type ≢ AccountType.unknown)
        (elim listed [ none ↦ types | some type ↦ type ∷ types ])
known_types_step none types h all = all
known_types_step (some type) types h all = (h type refl, all)

known_types-All :
    (groups : List Text) → All (λ type. type ≢ AccountType.unknown) (known_types groups)
unfolding known_types
known_types-All [] = tt
known_types-All (group ∷ groups) =
    known_types_step (lookup group account_type_dict) (known_types groups) (known_type group)
      (known_types-All groups)

-- The groups of an account become the types that the dictionary names, in the order of the groups,
-- and the others are left out: no exception, and never the type of an unknown group.
format_account_types_lem :
    (groups : List Text)
    → (format_account_types (strings groups) ≡ some (ints (to_ints (known_types groups))))
      × All (λ type. type ≢ AccountType.unknown) (known_types groups)
unfolding format_account_types ints_of
format_account_types_lem groups = (rw (account_types_lem groups) refl, known_types-All groups)
