-- ===== src/Html/Decode.antt =====
-- The decoder's table in ranges of bytes, and what a decoded code point is
-- (src/core/route/redfish/response.cpp).
use mathlib.Core.Path.{subst}
use obmc_yadro_webapp.Prelude.{
  ℕ, zero, suc, ◌+◌, ◌-◌, ◌*◌, ◌%◌, ◌^◌, ◌≡◌, ◌≤◌, ◌<◌, ◌⊎◌, inl, inr, refl, Bool, true, false,
  ◌||◌, ◌&&◌, arith, ltb, leb, if◌then◌else◌, ◌==◌, nat_eq, nat_beq_iff, Bool-cases, ◌≢◌,
}
use obmc_yadro_webapp.Html.{repeat, utf8d, decode}

-- A test that holds for all numbers below a bound.
all_below : ℕ → (ℕ → Bool) → Bool
all_below zero p = true
all_below (suc n) p = if p n then all_below n p else false

all_below_lem : (n : ℕ) (p : ℕ → Bool) (i : ℕ) → all_below n p ≡ true → i < n → p i ≡ true
unfolding all_below
all_below_lem zero p i h l = ground arith
all_below_lem (suc n) p i h l = ground (arith, all_below_lem n p i)

-- The next state by ranges of bytes.
abbrev pub continues : ℕ → ℕ → ℕ → ℕ → ℕ
continues low high next b = if leb low b && ltb b high then next else 1

abbrev pub first_state : ℕ → ℕ
first_state b =
    if ltb b 0x80
    then 0
    else if ltb b 0xC2
    then 1
    else if ltb b 0xE0
    then 2
    else if b == 0xE0
    then 4
    else if b == 0xED
    then 5
    else if ltb b 0xF0
    then 3
    else if b == 0xF0
    then 6
    else if ltb b 0xF4
    then 7
    else if b == 0xF4
    then 8
    else 1

abbrev pub next_state : ℕ → ℕ → ℕ
next_state s b =
    if s == 0
    then first_state b
    else if s == 2
    then continues 0x80 0xC0 0 b
    else if s == 3
    then continues 0x80 0xC0 2 b
    else if s == 4
    then continues 0xA0 0xC0 2 b
    else if s == 5
    then continues 0x80 0xA0 2 b
    else if s == 6
    then continues 0x90 0xC0 3 b
    else if s == 7
    then continues 0x80 0xC0 3 b
    else if s == 8
    then continues 0x80 0x90 3 b
    else 1

table_agrees : ℕ → ℕ → Bool
table_agrees s b = utf8d (256 + s * 16 + utf8d b) == next_state s b

tables : all_below 9 (λ s. all_below 256 (table_agrees s)) ≡ true
unfolding all_below table_agrees utf8d repeat
tables = refl

next_state_lem : (s b : ℕ) → s < 9 → b < 256 → utf8d (256 + s * 16 + utf8d b) ≡ next_state s b
unfolding table_agrees
next_state_lem s b l k = (nat_beq_iff (utf8d (256 + s * 16 + utf8d b)) (next_state s b)).0 (
    all_below_lem 256 (table_agrees s) b
      (all_below_lem 9 (λ s. all_below 256 (table_agrees s)) s tables l) k)

-- The code that a first byte gives.
abbrev pub first_code : ℕ → ℕ
first_code b =
    if ltb b 0x80
    then b
    else if ltb b 0xE0
    then b - 0xC0
    else if ltb b 0xF0
    then b - 0xE0
    else b - 0xF0

first_agrees : ℕ → Bool
first_agrees b = first_state b == 1 || (b % 2 ^ (8 - utf8d b)) == first_code b

firsts : all_below 256 first_agrees ≡ true
unfolding all_below first_agrees utf8d repeat
firsts = refl

first_code_lem : (b : ℕ) → b < 256 → first_state b ≢ 1 → b % 2 ^ (8 - utf8d b) ≡ first_code b
unfolding first_agrees
first_code_lem b l n = ground (arith, all_below_lem 256 first_agrees b firsts l)

-- What the code point of a state between two bytes can be.
abbrev pub IsPartial : ℕ → ℕ → Type 0
IsPartial s c =
    (s ≡ 0)
    ⊎ ((s ≡ 2) × (2 ≤ c) × (c < 0x4400))
    ⊎ ((s ≡ 3) × (1 ≤ c) × (c < 0x110))
    ⊎ ((s ≡ 4) × (c ≡ 0))
    ⊎ ((s ≡ 5) × (c ≡ 13))
    ⊎ ((s ≡ 6) × (c ≡ 0))
    ⊎ ((s ≡ 7) × (1 ≤ c) × (c < 4))
    ⊎ ((s ≡ 8) × (c ≡ 4))

-- The decoder without its table.
pub decode-state : (s c b : ℕ) → b < 256 → s < 9 → (decode s c b).0 ≡ next_state s b
unfolding decode
decode-state s c b k l = rw (next_state_lem s b l k) (ground arith)

pub decode-first : (c b : ℕ) → b < 256 → first_state b ≢ 1 → (decode 0 c b).1 ≡ first_code b
unfolding decode
decode-first c b k n = first_code_lem b k n

pub decode-next : (s c b : ℕ) → s < 9 → s ≢ 0 → c < 0x4400 → (decode s c b).1 ≡ b % 64 + c * 64
unfolding decode
decode-next s c b l n k = ground arith

-- What a byte makes of a state that is not invalid: an invalid state, a code point, which is the
-- byte itself or above the one-byte codes, or a state between two bytes.
abbrev pub IsNext : ℕ → ℕ → ℕ → Type 0
IsNext s c b =
    (s ≡ 1)
    ⊎ ((s ≡ 0) × (b < 0x80) × (c ≡ b))
    ⊎ ((s ≡ 0) × (0x80 ≤ c) × (c < 0x110000))
    ⊎ ((2 ≤ s) × (s < 9) × IsPartial s c)

first-IsNext : (c b : ℕ) → b < 256 → IsNext (decode 0 c b).0 (decode 0 c b).1 b
first-IsNext c b k = ground (arith, decode-state 0 c b k, decode-first c b k)

later-IsNext :
    (s c b : ℕ) → b < 256 → s ≢ 0 → IsPartial s c → IsNext (decode s c b).0 (decode s c b).1 b
later-IsNext s c b k n p = ground (arith, decode-state s c b k, decode-next s c b)

pub decode-IsNext :
    (s c b : ℕ) → b < 256 → IsPartial s c → IsNext (decode s c b).0 (decode s c b).1 b
decode-IsNext s c b k p = elim (Bool-cases (s == 0)) [
  | inl start ↦
      let zero_state : 0 ≡ s = ground arith in
      subst (λ (r : ℕ). IsNext (decode r c b).0 (decode r c b).1 b) zero_state (first-IsNext c b k)
  | inr later ↦ later-IsNext s c b k (ground arith) p
]
