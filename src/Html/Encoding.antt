-- ===== src/Html/Encoding.antt =====
-- The decoder reads every encoding of a code point (src/core/route/redfish/response.cpp).
use mathlib.Core.Path.{subst}
use obmc_yadro_webapp.Prelude.{
  ℕ, ◌+◌, ◌*◌, ◌/◌, ◌%◌, ◌≡◌, ◌≤◌, ◌<◌, ◌≢◌, ◌⊎◌, inl, inr, refl, sym, List, [], ◌∷◌, ◌++◌, arith,
  ltb, if◌then◌else◌, ◌==◌, nat_eq, Bool-cases,
}
use obmc_yadro_webapp.Prelude.Text.{Text}
use obmc_yadro_webapp.Html.{decode}
use obmc_yadro_webapp.Html.Decode.{decode-state, decode-first, decode-next}

-- A code point that has an encoding: no surrogate, and not above the last one.
abbrev pub IsScalar : ℕ → Type 0
IsScalar c = (c < 0xD800) ⊎ ((0xE000 ≤ c) × (c < 0x110000))

-- The encoding of a code point.
unfoldable pub utf8 : ℕ → Text
utf8 c =
    if ltb c 0x80
    then c ∷ []
    else if ltb c 0x800
    then (0xC0 + c / 64) ∷ (0x80 + c % 64) ∷ []
    else if ltb c 0x10000
    then (0xE0 + c / 4096) ∷ (0x80 + c / 64 % 64) ∷ (0x80 + c % 64) ∷ []
    else (0xF0 + c / 262144) ∷ (0x80 + c / 4096 % 64) ∷ (0x80 + c / 64 % 64) ∷ (0x80 + c % 64) ∷ []

abbrev pub utf8_text : List ℕ → Text
utf8_text [] = []
utf8_text (c ∷ points) = utf8 c ++ utf8_text points

-- The decoder comes to the code point at the last of the bytes, and not before.
unfoldable pub Reads : ℕ → ℕ → Text → ℕ → Type 0
Reads s c [] p = ⊥
Reads s c (b ∷ []) p = ((decode s c b).0 ≡ 0) × ((decode s c b).1 ≡ p) × ((b ≡ p) ⊎ (0x80 ≤ p))
Reads s c (b ∷ b' ∷ bs) p =
    (2 ≤ (decode s c b).0) × Reads (decode s c b).0 (decode s c b).1 (b' ∷ bs) p

one_byte-Reads : (c p : ℕ) → p < 0x80 → Reads 0 c (p ∷ []) p
unfolding Reads
one_byte-Reads c p h = ground (arith, decode-state 0 c p, decode-first c p)

last-Reads :
    (s c p : ℕ) → s ≡ 2 → 2 ≤ c → c < 0x4400 → p < 64 → Reads s c ((0x80 + p) ∷ []) (c * 64 + p)
unfolding Reads
last-Reads s c p e h k l = ground (arith, decode-state s c (0x80 + p), decode-next s c (0x80 + p))

step-Reads :
    (s c b s' c' b' : ℕ) (bs : Text) (p : ℕ)
    → (decode s c b).0 ≡ s'
    → (decode s c b).1 ≡ c'
    → 2 ≤ s'
    → Reads s' c' (b' ∷ bs) p
    → Reads s c (b ∷ b' ∷ bs) p
unfolding Reads
step-Reads s c b s' c' b' bs p e f h r = (
  omega arith,
  subst (λ n. Reads n (decode s c b).1 (b' ∷ bs) p) (sym e)
      (subst (λ n. Reads s' n (b' ∷ bs) p) (sym f) r),
)

-- What the state says of the code point and of the byte behind it, where two bytes are left.
abbrev IsMiddle : ℕ → ℕ → ℕ → Type 0
IsMiddle s c x =
    ((s ≡ 3) × (1 ≤ c) × (c < 0x110))
    ⊎ ((s ≡ 4) × (c ≡ 0) × (32 ≤ x))
    ⊎ ((s ≡ 5) × (c ≡ 13) × (x < 32))

middle-Reads :
    (s c x y : ℕ)
    → IsMiddle s c x
    → x < 64
    → y < 64
    → Reads s c ((0x80 + x) ∷ (0x80 + y) ∷ []) ((c * 64 + x) * 64 + y)
middle-Reads s c x y h k l =
    step-Reads s c (0x80 + x) 2 (c * 64 + x) (0x80 + y) [] ((c * 64 + x) * 64 + y)
      (ground (arith, decode-state s c (0x80 + x))) (ground (arith, decode-next s c (0x80 + x)))
      (omega arith) (last-Reads 2 (c * 64 + x) y refl (ground arith) (ground arith) l)

two_byte-Reads :
    (c h x : ℕ) → 2 ≤ h → h < 32 → x < 64 → Reads 0 c ((0xC0 + h) ∷ (0x80 + x) ∷ []) (h * 64 + x)
two_byte-Reads c h x low high k =
    step-Reads 0 c (0xC0 + h) 2 h (0x80 + x) [] (h * 64 + x)
      (ground (arith, decode-state 0 c (0xC0 + h))) (ground (arith, decode-first c (0xC0 + h)))
      (omega arith) (last-Reads 2 h x refl low (omega arith) k)

-- The state behind the first byte of three.
abbrev three_state : ℕ → ℕ
three_state h = if h == 0 then 4 else if h == 13 then 5 else 3

three_byte-Reads :
    (c h x y : ℕ)
    → h < 16
    → x < 64
    → y < 64
    → (h ≢ 0) ⊎ (32 ≤ x)
    → (h ≢ 13) ⊎ (x < 32)
    → Reads 0 c ((0xE0 + h) ∷ (0x80 + x) ∷ (0x80 + y) ∷ []) ((h * 64 + x) * 64 + y)
three_byte-Reads c h x y high k l n m =
    step-Reads 0 c (0xE0 + h) (three_state h) h (0x80 + x) ((0x80 + y) ∷ []) ((h * 64 + x) * 64 + y)
      (ground (arith, decode-state 0 c (0xE0 + h))) (ground (arith, decode-first c (0xE0 + h)))
      (ground arith) (middle-Reads (three_state h) h x y (ground arith) k l)

-- The state behind the first byte of four.
abbrev four_state : ℕ → ℕ
four_state h = if h == 0 then 6 else if h == 4 then 8 else 7

four_byte-Reads :
    (c h x y z : ℕ)
    → h < 5
    → x < 64
    → y < 64
    → z < 64
    → (h ≢ 0) ⊎ (16 ≤ x)
    → (h ≢ 4) ⊎ (x < 16)
    → Reads 0 c
        ((0xF0 + h) ∷ (0x80 + x) ∷ (0x80 + y) ∷ (0x80 + z) ∷ [])
        (((h * 64 + x) * 64 + y) * 64 + z)
four_byte-Reads c h x y z high k l i n m =
    step-Reads 0 c (0xF0 + h) (four_state h) h (0x80 + x) ((0x80 + y) ∷ (0x80 + z) ∷ [])
      (((h * 64 + x) * 64 + y) * 64 + z) (ground (arith, decode-state 0 c (0xF0 + h)))
      (ground (arith, decode-first c (0xF0 + h))) (ground arith)
      (step-Reads (four_state h) h (0x80 + x) 3 (h * 64 + x) (0x80 + y) ((0x80 + z) ∷ [])
        (((h * 64 + x) * 64 + y) * 64 + z)
        (ground (arith, decode-state (four_state h) h (0x80 + x)))
        (ground (arith, decode-next (four_state h) h (0x80 + x))) (omega arith)
        (middle-Reads 3 (h * 64 + x) y z (ground arith) l i))

pub utf8-Reads : (c p : ℕ) → IsScalar p → Reads 0 c (utf8 p) p
unfolding utf8
utf8-Reads c p h = elim (Bool-cases (ltb p 0x80)) [
  | inl one ↦ rw one (one_byte-Reads c p (ground arith))
  | inr more ↦ elim (Bool-cases (ltb p 0x800)) [
    | inl two ↦
        rw (more, two)
          (subst (λ n. Reads 0 c ((0xC0 + p / 64) ∷ (0x80 + p % 64) ∷ []) n) (omega arith)
            (two_byte-Reads c (p / 64) (p % 64) (ground arith) (ground arith) (omega arith)))
    | inr three_or_four ↦ elim (Bool-cases (ltb p 0x10000)) [
      | inl three ↦
          rw (more, three_or_four, three)
            (subst
              (λ n. Reads 0 c ((0xE0 + p / 4096) ∷ (0x80 + p / 64 % 64) ∷ (0x80 + p % 64) ∷ []) n)
              (omega arith)
              (three_byte-Reads c (p / 4096) (p / 64 % 64) (p % 64) (ground arith) (omega arith)
                (omega arith) (ground arith) (ground arith)))
      | inr four ↦
          rw (more, three_or_four, four)
            (subst
              (λ n.
                Reads 0 c
                  ((0xF0 + p / 262144)
                    ∷ (0x80 + p / 4096 % 64)
                    ∷ (0x80 + p / 64 % 64)
                    ∷ (0x80 + p % 64)
                    ∷ [])
                  n)
              (omega arith)
              (four_byte-Reads c (p / 262144) (p / 4096 % 64) (p / 64 % 64) (p % 64) (ground arith)
                (omega arith) (omega arith) (omega arith) (ground arith) (ground arith)))
    ]
  ]
]
