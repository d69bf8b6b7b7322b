-- ===== src/Html/Integer.antt =====
-- How an integer is written on a page (src/core/route/redfish/response.cpp).
use obmc_yadro_webapp.Prelude.{
  ℕ, zero, suc, ◌+◌, ◌-◌, ◌/◌, ◌%◌, ◌≡◌, ◌≤◌, ◌<◌, ap, refl, sym, inl, inr, ◌⊎◌, append-nil, true,
  false, [], ◌∷◌, ◌++◌, arith, ltb, leb, if◌then◌else◌, length, All, All-append, Bool-cases,
}
use obmc_yadro_webapp.Prelude.Int.{ℤ, pos, negsuc}
use obmc_yadro_webapp.Prelude.Text.{Text, text}
use obmc_yadro_webapp.Html.{repeat}
use obmc_yadro_webapp.Html.Safe.{IsHtmlByte}
use mathlib.Core.Path.{subst}

-- The loop divides by ten thousand; its fuel is more than the number.
unfoldable pub count_digits : ℕ → ℕ → ℕ → ℕ
count_digits zero number n_digits = n_digits
count_digits (suc fuel) number n_digits =
    let rest = count_digits fuel (number / 10000) (n_digits + 4) in
    if ltb number 10
    then n_digits
    else if ltb number 100
    then n_digits + 1
    else if ltb number 1000
    then n_digits + 2
    else if ltb number 10000
    then n_digits + 3
    else rest

-- An entry of the table of pairs of digits.
unfoldable pub digits_to_99 : ℕ → Text
digits_to_99 i = (48 + i / 10) ∷ (48 + i % 10) ∷ []

-- The digits are written from the end of the buffer to its front: `written` stands behind the
-- pointer.
unfoldable pub fill_digits : ℕ → ℕ → Text → Text
unfolding digits_to_99
fill_digits zero abs_value written = written
fill_digits (suc fuel) abs_value written =
    let rest = fill_digits fuel (abs_value / 100) (digits_to_99 (abs_value % 100) ++ written) in
    if leb 100 abs_value
    then rest
    else if leb 10 abs_value
    then digits_to_99 abs_value ++ written
    else (48 + abs_value) ∷ written

-- The first `n_chars` bytes of the buffer, which is zero where nothing is written.
unfoldable pub number_buffer : ℕ → Text → Text → Text
number_buffer n_chars sign written =
    sign ++ repeat (n_chars - length sign - length written) 0 written

unfoldable pub append_number : Text → Text → ℕ → Text
unfolding count_digits fill_digits number_buffer
append_number out sign abs_value =
    let n_chars = length sign + count_digits (suc abs_value) abs_value 1 in
    if leb 63 n_chars
    then out
    else out ++ number_buffer n_chars sign (fill_digits (suc abs_value) abs_value [])

-- `dumpInteger`. The negation of the lowest 64-bit number is undefined in the source and is here its
-- absolute value.
unfoldable pub dump_integer : Text → ℤ → Text
unfolding append_number
dump_integer out (pos zero) = out ++ text "0"
dump_integer out (pos (suc n)) = append_number out [] (suc n)
dump_integer out (negsuc n) = append_number out (text "-") (suc n)

count_digits-fill_digits :
    (fuel steps n a : ℕ) (w : Text)
    → n < fuel
    → n < steps
    → count_digits fuel n (suc a) + length w ≡ a + length (fill_digits steps n w)
unfolding count_digits fill_digits digits_to_99
count_digits-fill_digits zero steps n a w h k = omega arith
count_digits-fill_digits (suc f) zero n a w h k = omega arith
count_digits-fill_digits (suc f) (suc zero) n a w h k = ground arith
count_digits-fill_digits (suc f) (suc (suc g)) n a w h k =
    let ih =
      count_digits-fill_digits f g (n / 10000) (a + 4)
        (digits_to_99 (n / 100 % 100) ++ (digits_to_99 (n % 100) ++ w)) in
    let quotient : n / 100 / 100 ≡ n / 10000 = omega arith in
    elim (Bool-cases (ltb n 10000)) [
      | inl short ↦ ground arith
      | inr long ↦
          let big : 10000 ≤ n = ground arith in
          let ten : ltb n 10 ≡ false = ground arith in
          let hundred : ltb n 100 ≡ false = ground arith in
          let thousand : ltb n 1000 ≡ false = ground arith in
          let pair : leb 100 n ≡ true = ground arith in
          let second : leb 100 (n / 100) ≡ true = ground arith in
          let start : suc a + 4 ≡ suc (a + 4) = omega arith in
          let rest = ih (omega arith) (omega arith) in
          rw
            (count_digits, fill_digits, ten, hundred, thousand, long, pair, second, quotient, start)
            (omega (arith, rest))
    ]

IsDigit : ℕ → Type 0
IsDigit c = (48 ≤ c) × (c < 58)

digits_to_99-IsDigit :
    (i : ℕ) (w : Text) → i < 100 → All IsDigit w → All IsDigit (digits_to_99 i ++ w)
unfolding digits_to_99 IsDigit
digits_to_99-IsDigit i w l h = (ground arith, (ground arith, h))

fill_digits-IsDigit :
    (fuel n : ℕ) (w : Text) → n < fuel → All IsDigit w → All IsDigit (fill_digits fuel n w)
unfolding fill_digits
fill_digits-IsDigit zero n w l h = h
fill_digits-IsDigit (suc f) n w l h = elim (Bool-cases (leb 100 n)) [
  | inl more ↦
      let big : 100 ≤ n = ground arith in
      rw more (
        fill_digits-IsDigit f (n / 100) (digits_to_99 (n % 100) ++ w) (omega arith)
          (digits_to_99-IsDigit (n % 100) w (omega arith) h))
  | inr short ↦
      let small : n < 100 = ground arith in
      elim (Bool-cases (leb 10 n)) [
        | inl two ↦ rw (short, two) (digits_to_99-IsDigit n w small h)
        | inr one ↦ rw (short, one) (unfold IsDigit in ((ground arith, ground arith), h))
      ]
]

-- The digits fill the buffer behind the sign: no zero byte is left between them.
number_buffer_lem :
    (sign : Text) (n : ℕ)
    → number_buffer (length sign + count_digits (suc n) n 1) sign (fill_digits (suc n) n [])
      ≡ sign ++ fill_digits (suc n) n []
unfolding number_buffer repeat
number_buffer_lem sign n =
    let count = count_digits-fill_digits (suc n) (suc n) n 0 [] (omega arith) (omega arith) in
    let none_left : length sign
          + count_digits (suc n) n 1
          - length sign
          - length (fill_digits (suc n) n [])
        ≡ 0 =
      omega (arith, count) in
    rw none_left refl

append_number_lem :
    (out sign : Text) (n : ℕ)
    → (added : Text) × (append_number out sign n ≡ out ++ added)
      × ((added ≡ []) ⊎ (added ≡ sign ++ fill_digits (suc n) n []))
unfolding append_number
append_number_lem out sign n =
    let n_chars : ℕ = length sign + count_digits (suc n) n 1 in
    elim (Bool-cases (leb 63 n_chars)) [
      | inl long ↦ ([], rw (append_number, long) (sym (append-nil out)), inl refl)
      | inr fits ↦ (
        sign ++ fill_digits (suc n) n [],
        rw (append_number, fits) (ap (λ t. out ++ t) (number_buffer_lem sign n)),
        inr refl,
      )
    ]

digits-IsHtmlByte : (s : Text) → All IsDigit s → All IsHtmlByte s
unfolding IsDigit
digits-IsHtmlByte [] h = tt
digits-IsHtmlByte (c ∷ s) h = (ground arith, digits-IsHtmlByte s h.1)

append_number-IsHtmlByte :
    (out sign : Text) (n : ℕ)
    → All IsHtmlByte sign
    → (added : Text) × (append_number out sign n ≡ out ++ added) × All IsHtmlByte added
append_number-IsHtmlByte out sign n h =
    let (added, made, which) = append_number_lem out sign n in
    let digits =
      digits-IsHtmlByte (fill_digits (suc n) n [])
        (fill_digits-IsDigit (suc n) n [] (omega arith) tt) in
    (
      added,
      made,
      elim which [
        | inl nothing ↦ subst (All IsHtmlByte) (sym nothing) tt
        | inr number ↦
            subst (All IsHtmlByte) (sym number)
              (All-append IsHtmlByte sign (fill_digits (suc n) n []) h digits)
      ],
    )

-- An integer adds its sign and its digits.
pub dump_integer-IsHtmlByte :
    (out : Text) (n : ℤ)
    → (added : Text) × (dump_integer out n ≡ out ++ added) × All IsHtmlByte added
unfolding dump_integer
dump_integer-IsHtmlByte out (pos zero) = (text "0", refl, ground arith)
dump_integer-IsHtmlByte out (pos (suc n)) = append_number-IsHtmlByte out [] (suc n) tt
dump_integer-IsHtmlByte out (negsuc n) =
    append_number-IsHtmlByte out (text "-") (suc n) (ground arith)
