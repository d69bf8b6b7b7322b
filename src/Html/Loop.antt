-- ===== src/Html/Loop.antt =====
-- The loop over a string ends, and where its buffer is too small
-- (src/core/route/redfish/response.cpp).
use obmc_yadro_webapp.Prelude.{
  ℕ, zero, suc, ◌+◌, ◌*◌, ◌≡◌, ◌≤◌, ◌<◌, ◌≢◌, ◌⊎◌, ◌↔◌, inl, inr, refl, ap, Bool, true, false,
  Option, none, some, [], ◌∷◌, ◌++◌, arith, ltb, leb, if◌then◌else◌, ◌==◌, nat_eq, take, length,
  length-append, Bool-cases, Option-cases,
}
use obmc_yadro_webapp.Prelude.Text.{Text, text}
use obmc_yadro_webapp.Html.{
  repeat, Dump, write, accept_point, reject_byte, decoded, decode, react, turn, done, overflow,
  out_of_fuel, dump_loop, Outcome, resume, start, outcome, dump_escaped,
}
use obmc_yadro_webapp.Html.Decode.{decode-state}

-- The turns that are left at most for `n` bytes.
fuel_need : ℕ → Dump → ℕ
fuel_need n d = 2 * n + (if d.undumped_chars == 0 then 0 else 1)

reject_byte-undumped : (d after : Dump) → reject_byte d ≡ some after → after.undumped_chars ≡ 0
unfolding reject_byte resume
reject_byte-undumped d after e = ground arith

react-again :
    (byte : ℕ) (d after : Dump)
    → react byte d ≡ some (true, after)
    → (d.undumped_chars ≢ 0) × (after.undumped_chars ≡ 0)
unfolding react
react-again byte d after e = elim (Bool-cases (d.state == 0)) [
  | inl accepted ↦ elim (Option-cases (accept_point byte d)) [
    | inl failed ↦
        let bad : Path (Option (Bool × Dump)) none (some (true, after)) =
          rw (accepted, failed, react) at e in
        ground arith
    | inr (next, went) ↦
        let bad : Path (Option (Bool × Dump)) (some (false, next)) (some (true, after)) =
          rw (accepted, went, react) at e in
        ground arith
  ]
  | inr other ↦ elim (Bool-cases (d.state == 1)) [
    | inl rejected ↦ elim (Option-cases (reject_byte d)) [
      | inl failed ↦
          let bad : Path (Option (Bool × Dump)) none (some (true, after)) =
            rw (other, rejected, failed, react) at e in
          ground arith
      | inr (next, went) ↦
          let same : Path (Option (Bool × Dump)) (some (ltb 0 d.undumped_chars, next))
              (some (true, after)) =
            rw (other, rejected, went, react) at e in
          ground (arith, reject_byte-undumped d next went)
    ]
    | inr unfinished ↦
        let bad : Path (Option (Bool × Dump))
            (some (false, record d { undumped_chars = suc d.undumped_chars }))
            (some (true, after)) =
          rw (other, unfinished, react) at e in
        ground arith
  ]
]

-- A byte is read again only behind an unfinished code point, which is given up.
turn-again :
    (byte : ℕ) (d after : Dump)
    → turn byte d ≡ some (true, after)
    → (d.undumped_chars ≢ 0) × (after.undumped_chars ≡ 0)
unfolding turn decoded
turn-again byte d after e = react-again byte (decoded byte d) after e

fuel_need-again :
    (n fuel : ℕ) (d after : Dump)
    → fuel_need (suc n) d ≤ suc fuel
    → (d.undumped_chars ≢ 0) × (after.undumped_chars ≡ 0)
    → fuel_need (suc n) after ≤ fuel
unfolding fuel_need
fuel_need-again n fuel d after h k = ground arith

fuel_need-next :
    (n fuel : ℕ) (d after : Dump) → fuel_need (suc n) d ≤ suc fuel → fuel_need n after ≤ fuel
unfolding fuel_need
fuel_need-next n fuel d after h = ground arith

dump_loop_total :
    (fuel : ℕ) (str : Text) (d : Dump)
    → fuel_need (length str) d ≤ fuel
    → dump_loop fuel str d ≢ out_of_fuel
unfolding dump_loop fuel_need
dump_loop_total fuel [] d h = ground arith
dump_loop_total zero (byte ∷ str) d h = ground arith
dump_loop_total (suc fuel) (byte ∷ str) d h = elim (Option-cases (turn byte d)) [
  | inl failed ↦ rw (failed, dump_loop) (λ e. ground arith)
  | inr ((true, after), went) ↦
      rw (went, dump_loop)
        (dump_loop_total fuel (byte ∷ str) after
          (fuel_need-again (length str) fuel d after h (turn-again byte d after went)))
  | inr ((false, after), went) ↦
      rw (went, dump_loop)
        (dump_loop_total fuel str after (fuel_need-next (length str) fuel d after h))
]

outcome-out_of_fuel : (o : Outcome Dump) → o ≢ out_of_fuel → outcome o ≢ out_of_fuel
unfolding outcome
outcome-out_of_fuel (done d) n = λ e. ground arith
outcome-out_of_fuel overflow n = λ e. ground arith
outcome-out_of_fuel out_of_fuel n = λ e. n refl

-- The loop ends on every string: its turns never run out.
pub dump_escaped_total : (out str : Text) → dump_escaped out str ≢ out_of_fuel
unfolding dump_escaped start
dump_escaped_total out str =
    outcome-out_of_fuel (dump_loop (2 * length str + 1) str (start out))
      (dump_loop_total (2 * length str + 1) str (start out) (unfold fuel_need in omega arith))

-- Between two code points, with only accepted bytes in the buffer.
IsReady : ℕ → Dump → Type 0
IsReady bytes d =
    (d.state ≡ 0)
    × (d.bytes_after_last_accept ≡ bytes)
    × (length d.string_buffer ≡ bytes)
    × (d.undumped_chars ≡ 0)

take-all : (n : ℕ) (s : Text) → length s ≤ n → take n s ≡ s
take-all zero [] h = refl
take-all zero (c ∷ s) h = ground arith
take-all (suc n) [] h = refl
take-all (suc n) (c ∷ s) h = ap (◌∷◌ c) (take-all n s (omega arith))

-- A replacement of six bytes is written, unless it does not fit.
reject_byte-lem :
    (bytes : ℕ) (d : Dump)
    → d.bytes_after_last_accept ≡ bytes
    → length d.string_buffer ≡ bytes
    → ((512 < bytes + 6) × (reject_byte d ≡ none))
      ⊎ ((bytes + 6 ≤ 512)
          × ((after : Dump) × (reject_byte d ≡ some after) × IsReady (bytes + 6) after))
unfolding reject_byte write resume IsReady
reject_byte-lem bytes d a n =
    let whole : take d.bytes_after_last_accept d.string_buffer ≡ d.string_buffer =
      take-all d.bytes_after_last_accept d.string_buffer (omega arith) in
    let buffer : Text = d.string_buffer ++ text "\\ufffd" in
    let size : length buffer ≡ bytes + 6 =
      omega (arith, length-append d.string_buffer (text "\\ufffd")) in
    elim (Bool-cases (leb (length d.string_buffer + 6 + 0) 512)) [
      | inl fits ↦ inr (
        ground arith,
        (resume buffer d, rw (reject_byte, whole, fits) refl, (refl, size, size, refl)),
      )
      | inr full ↦ inl (ground arith, rw (reject_byte, whole, full) refl)
    ]

react-invalid :
    (byte : ℕ) (d : Dump) (result : Option Dump)
    → d.state ≡ 1
    → d.undumped_chars ≡ 0
    → reject_byte d ≡ result
    → react byte d ≡ elim result [ none ↦ none | some after ↦ some (false, after) ]
unfolding react
react-invalid byte d none s u e = rw (s, e, react) refl
react-invalid byte d (some after) s u e =
    let fresh : ltb 0 d.undumped_chars ≡ false = ground arith in
    rw (s, e, react) (ap (λ again. some (again, after)) fresh)

-- A byte that can start no code point in UTF-8: one inside a code point, one that would start an
-- overlong form, or one of a number that is too large.
abbrev pub StartsNone : ℕ → Type 0
StartsNone byte = ((0x80 ≤ byte) × (byte < 0xC2)) ⊎ ((0xF4 < byte) × (byte < 0x100))

first-invalid :
    (byte bytes : ℕ) (d : Dump)
    → StartsNone byte
    → IsReady bytes d
    → (decode d.state d.code_point byte).0 ≡ 1
unfolding IsReady
first-invalid byte bytes d (inl (low, high)) h =
    ground (arith, decode-state d.state d.code_point byte)
first-invalid byte bytes d (inr (low, high)) h =
    ground (arith, decode-state d.state d.code_point byte)

turn-invalid :
    (byte bytes : ℕ) (d : Dump)
    → StartsNone byte
    → IsReady bytes d
    → ((512 < bytes + 6) × (turn byte d ≡ none))
      ⊎ ((bytes + 6 ≤ 512)
          × ((after : Dump) × (turn byte d ≡ some (false, after)) × IsReady (bytes + 6) after))
unfolding turn decoded IsReady
turn-invalid byte bytes d starts h =
    let rejected : (decode d.state d.code_point byte).0 ≡ 1 = first-invalid byte bytes d starts h in
    elim (reject_byte-lem bytes (decoded byte d) h.1 h.2) [
      | inl (full, failed) ↦
          inl (full, react-invalid byte (decoded byte d) none rejected h.3 failed)
      | inr (fits, (after, went, ready)) ↦
          inr (
            fits,
            (after, react-invalid byte (decoded byte d) (some after) rejected h.3 went, ready),
          )
    ]

dump_loop-invalid :
    (n fuel byte bytes : ℕ) (d : Dump)
    → StartsNone byte
    → n ≤ fuel
    → bytes ≤ 512
    → IsReady bytes d
    → ((512 < bytes + 6 * n) × (dump_loop fuel (repeat n byte []) d ≡ overflow))
      ⊎ ((bytes + 6 * n ≤ 512)
          × ((after : Dump) × (dump_loop fuel (repeat n byte []) d ≡ done after)))
unfolding dump_loop repeat
dump_loop-invalid zero fuel byte bytes d starts enough small h = inr (omega arith, (d, refl))
dump_loop-invalid (suc n) zero byte bytes d starts enough small h = ground arith
dump_loop-invalid (suc n) (suc fuel) byte bytes d starts enough small h =
    elim (turn-invalid byte bytes d starts h) [
      | inl (full, failed) ↦ inl (omega arith, rw (failed, dump_loop) refl)
      | inr (fits, (after, went, ready)) ↦
          elim (dump_loop-invalid n fuel byte (bytes + 6) after starts (omega arith) fits ready) [
            | inl (full, failed) ↦ inl (omega arith, rw (went, dump_loop) failed)
            | inr (fit, (last, ended)) ↦ inr (omega arith, (last, rw (went, dump_loop) ended))
          ]
    ]

outcome-overflow :
    (o : Outcome Dump) (size : ℕ)
    → ((512 < size) × (o ≡ overflow)) ⊎ ((size ≤ 512) × ((d : Dump) × (o ≡ done d)))
    → (outcome o ≡ overflow) ↔ (512 < size)
unfolding outcome
outcome-overflow (done d) size h = ground arith
outcome-overflow overflow size h = ground arith
outcome-overflow out_of_fuel size h = ground arith

length-repeat : (n x : ℕ) → length (repeat n x []) ≡ n
unfolding repeat
length-repeat zero x = refl
length-repeat (suc n) x = omega (arith, length-repeat n x)

-- A string of one byte over and over, where that byte can start no code point, is written behind
-- the end of the buffer exactly if it has more than 85 bytes.
pub dump_escaped-overflow_iff :
    (out : Text) (n byte : ℕ)
    → StartsNone byte
    → (dump_escaped out (repeat n byte []) ≡ overflow) ↔ (85 < n)
unfolding dump_escaped start IsReady
dump_escaped-overflow_iff out n byte starts =
    let size = length-repeat n byte in
    let fuel : ℕ = 2 * length (repeat n byte []) + 1 in
    let ran =
      dump_loop-invalid n fuel byte 0 (start out) starts (omega arith) (omega arith)
        (refl, refl, refl, refl) in
    let same = outcome-overflow (dump_loop fuel (repeat n byte []) (start out)) (0 + 6 * n) ran in
    (λ e. omega (arith, same.0 e), λ l. same.1 (omega arith))
