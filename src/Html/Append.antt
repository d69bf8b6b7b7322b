-- ===== src/Html/Append.antt =====
-- A string is written behind what the page has, whatever that is
-- (src/core/route/redfish/response.cpp).
use obmc_yadro_webapp.Prelude.{
  ℕ, zero, suc, ◌*◌, ◌+◌, ◌-◌, ◌≡◌, ◌∙◌, ap, refl, sym, inl, inr, Bool, true, false, Option, none,
  some, [], ◌∷◌, ◌++◌, append_assoc, append-nil, ltb, ◌==◌, nat_eq, length, take, Bool-cases,
  Option-cases,
}
use obmc_yadro_webapp.Prelude.Text.{Text, text}
use obmc_yadro_webapp.Html.{
  Dump, Outcome, done, overflow, out_of_fuel, escaped, terminator, write, flush, accept_point,
  resume, reject_byte, decoded, react, turn, dump_loop, finish, start, outcome, dump_escaped,
  buffer_size,
}

-- The page before the string.
behind : Text → Dump → Dump
behind page d = record d { out = page ++ d.out }

behind_option : Text → Option Dump → Option Dump
behind_option page none = none
behind_option page (some d) = some (behind page d)

behind_turn : Text → Option (Bool × Dump) → Option (Bool × Dump)
behind_turn page none = none
behind_turn page (some (again, d)) = some (again, behind page d)

behind_outcome : Text → Outcome Dump → Outcome Dump
behind_outcome page (done d) = done (behind page d)
behind_outcome page overflow = overflow
behind_outcome page out_of_fuel = out_of_fuel

flush-behind :
    (page buffer : Text) (d : Dump) → flush buffer (behind page d) ≡ behind page (flush buffer d)
unfolding flush behind
flush-behind page buffer d = elim (Bool-cases (ltb (buffer_size - length buffer) 13)) [
  | inl full ↦ rw full (
      ap
        (λ (t : Text). record d {
          out = t;
          string_buffer = [];
          bytes_after_last_accept = 0;
          undumped_chars = 0;
        })
        (append_assoc page d.out buffer))
  | inr room ↦ rw room refl
]

accept_point-behind :
    (page : Text) (byte : ℕ) (d : Dump)
    → accept_point byte (behind page d) ≡ behind_option page (accept_point byte d)
unfolding accept_point behind behind_option
accept_point-behind page byte d =
    let chunk = escaped d.code_point byte in
    elim (Option-cases (write (terminator chunk) chunk d.string_buffer)) [
      | inl failed ↦ rw (accept_point, failed) refl
      | inr (buffer, wrote) ↦ rw (accept_point, wrote) (ap some (flush-behind page buffer d))
    ]

reject_byte-behind :
    (page : Text) (d : Dump) → reject_byte (behind page d) ≡ behind_option page (reject_byte d)
unfolding reject_byte resume behind behind_option
reject_byte-behind page d =
    elim (Option-cases
      (write 0 (text "\\ufffd") (take d.bytes_after_last_accept d.string_buffer))) [
        | inl failed ↦ rw (reject_byte, failed) refl
        | inr (buffer, wrote) ↦ rw (reject_byte, wrote) refl
      ]

react-behind :
    (page : Text) (byte : ℕ) (d : Dump)
    → react byte (behind page d) ≡ behind_turn page (react byte d)
unfolding react behind behind_turn behind_option
react-behind page byte d = elim (Bool-cases (d.state == 0)) [
  | inl accepted ↦ elim (Option-cases (accept_point byte d)) [
    | inl failed ↦ rw (react, accepted, accept_point-behind page byte d, failed) refl
    | inr (next, went) ↦ rw (react, accepted, accept_point-behind page byte d, went) refl
  ]
  | inr other ↦ elim (Bool-cases (d.state == 1)) [
    | inl rejected ↦ elim (Option-cases (reject_byte d)) [
      | inl failed ↦ rw (react, other, rejected, reject_byte-behind page d, failed) refl
      | inr (next, went) ↦ rw (react, other, rejected, reject_byte-behind page d, went) refl
    ]
    | inr unfinished ↦ rw (react, other, unfinished) refl
  ]
]

turn-behind :
    (page : Text) (byte : ℕ) (d : Dump) → turn byte (behind page d) ≡ behind_turn page (turn byte d)
unfolding turn decoded behind
turn-behind page byte d = react-behind page byte (decoded byte d)

dump_loop-behind :
    (page : Text) (fuel : ℕ) (str : Text) (d : Dump)
    → dump_loop fuel str (behind page d) ≡ behind_outcome page (dump_loop fuel str d)
unfolding dump_loop behind_outcome behind_turn
dump_loop-behind page fuel [] d = refl
dump_loop-behind page zero (byte ∷ str) d = refl
dump_loop-behind page (suc fuel) (byte ∷ str) d = elim (Option-cases (turn byte d)) [
  | inl failed ↦ rw (dump_loop, turn-behind page byte d, failed) refl
  | inr ((true, next), went) ↦
      rw (dump_loop, turn-behind page byte d, went) (dump_loop-behind page fuel (byte ∷ str) next)
  | inr ((false, next), went) ↦
      rw (dump_loop, turn-behind page byte d, went) (dump_loop-behind page fuel str next)
]

finish-behind : (page : Text) (d : Dump) → finish (behind page d) ≡ page ++ finish d
unfolding finish behind
finish-behind page d = elim (Bool-cases (d.state == 0)) [
  | inl whole ↦ rw whole (append_assoc page d.out d.string_buffer)
  | inr cut ↦
      let accepted = take d.bytes_after_last_accept d.string_buffer in
      rw cut (
        ap (λ t. t ++ text "\\ufffd") (append_assoc page d.out accepted)
        ∙ append_assoc page (d.out ++ accepted) (text "\\ufffd"))
]

-- What is written behind a page is what is written behind the empty one.
unfoldable pub behind_page : Text → Outcome Text → Outcome Text
behind_page page (done chunk) = done (page ++ chunk)
behind_page page overflow = overflow
behind_page page out_of_fuel = out_of_fuel

outcome-behind :
    (page : Text) (o : Outcome Dump)
    → outcome (behind_outcome page o) ≡ behind_page page (outcome o)
unfolding outcome behind_outcome behind_page
outcome-behind page (done d) = ap done (finish-behind page d)
outcome-behind page overflow = refl
outcome-behind page out_of_fuel = refl

start-behind : (page : Text) → start page ≡ behind page (start [])
unfolding start behind
start-behind page =
    ap
      (λ (t : Text). record {
        out = t;
        string_buffer = [];
        bytes_after_last_accept = 0;
        undumped_chars = 0;
        state = 0;
        code_point = 0;
      })
      (sym (append-nil page))

pub dump_escaped-behind_page :
    (page str : Text) → dump_escaped page str ≡ behind_page page (dump_escaped [] str)
unfolding dump_escaped
dump_escaped-behind_page page str =
    let turns : ℕ = 2 * length str + 1 in
    ap (λ d. outcome (dump_loop turns str d)) (start-behind page)
    ∙ ap outcome (dump_loop-behind page turns str (start []))
    ∙ outcome-behind page (dump_loop turns str (start []))
