-- ===== src/Html/Safe.antt =====
-- No string can leave its place on the page (src/core/route/redfish/response.cpp).
use mathlib.Core.Path.{subst, ap}
use mathlib.Core.Option.{some-injective}
use obmc_yadro_webapp.Prelude.{
  ℕ, zero, suc, ◌+◌, ◌-◌, ◌*◌, ◌/◌, ◌%◌, ◌^◌, ◌≡◌, ◌≤◌, ◌<◌, ◌≢◌, ◌⊎◌, ◌||◌, inl, inr, refl, sym,
  Bool, true, false, Option, none, some, [], ◌∷◌, ◌++◌, arith, ltb, leb, ◌==◌, nat_eq, All,
  All-append, take, length, lookup, All-lookup, Bool-cases, Option-cases,
}
use obmc_yadro_webapp.Prelude.Text.{Text, text}
use obmc_yadro_webapp.Html.{
  hex_digit, unicode_escape, named_escapes, default_escape, escaped, react, terminator, buffer_size,
  Dump, write, accept_point, reject_byte, decoded, turn, done, dump_loop, finish, Outcome, overflow,
  out_of_fuel, resume, flush, start, outcome, dump_escaped,
}
use obmc_yadro_webapp.Html.Decode.{IsPartial, IsNext, decode-IsNext}

-- A printable ASCII byte that can neither open a tag nor close an attribute.
abbrev pub IsHtmlByte : ℕ → Type 0
IsHtmlByte b = (0x20 ≤ b) × (b < 0x7F) × (b ≢ 0x3C) × (b ≢ 0x3E) × (b ≢ 0x22) × (b ≢ 0x27)

hex_digit-IsHtmlByte : (n : ℕ) → n < 16 → IsHtmlByte (hex_digit n)
unfolding hex_digit
hex_digit-IsHtmlByte n h = ground arith

digit-IsHtmlByte : (n : ℕ) → IsHtmlByte (hex_digit (n % 16))
digit-IsHtmlByte n = hex_digit-IsHtmlByte (n % 16) (omega arith)

unicode_escape-IsHtmlByte : (n : ℕ) → All IsHtmlByte (unicode_escape n)
unfolding unicode_escape
unicode_escape-IsHtmlByte n = (
  ground arith,
  (
    ground arith,
    (
      digit-IsHtmlByte (n / 4096),
      (digit-IsHtmlByte (n / 256), (digit-IsHtmlByte (n / 16), (digit-IsHtmlByte n, tt))),
    ),
  ),
)

pair-IsHtmlByte : (m n : ℕ) → All IsHtmlByte (unicode_escape m ++ unicode_escape n)
pair-IsHtmlByte m n =
    All-append IsHtmlByte (unicode_escape m) (unicode_escape n) (unicode_escape-IsHtmlByte m)
      (unicode_escape-IsHtmlByte n)

unnamed_lem :
    (c : ℕ) → lookup c named_escapes ≡ none → (c ≢ 0x3C) × (c ≢ 0x3E) × (c ≢ 0x22) × (c ≢ 0x27)
unfolding lookup named_escapes
unnamed_lem c n = ground arith

default_escape-IsHtmlByte :
    (c byte : ℕ)
    → (byte ≡ c) ⊎ (0x80 ≤ c)
    → (c ≢ 0x3C) × (c ≢ 0x3E) × (c ≢ 0x22) × (c ≢ 0x27)
    → All IsHtmlByte (default_escape c byte)
unfolding default_escape
default_escape-IsHtmlByte c byte h n = elim (Bool-cases (leb c 0x1F || leb 0x7F c)) [
  | inl coded ↦ rw coded (elim (Bool-cases (leb c 0xFFFF)) [
    | inl short ↦ rw short (unicode_escape-IsHtmlByte (c % 2 ^ 16))
    | inr long ↦
        rw long (pair-IsHtmlByte ((0xD7C0 + c / 2 ^ 10) % 2 ^ 16) ((0xDC00 + c % 2 ^ 10) % 2 ^ 16))
  ])
  | inr plain ↦ rw plain (ground arith)
]

names-IsHtmlByte : All (λ (p : ℕ × Text). All IsHtmlByte p.1) named_escapes
unfolding named_escapes
names-IsHtmlByte = ground arith

escaped-IsHtmlByte : (c byte : ℕ) → (byte ≡ c) ⊎ (0x80 ≤ c) → All IsHtmlByte (escaped c byte)
unfolding escaped
escaped-IsHtmlByte c byte h = elim (Option-cases (lookup c named_escapes)) [
  | inl missed ↦ rw (missed, escaped) (default_escape-IsHtmlByte c byte h (unnamed_lem c missed))
  | inr (name, found) ↦
      rw (found, escaped) (All-lookup (All IsHtmlByte) c name named_escapes names-IsHtmlByte found)
]

take-All : (n : ℕ) (s : Text) → All IsHtmlByte s → All IsHtmlByte (take n s)
take-All zero s h = tt
take-All (suc n) [] h = tt
take-All (suc n) (c ∷ s) h = (h.0, take-All n s h.1)

-- What is written is safe, and the decoder is between two bytes.
IsSafe : Dump → Type 0
IsSafe d = All IsHtmlByte d.out × All IsHtmlByte d.string_buffer × IsPartial d.state d.code_point

write-IsHtmlByte :
    (ends : ℕ) (s buffer after : Text)
    → All IsHtmlByte s
    → All IsHtmlByte buffer
    → write ends s buffer ≡ some after
    → All IsHtmlByte after
unfolding write
write-IsHtmlByte ends s buffer after h k e = ground (arith, All-append IsHtmlByte buffer s k h)

flush-IsSafe :
    (buffer : Text) (d : Dump)
    → All IsHtmlByte d.out
    → All IsHtmlByte buffer
    → IsPartial d.state d.code_point
    → IsSafe (flush buffer d)
unfolding flush IsSafe
flush-IsSafe buffer d h k p = elim (Bool-cases (ltb (buffer_size - length buffer) 13)) [
  | inl full ↦ rw full (All-append IsHtmlByte d.out buffer h k, tt, p)
  | inr room ↦ rw room (h, k, p)
]

accept_point-IsSafe :
    (byte : ℕ) (d after : Dump)
    → (byte ≡ d.code_point) ⊎ (0x80 ≤ d.code_point)
    → IsSafe d
    → accept_point byte d ≡ some after
    → IsSafe after
unfolding accept_point IsSafe
accept_point-IsSafe byte d after h k e =
    let chunk = escaped d.code_point byte in
    elim (Option-cases (write (terminator chunk) chunk d.string_buffer)) [
      | inl failed ↦
          let bad : Path (Option Dump) none (some after) = rw (failed, accept_point) at e in
          ground arith
      | inr (buffer, wrote) ↦
          let safe =
            write-IsHtmlByte (terminator chunk) chunk d.string_buffer buffer
              (escaped-IsHtmlByte d.code_point byte h) k.1 wrote in
          subst IsSafe (some-injective (flush buffer d) after (rw (wrote, accept_point) at e))
            (flush-IsSafe buffer d k.0 safe k.2)
    ]

reject_byte-IsSafe :
    (d after : Dump)
    → All IsHtmlByte d.out
    → All IsHtmlByte d.string_buffer
    → reject_byte d ≡ some after
    → IsSafe after
unfolding reject_byte resume IsSafe
reject_byte-IsSafe d after h k e =
    let accepted = take d.bytes_after_last_accept d.string_buffer in
    elim (Option-cases (write 0 (text "\\ufffd") accepted)) [
      | inl failed ↦
          let bad : Path (Option Dump) none (some after) = rw (failed, reject_byte) at e in
          ground arith
      | inr (buffer, wrote) ↦
          let safe =
            write-IsHtmlByte 0 (text "\\ufffd") accepted buffer (ground arith)
              (take-All d.bytes_after_last_accept d.string_buffer k) wrote in
          subst IsSafe (some-injective (resume buffer d) after (rw (wrote, reject_byte) at e))
            (h, safe, inl refl)
    ]

impossible {ℓ κ} : {A : Type ℓ} {C : Type κ} {a : A} → Path (Option A) none (some a) → C
impossible e = ground arith

react-IsSafe :
    (byte : ℕ) (d : Dump) (again : Bool) (after : Dump)
    → All IsHtmlByte d.out
    → All IsHtmlByte d.string_buffer
    → IsNext d.state d.code_point byte
    → react byte d ≡ some (again, after)
    → IsSafe after
unfolding react IsSafe
react-IsSafe byte d again after h k n e = elim (Bool-cases (d.state == 0)) [
  | inl accepted ↦ elim (Option-cases (accept_point byte d)) [
    | inl failed ↦ impossible (rw (accepted, failed, react) at e)
    | inr (next, went) ↦
        subst IsSafe (ap (λ p. p.1) (some-injective _ _ (rw (accepted, went, react) at e)))
          (accept_point-IsSafe byte d next (ground arith) (h, k, inl (ground arith)) went)
  ]
  | inr other ↦ elim (Bool-cases (d.state == 1)) [
    | inl rejected ↦ elim (Option-cases (reject_byte d)) [
      | inl failed ↦ impossible (rw (other, rejected, failed, react) at e)
      | inr (next, went) ↦
          subst IsSafe (ap (λ p. p.1) (some-injective _ _ (rw (other, rejected, went, react) at e)))
            (reject_byte-IsSafe d next h k went)
    ]
    | inr unfinished ↦
        subst IsSafe (ap (λ p. p.1) (some-injective _ _ (rw (other, unfinished, react) at e)))
          (h, k, ground arith)
  ]
]

turn-IsSafe :
    (byte : ℕ) (d : Dump) (again : Bool) (after : Dump)
    → byte < 256
    → IsSafe d
    → turn byte d ≡ some (again, after)
    → IsSafe after
unfolding turn decoded IsSafe
turn-IsSafe byte d again after l h e =
    react-IsSafe byte (decoded byte d) again after h.0 h.1
      (decode-IsNext d.state d.code_point byte l h.2) e

done_value : (d after : Dump) → done d ≡ done after → d ≡ after
done_value d after e = ap (λ (o : Outcome Dump). elim o [ done v ↦ v | _ ↦ d ]) e

dump_loop-IsSafe :
    (fuel : ℕ) (str : Text) (d after : Dump)
    → All (λ c. c < 256) str
    → IsSafe d
    → dump_loop fuel str d ≡ done after
    → IsSafe after
unfolding dump_loop
dump_loop-IsSafe fuel [] d after l h e = subst IsSafe (done_value d after e) h
dump_loop-IsSafe zero (byte ∷ str) d after l h e = ground arith
dump_loop-IsSafe (suc fuel) (byte ∷ str) d after l h e = elim (Option-cases (turn byte d)) [
  | inl failed ↦
      let bad : Path (Outcome Dump) overflow (done after) = rw (failed, dump_loop) at e in
      ground arith
  | inr ((true, next), went) ↦
      dump_loop-IsSafe fuel (byte ∷ str) next after l (turn-IsSafe byte d true next l.0 h went)
        (rw (went, dump_loop) at e)
  | inr ((false, next), went) ↦
      dump_loop-IsSafe fuel str next after l.1 (turn-IsSafe byte d false next l.0 h went)
        (rw (went, dump_loop) at e)
]

finish-IsHtmlByte : (d : Dump) → IsSafe d → All IsHtmlByte (finish d)
unfolding finish IsSafe
finish-IsHtmlByte d h = elim (Bool-cases (d.state == 0)) [
  | inl whole ↦ rw whole (All-append IsHtmlByte d.out d.string_buffer h.0 h.1)
  | inr cut ↦
      let accepted = take d.bytes_after_last_accept d.string_buffer in
      let before =
        All-append IsHtmlByte d.out accepted h.0
          (take-All d.bytes_after_last_accept d.string_buffer h.1) in
      rw cut (All-append IsHtmlByte (d.out ++ accepted) (text "\\ufffd") before (ground arith))
]

outcome-done :
    (o : Outcome Dump) (page : Text)
    → outcome o ≡ done page
    → (d : Dump) × (o ≡ done d) × (page ≡ finish d)
unfolding outcome
outcome-done (done d) page e =
    (d, refl, ap (λ (o : Outcome Text). elim o [ done v ↦ v | _ ↦ page ]) (sym e))
outcome-done overflow page e = ground arith
outcome-done out_of_fuel page e = ground arith

-- Whatever bytes a string has, valid UTF-8 or not, what is appended for it to a page is printable
-- ASCII without a bracket of a tag and without a quotation mark of either kind: a page that has
-- only such bytes keeps only such bytes.
pub dump_escaped-IsHtmlByte :
    (out str page : Text)
    → All IsHtmlByte out
    → All (λ c. c < 256) str
    → dump_escaped out str ≡ done page
    → All IsHtmlByte page
unfolding dump_escaped start IsSafe
dump_escaped-IsHtmlByte out str page h l e =
    let end = outcome-done (dump_loop (2 * length str + 1) str (start out)) page e in
    subst (All IsHtmlByte) (sym end.2) (
      finish-IsHtmlByte end.0
        (dump_loop-IsSafe (2 * length str + 1) str (start out) end.0 l (h, tt, inl refl) end.1))
