-- ===== src/Html.antt =====
-- How a Redfish answer is shown as a page: the escaping of strings of
-- src/core/route/redfish/response.cpp.
pub mod Decode
pub mod Safe
pub mod Loop
pub mod Encoding
pub mod Utf8
pub mod Integer
pub mod Append
pub mod Page
mod Tests
use obmc_yadro_webapp.Prelude.{
  ℕ, zero, suc, ◌+◌, ◌-◌, ◌*◌, ◌/◌, ◌%◌, ◌^◌, ◌≡◌, Bool, true, false, ◌||◌, Option, none, some,
  List, [], ◌∷◌, ◌++◌, arith, ltb, leb, if◌then◌else◌, Eq, ◌==◌, nat_eq, length, get_elem?, take,
  lookup,
}
use obmc_yadro_webapp.Prelude.Text.{Text, text, starts_with}

-- A number over and over, before the rest.
unfoldable pub repeat : ℕ → ℕ → List ℕ → List ℕ
repeat zero x rest = rest
repeat (suc n) x rest = x ∷ repeat n x rest

-- The class of each byte, from 00 to FF.
abbrev pub byte_classes : List ℕ
unfolding repeat
byte_classes = repeat 128 0 (
    repeat 16 1 (
      repeat 16 9 (
        repeat 32 7 (
          8
          ∷ 8
          ∷ repeat 30 2 (
              0xA
              ∷ repeat 12 3 (0x4 ∷ 0x3 ∷ 0x3 ∷ (0xB ∷ 0x6 ∷ 0x6 ∷ 0x6 ∷ 0x5 ∷ repeat 11 8 [])))))))

-- The next state for each class, from state s0 to s8.
abbrev pub next_states : List ℕ
unfolding repeat
next_states =
    (0x0 ∷ 0x1 ∷ 0x2 ∷ 0x3 ∷ 0x5 ∷ 0x8 ∷ 0x7 ∷ 0x1 ∷ 0x1 ∷ 0x1 ∷ 0x4 ∷ 0x6 ∷ 0x1 ∷ 0x1 ∷ 0x1 ∷ 0x1
      ∷ 1 ∷ 1 ∷ 1 ∷ 1 ∷ 1 ∷ 1 ∷ 1 ∷ 1 ∷ 1 ∷ 1 ∷ 1 ∷ 1 ∷ 1 ∷ 1 ∷ 1 ∷ 1 ∷ 1 ∷ 0 ∷ 1 ∷ 1 ∷ 1 ∷ 1 ∷ 1
      ∷ 0 ∷ 1 ∷ 0 ∷ 1 ∷ 1 ∷ 1 ∷ 1 ∷ 1 ∷ 1 ∷ 1 ∷ 2 ∷ 1 ∷ 1 ∷ 1 ∷ 1 ∷ 1 ∷ 2 ∷ 1 ∷ 2 ∷ 1 ∷ 1 ∷ 1 ∷ 1
      ∷ 1 ∷ 1 ∷ 1 ∷ 1 ∷ 1 ∷ 1 ∷ 1 ∷ 1 ∷ 1 ∷ 2 ∷ 1 ∷ 1 ∷ 1 ∷ 1 ∷ 1 ∷ 1 ∷ 1 ∷ 1 ∷ 1 ∷ 2 ∷ 1 ∷ 1 ∷ 1
      ∷ 1 ∷ 1 ∷ 1 ∷ 1 ∷ 2 ∷ 1 ∷ 1 ∷ 1 ∷ 1 ∷ 1 ∷ 1 ∷ 1 ∷ 1 ∷ 1 ∷ 1 ∷ 1 ∷ 1 ∷ 1 ∷ 3 ∷ 1 ∷ 3 ∷ 1 ∷ 1
      ∷ 1 ∷ 1 ∷ 1 ∷ 1 ∷ 1 ∷ 3 ∷ 1 ∷ 1 ∷ 1 ∷ 1 ∷ 1 ∷ 3 ∷ 1 ∷ 3 ∷ 1 ∷ 1 ∷ 1 ∷ 1 ∷ 1 ∷ 1 ∷ 1 ∷ 3 ∷ 1
      ∷ 1 ∷ 1 ∷ 1 ∷ 1 ∷ 1 ∷ 1 ∷ 1 ∷ 1 ∷ 1 ∷ 1 ∷ 1 ∷ 1 ∷ 1 ∷ [])

-- `utf8d[i]`; the index is always below 400.
unfoldable pub utf8d : ℕ → ℕ
utf8d i = elim (get_elem? (byte_classes ++ next_states) i) [ none ↦ 0 | some v ↦ v ]

abbrev pub utf8_accept : ℕ
utf8_accept = 0

abbrev pub utf8_reject : ℕ
utf8_reject = 1

-- The state and the code point after a byte. The low bits of the byte are those that `0xff >> type`
-- or `0x3f` keeps, and the code point has 32 bits.
unfoldable pub decode : ℕ → ℕ → ℕ → ℕ × ℕ
decode state code_point byte =
    let type = utf8d byte in
    let code =
      if state == utf8_accept
      then byte % 2 ^ (8 - type)
      else byte % 64 + code_point * 64 % 2 ^ 32 in
    if ltb 8 state then (state, code_point) else (utf8d (256 + state * 16 + type), code)

-- A digit of `%04x`.
hex_digit : ℕ → ℕ
hex_digit n = if ltb n 10 then b'0' + n else b'a' + (n - 10)

-- `\u%04x` of a 16-bit number.
unfoldable pub unicode_escape : ℕ → Text
unfolding hex_digit
unicode_escape n =
    text "\\u"
    ++ hex_digit (n / 4096 % 16)
      ∷ hex_digit (n / 256 % 16)
      ∷ hex_digit (n / 16 % 16)
      ∷ hex_digit (n % 16)
      ∷ []

-- The code points that have a name.
unfoldable pub named_escapes : List (ℕ × Text)
named_escapes =
    (0x08, text "\\b")
    ∷ (0x09, text "\\t")
    ∷ (0x0A, text "\\n")
    ∷ (0x0C, text "\\f")
    ∷ (0x0D, text "\\r")
    ∷ (0x22, text "&quot;")
    ∷ (0x27, text "&apos;")
    ∷ (0x26, text "&amp;")
    ∷ (0x3C, text "\\lt;")
    ∷ (0x3E, text "\\gt;")
    ∷ []

-- The default case of the switch over the code points.
unfoldable pub default_escape : ℕ → ℕ → Text
unfolding unicode_escape
default_escape code_point byte =
    if leb code_point 0x1F || leb 0x7F code_point
    then (if leb code_point 0xFFFF
        then unicode_escape (code_point % 2 ^ 16)
        else unicode_escape ((0xD7C0 + code_point / 2 ^ 10) % 2 ^ 16)
          ++ unicode_escape ((0xDC00 + code_point % 2 ^ 10) % 2 ^ 16))
    else byte ∷ []

-- What is written for a code point whose last byte is `byte`.
unfoldable pub escaped : ℕ → ℕ → Text
unfolding named_escapes default_escape
escaped code_point byte = elim (lookup code_point named_escapes) [
  | some name ↦ name
  | none ↦ default_escape code_point byte
]

-- `snprintf` writes a zero byte behind an escape of a control character or of a code point above
-- the printable ones.
unfoldable pub terminator : Text → ℕ
terminator s = if starts_with (text "\\u") s then 1 else 0

abbrev pub buffer_size : ℕ
buffer_size = 512

-- `string_buffer` holds its first `bytes` bytes, so that `bytes` is its length.
pub record Dump : Type 0 where
  pub out : Text
  pub string_buffer : Text
  pub bytes_after_last_accept : ℕ
  pub undumped_chars : ℕ
  pub state : ℕ
  pub code_point : ℕ

-- Bytes put behind those of the buffer. `none` is a write behind the end of the array, which is
-- undefined in the source.
unfoldable pub write : ℕ → Text → Text → Option Text
write ends s string_buffer =
    if leb (length string_buffer + length s + ends) buffer_size
    then some (string_buffer ++ s)
    else none

-- The buffer is emptied where less than 13 bytes are left.
unfoldable pub flush : Text → Dump → Dump
flush buffer d =
    if ltb (buffer_size - length buffer) 13
    then record d {
      out = d.out ++ buffer;
      string_buffer = [];
      bytes_after_last_accept = 0;
      undumped_chars = 0;
    }
    else record d {
      string_buffer = buffer;
      bytes_after_last_accept = length buffer;
      undumped_chars = 0;
    }

-- A new code point is written.
unfoldable pub accept_point : ℕ → Dump → Option Dump
unfolding escaped terminator write flush
accept_point byte d =
    let chunk = escaped d.code_point byte in
    elim (write (terminator chunk) chunk d.string_buffer) [
      | none ↦ none
      | some buffer ↦ some (flush buffer d)
    ]

-- The last accepted bytes with a replacement behind them; decoding starts anew.
unfoldable pub resume : Text → Dump → Dump
resume buffer d = record d {
  string_buffer = buffer;
  bytes_after_last_accept = length buffer;
  undumped_chars = 0;
  state = utf8_accept;
}

-- An invalid byte is replaced.
unfoldable pub reject_byte : Dump → Option Dump
unfolding write resume
reject_byte d = elim (write 0 (text "\\ufffd") (take d.bytes_after_last_accept d.string_buffer)) [
  | none ↦ none
  | some buffer ↦ some (resume buffer d)
]

unfoldable pub decoded : ℕ → Dump → Dump
unfolding decode
decoded byte d =
    let result = decode d.state d.code_point byte in
    record d { state = result.0; code_point = result.1 }

-- The cases of the decoder's new state; the Boolean says that the byte is read again.
unfoldable pub react : ℕ → Dump → Option (Bool × Dump)
unfolding accept_point reject_byte
react byte d =
    if d.state == utf8_accept
    then elim (accept_point byte d) [ none ↦ none | some after ↦ some (false, after) ]
    else if d.state == utf8_reject
    then elim (reject_byte d) [ none ↦ none | some after ↦ some (ltb 0 d.undumped_chars, after) ]
    else some (false, record d { undumped_chars = suc d.undumped_chars })

-- One turn of the loop.
unfoldable pub turn : ℕ → Dump → Option (Bool × Dump)
unfolding decoded react
turn byte d = react byte (decoded byte d)

-- What running the loop comes to.
pub data Outcome {ℓ} (A : Type ℓ) : Type ℓ where
  done : A → Outcome A
  overflow out_of_fuel : Outcome A

unfoldable pub dump_loop : ℕ → Text → Dump → Outcome Dump
unfolding turn
dump_loop fuel [] d = done d
dump_loop zero (byte ∷ str) d = out_of_fuel
dump_loop (suc fuel) (byte ∷ str) d = elim (turn byte d) [
  | none ↦ overflow
  | some (true, after) ↦ dump_loop fuel (byte ∷ str) after
  | some (false, after) ↦ dump_loop fuel str after
]

-- What is left in the buffer is written at the end.
unfoldable pub finish : Dump → Text
finish d =
    if d.state == utf8_accept
    then d.out ++ d.string_buffer
    else d.out ++ take d.bytes_after_last_accept d.string_buffer ++ text "\\ufffd"

unfoldable pub start : Text → Dump
start out = record {
  out = out;
  string_buffer = [];
  bytes_after_last_accept = 0;
  undumped_chars = 0;
  state = utf8_accept;
  code_point = 0;
}

unfoldable pub outcome : Outcome Dump → Outcome Text
unfolding finish
outcome (done d) = done (finish d)
outcome overflow = overflow
outcome out_of_fuel = out_of_fuel

-- Each byte is read twice at most.
unfoldable pub dump_escaped : Text → Text → Outcome Text
unfolding dump_loop start outcome
dump_escaped out str = outcome (dump_loop (2 * length str + 1) str (start out))
