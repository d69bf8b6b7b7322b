-- ===== src/Html/Utf8.antt =====
-- Valid UTF-8 is escaped code point by code point (src/core/route/redfish/response.cpp).
use mathlib.Core.Path.{subst}
use obmc_yadro_webapp.Prelude.{
  ℕ, suc, ◌+◌, ◌-◌, ◌*◌, ◌/◌, ◌%◌, ◌^◌, ◌≡◌, ◌≤◌, ◌⊎◌, inl, inr, refl, ap, ◌∙◌, sym, true, false,
  ◌||◌, some, List, [], ◌∷◌, ◌++◌, append-nil, append_assoc, arith, ltb, leb, ◌==◌, nat_eq, All,
  All-lookup, lookup, length, length-append, Bool-cases, Option-cases,
}
use obmc_yadro_webapp.Prelude.Text.{Text}
use obmc_yadro_webapp.Html.{
  named_escapes, default_escape, unicode_escape, terminator, escaped, Dump, write, flush,
  accept_point, decoded, react, turn, done, outcome, dump_loop, start, finish, dump_escaped,
}
use obmc_yadro_webapp.Html.Encoding.{IsScalar, utf8, utf8_text, Reads, utf8-Reads}

-- What each code point stands as on the page.
abbrev pub escaped_text : List ℕ → Text
escaped_text [] = []
escaped_text (c ∷ points) = escaped c c ++ escaped_text points

length-unicode_escape : (n : ℕ) → length (unicode_escape n) ≡ 6
unfolding unicode_escape
length-unicode_escape n = refl

length-unicode_pair : (m n : ℕ) → length (unicode_escape m ++ unicode_escape n) ≡ 12
unfolding unicode_escape
length-unicode_pair m n = refl

default_escape-length : (c byte : ℕ) → length (default_escape c byte) ≤ 12
unfolding default_escape
default_escape-length c byte = elim (Bool-cases (leb c 0x1F || leb 0x7F c)) [
  | inl coded ↦ elim (Bool-cases (leb c 0xFFFF)) [
    | inl short ↦ rw (coded, short) (omega (arith, length-unicode_escape (c % 2 ^ 16)))
    | inr long ↦
        rw (coded, long)
          (omega (
            arith,
            length-unicode_pair ((0xD7C0 + c / 2 ^ 10) % 2 ^ 16) ((0xDC00 + c % 2 ^ 10) % 2 ^ 16),
          ))
  ]
  | inr plain ↦ rw plain (omega arith)
]

names-length : All (λ (p : ℕ × Text). length p.1 ≤ 12) named_escapes
unfolding named_escapes
names-length = ground arith

escaped-length : (c byte : ℕ) → length (escaped c byte) ≤ 12
unfolding escaped
escaped-length c byte = elim (Option-cases (lookup c named_escapes)) [
  | inl missed ↦ rw (missed, escaped) (default_escape-length c byte)
  | inr (name, found) ↦
      rw (found, escaped) (All-lookup (λ t. length t ≤ 12) c name named_escapes names-length found)
]

terminator-le : (s : Text) → terminator s ≤ 1
unfolding terminator
terminator-le s = ground arith

default_escape-high : (p byte : ℕ) → 0x80 ≤ p → default_escape p byte ≡ default_escape p p
unfolding default_escape
default_escape-high p byte h =
    let coded : (leb p 0x1F || leb 0x7F p) ≡ true = ground arith in rw coded refl

-- The byte matters only for the code points that it is equal to.
escaped-last : (p byte : ℕ) → (byte ≡ p) ⊎ (0x80 ≤ p) → escaped p byte ≡ escaped p p
unfolding escaped
escaped-last p byte (inl same) = ap (escaped p) same
escaped-last p byte (inr high) = elim (Option-cases (lookup p named_escapes)) [
  | inl missed ↦ rw (missed, escaped) (default_escape-high p byte high)
  | inr (name, found) ↦ rw (found, escaped) refl
]

-- At least 13 bytes of the buffer are left.
HasRoom : Dump → Type 0
HasRoom d = length d.string_buffer ≤ 499

-- What is shown of the string so far.
shown : Dump → Text
shown d = d.out ++ d.string_buffer

flush_lem :
    (buffer : Text) (d : Dump)
    → (shown (flush buffer d) ≡ d.out ++ buffer)
      × HasRoom (flush buffer d)
      × ((flush buffer d).state ≡ d.state)
unfolding flush shown HasRoom
flush_lem buffer d = elim (Bool-cases (ltb (512 - length buffer) 13)) [
  | inl full ↦ rw full (append-nil (d.out ++ buffer), omega arith, refl)
  | inr room ↦ rw room (refl, ground arith, refl)
]

leb_of_le : (a b : ℕ) → a ≤ b → leb a b ≡ true
leb_of_le a b h = ground arith

accept_point_lem :
    (byte : ℕ) (d : Dump)
    → HasRoom d
    → (after : Dump) × (accept_point byte d ≡ some after)
      × (shown after ≡ shown d ++ escaped d.code_point byte)
      × HasRoom after
      × (after.state ≡ d.state)
unfolding accept_point write HasRoom shown
accept_point_lem byte d h =
    let chunk : Text = escaped d.code_point byte in
    let fits : leb (length d.string_buffer + length chunk + terminator chunk) 512 ≡ true =
      leb_of_le (length d.string_buffer + length chunk + terminator chunk) 512
        (omega (arith, escaped-length d.code_point byte, terminator-le chunk)) in
    let flushed = flush_lem (d.string_buffer ++ chunk) d in
    (
      flush (d.string_buffer ++ chunk) d,
      rw (accept_point, fits) refl,
      flushed.0 ∙ sym (append_assoc d.out d.string_buffer chunk),
      flushed.1,
      flushed.2,
    )

react-accepted :
    (byte : ℕ) (d after : Dump)
    → d.state ≡ 0
    → accept_point byte d ≡ some after
    → react byte d ≡ some (false, after)
unfolding react
react-accepted byte d after s e = rw (s, e, react) refl

react-unfinished :
    (byte : ℕ) (d : Dump)
    → 2 ≤ d.state
    → react byte d ≡ some (false, record d { undumped_chars = suc d.undumped_chars })
unfolding react
react-unfinished byte d h =
    let begun : (d.state == 0) ≡ false = ground arith in
    let valid : (d.state == 1) ≡ false = ground arith in rw (react, begun, valid) refl

dump_loop-turn :
    (whole fuel byte : ℕ) (str : Text) (d after : Dump)
    → whole ≡ suc fuel
    → turn byte d ≡ some (false, after)
    → dump_loop whole (byte ∷ str) d ≡ dump_loop fuel str after
unfolding dump_loop
dump_loop-turn whole fuel byte str d after w e = rw (w, e, dump_loop) refl

-- The bytes of a code point are read one after the other, and its escape is shown.
dump_loop-Reads :
    (fuel : ℕ) (bytes str : Text) (p : ℕ) (d : Dump)
    → Reads d.state d.code_point bytes p
    → HasRoom d
    → (after : Dump) × (dump_loop (length bytes + fuel) (bytes ++ str) d ≡ dump_loop fuel str after)
      × (shown after ≡ shown d ++ escaped p p)
      × HasRoom after
      × (after.state ≡ 0)
unfolding Reads turn decoded HasRoom shown
dump_loop-Reads fuel [] str p d r h = elim r [ ]
dump_loop-Reads fuel (b ∷ []) str p d r h =
    let next : Dump = decoded b d in
    let accepted = accept_point_lem b next h in
    let went : turn b d ≡ some (false, accepted.0) =
      react-accepted b next accepted.0 r.0 accepted.1 in
    let point : escaped next.code_point b ≡ escaped p p =
      ap (λ n. escaped n b) r.1 ∙ escaped-last p b r.2 in
    (
      accepted.0,
      dump_loop-turn (length (b ∷ []) + fuel) fuel b str d accepted.0 (omega arith) went,
      accepted.2 ∙ ap (λ t. shown d ++ t) point,
      accepted.3,
      accepted.4 ∙ r.0,
    )
dump_loop-Reads fuel (b ∷ b' ∷ bs) str p d r h =
    let next : Dump = record (decoded b d) { undumped_chars = suc d.undumped_chars } in
    let went : turn b d ≡ some (false, next) = react-unfinished b (decoded b d) r.0 in
    let rest = dump_loop-Reads fuel (b' ∷ bs) str p next r.1 h in
    (
      rest.0,
      dump_loop-turn (length (b ∷ b' ∷ bs) + fuel) (length (b' ∷ bs) + fuel) b ((b' ∷ bs) ++ str) d
            next (omega arith) went
          ∙ rest.1,
      rest.2,
      rest.3,
      rest.4,
    )

dump_loop-utf8 :
    (fuel : ℕ) (points : List ℕ) (d : Dump)
    → All IsScalar points
    → length (utf8_text points) ≤ fuel
    → HasRoom d
    → d.state ≡ 0
    → (after : Dump) × (dump_loop fuel (utf8_text points) d ≡ done after)
      × (shown after ≡ shown d ++ escaped_text points)
      × (after.state ≡ 0)
unfolding HasRoom shown
dump_loop-utf8 fuel [] d l enough h s = (d, unfold dump_loop in refl, sym (append-nil (shown d)), s)
dump_loop-utf8 fuel (p ∷ points) d l enough h s =
    let size = length-append (utf8 p) (utf8_text points) in
    let left : ℕ = fuel - length (utf8 p) in
    let read =
      dump_loop-Reads left (utf8 p) (utf8_text points) p d
        (subst (λ n. Reads n d.code_point (utf8 p) p) (sym s) (utf8-Reads d.code_point p l.0)) h in
    let rest = dump_loop-utf8 left points read.0 l.1 (omega arith) read.3 read.4 in
    let all_fuel : length (utf8 p) + left ≡ fuel = omega arith in
    (
      rest.0,
      subst (λ n. dump_loop n (utf8 p ++ utf8_text points) d ≡ done rest.0) all_fuel
          (read.1 ∙ rest.1),
      rest.2
          ∙ ap (λ t. t ++ escaped_text points) read.2
          ∙ append_assoc (shown d) (escaped p p) (escaped_text points),
      rest.3,
    )

-- A valid UTF-8 string is written in full, each code point as its escape: the buffer never
-- overflows and nothing is replaced.
pub dump_escaped-utf8 :
    (out : Text) (points : List ℕ)
    → All IsScalar points
    → dump_escaped out (utf8_text points) ≡ done (out ++ escaped_text points)
unfolding dump_escaped start outcome finish HasRoom shown
dump_escaped-utf8 out points l =
    let size : ℕ = 2 * length (utf8_text points) + 1 in
    let ran = dump_loop-utf8 size points (start out) l (omega arith) (omega arith) refl in
    rw ran.1 (rw ran.3 (ap done (ran.2 ∙ ap (λ t. t ++ escaped_text points) (append-nil out))))
