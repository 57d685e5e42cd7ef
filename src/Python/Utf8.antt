-- ===== src/Python/Utf8.antt =====
-- `bytes.decode("utf-8")`: the strict decoder, byte by byte.
use evidencedesk.Prelude.{
  ℕ, zero, suc, ◌+◌, ◌-◌, ◌*◌, ◌≡◌, refl, Text, Bytes, Option, none, some, [], ◌∷◌, ◌&&◌, leb, ltb,
  ◌==◌, if◌then◌else◌,
}

-- How many continuation bytes are still due, the bits read so far, and the range of the next byte.
pub record Pending : Type 0 where
  due : ℕ
  bits : ℕ
  lowest : ℕ
  highest : ℕ

abbrev between : Pending
between = record { due = 0; bits = 0; lowest = 0; highest = 0 }

abbrev pending : ℕ → ℕ → ℕ → ℕ → Option (Option ℕ × Pending)
pending due bits lowest highest =
    some (none, record { due = due; bits = bits; lowest = lowest; highest = highest })

-- A byte that begins a character: what it completes, and what must follow it. Overlong forms,
-- surrogates and what lies past U+10FFFF are shut out by the range of the second byte.
abbrev first_byte : ℕ → Option (Option ℕ × Pending)
first_byte b =
    if ltb b 0x80
    then some (some b, between)
    else if ltb b 0xc2
    then none
    else if ltb b 0xe0
    then pending 1 (b - 0xc0) 0x80 0xbf
    else if b == 0xe0
    then pending 2 0 0xa0 0xbf
    else if b == 0xed
    then pending 2 13 0x80 0x9f
    else if ltb b 0xf0
    then pending 2 (b - 0xe0) 0x80 0xbf
    else if b == 0xf0
    then pending 3 0 0x90 0xbf
    else if ltb b 0xf4
    then pending 3 (b - 0xf0) 0x80 0xbf
    else if b == 0xf4
    then pending 3 4 0x80 0x8f
    else none

abbrev next_byte : ℕ → ℕ → ℕ → ℕ → ℕ → Option (Option ℕ × Pending)
next_byte more bits lowest highest b =
    if leb lowest b && leb b highest
    then (if more == 0
        then some (some (bits * 64 + (b - 0x80)), between)
        else pending more (bits * 64 + (b - 0x80)) 0x80 0xbf)
    else none

abbrev byte_step : ℕ → Pending → ℕ → Option (Option ℕ × Pending)
byte_step zero s b = first_byte b
byte_step (suc more) s b = next_byte more s.bits s.lowest s.highest b

abbrev emit : Option ℕ → Option Text → Option Text
emit _ none = none
emit none (some s) = some s
emit (some c) (some s) = some (c ∷ s)

unfoldable pub decode_from : Pending → Bytes → Option Text
decode_from s [] = if s.due == 0 then some [] else none
decode_from s (b ∷ bs) = elim (byte_step s.due s b) [
  | none ↦ none
  | some (out, s') ↦ emit out (decode_from s' bs)
]

-- `none` is `UnicodeDecodeError`.
unfoldable pub decode : Bytes → Option Text
unfolding decode_from
decode = decode_from between

-- A test: an ASCII letter and a character of three bytes.
euro : decode (0x61 ∷ 0xe2 ∷ 0x82 ∷ 0xac ∷ []) ≡ some (0x61 ∷ 0x20ac ∷ [])
unfolding decode
euro = refl
