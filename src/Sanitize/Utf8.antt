-- ===== src/Sanitize/Utf8.antt =====
-- Go's unicode/utf8, what sanitize.go uses of it: the last rune of a text. The text is given from
-- its end, so `last_rune` reads the bytes in the order in which the library looks at them.
use mod_sec_intl_wace_lib.Base.{
  Bool, [], if◌then◌else◌, leb, length, ltb, suc, zero, ℕ, ◌&&◌, ◌*◌, ◌+◌, ◌-◌, ◌==◌, ◌∷◌,
}
use mod_sec_intl_wace_lib.WaceApi.{Bytes}

abbrev rune_error : ℕ
rune_error = 0xFFFD

abbrev within : ℕ → ℕ → ℕ → Bool
within lo b hi = leb lo b && leb b hi

-- A byte that does not start a rune.
abbrev is_continuation : ℕ → Bool
is_continuation b = within 0x80 b 0xBF

-- The bounds of the second byte, which exclude overlong forms, surrogates and large values.
abbrev second_low : ℕ → ℕ
second_low b = if b == 0xE0 then 0xA0 else if b == 0xF0 then 0x90 else 0x80

abbrev second_high : ℕ → ℕ
second_high b = if b == 0xED then 0x9F else if b == 0xF4 then 0x8F else 0xBF

decode_two : ℕ → Bytes → ℕ × ℕ
decode_two a (b ∷ _) =
    if is_continuation b then ((a - 0xC0) * 64 + (b - 0x80), 2) else (rune_error, 1)
decode_two a _ = (rune_error, 1)

decode_three : ℕ → Bytes → ℕ × ℕ
decode_three a (b ∷ c ∷ _) =
    if within (second_low a) b (second_high a) && is_continuation c
    then ((a - 0xE0) * 4096 + (b - 0x80) * 64 + (c - 0x80), 3)
    else (rune_error, 1)
decode_three a _ = (rune_error, 1)

decode_four : ℕ → Bytes → ℕ × ℕ
decode_four a (b ∷ c ∷ d ∷ _) =
    if within (second_low a) b (second_high a) && is_continuation c && is_continuation d
    then ((a - 0xF0) * 262144 + (b - 0x80) * 4096 + (c - 0x80) * 64 + (d - 0x80), 4)
    else (rune_error, 1)
decode_four a _ = (rune_error, 1)

-- `DecodeRuneInString`: the first rune and its size.
unfoldable pub decode_rune : Bytes → ℕ × ℕ
unfolding decode_two decode_three decode_four
decode_rune [] = (rune_error, 0)
decode_rune (a ∷ rest) =
    if ltb a 0x80
    then (a, 1)
    else if within 0xC2 a 0xDF
    then decode_two a rest
    else if within 0xE0 a 0xEF
    then decode_three a rest
    else if within 0xF0 a 0xF4
    then decode_four a rest
    else (rune_error, 1)

-- The bytes from the start of the last rune: at most three more are looked at, and where none of
-- them starts a rune one byte more is taken.
unfoldable pub last_chunk : ℕ → Bytes → Bytes → Bytes
last_chunk k [] chunk = chunk
last_chunk zero (b ∷ before) chunk = b ∷ chunk
last_chunk (suc k) (b ∷ before) chunk =
    let more = last_chunk k before (b ∷ chunk) in if is_continuation b then more else b ∷ chunk

-- `DecodeLastRuneInString` of the text whose reverse is given.
unfoldable pub last_rune : Bytes → ℕ × ℕ
unfolding last_chunk decode_rune
last_rune [] = (rune_error, 0)
last_rune (b ∷ before) =
    let chunk = last_chunk 3 before (b ∷ []) in
    let (r, size) = decode_rune chunk in
    if ltb b 0x80 then (b, 1) else if size == length chunk then (r, size) else (rune_error, 1)
