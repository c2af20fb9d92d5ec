-- ===== src/Utf8.antt =====
-- Python's `str.encode()` and `bytes.decode()`, which app/packets.py calls with no argument: UTF-8,
-- strict. A `str` is the list of its code points, below 0x110000; a surrogate cannot be encoded.
pub mod Replace
pub mod RoundTrip
use bancho_prism_1_0_0_prod.Base.{
  ℕ, suc, zero, ◌+◌, ◌-◌, ◌*◌, ◌/◌, ◌%◌, List, [], ◌∷◌, ◌++◌, Bool, ◌&&◌, Option, none, some, ltb,
  leb, ◌==◌, if◌then◌else◌, Result, ok, err, unicode_error, ◌>>=◌,
}

abbrev pub Bytes : Type 0
Bytes = List ℕ

-- A `str`.
abbrev pub Text : Type 0
Text = List ℕ

abbrev pub is_surrogate : ℕ → Bool
is_surrogate c = leb 0xd800 c && ltb c 0xe000

unfoldable pub encode_char : ℕ → Bytes
encode_char c =
    if ltb c 0x80
    then c ∷ []
    else if ltb c 0x800
    then (192 + c / 64) ∷ (128 + c % 64) ∷ []
    else if ltb c 0x1_0000
    then (224 + c / 4096) ∷ (128 + c / 64 % 64) ∷ (128 + c % 64) ∷ []
    else (240 + c / 262144) ∷ (128 + c / 4096 % 64) ∷ (128 + c / 64 % 64) ∷ (128 + c % 64) ∷ []

unfoldable pub encode : Text → Result Bytes
unfolding encode_char
encode [] = ok []
encode (c ∷ s) =
    let rest = encode s in
    if is_surrogate c then err unicode_error else (do bs ← rest; ok (encode_char c ++ bs))

-- Between characters, or with `left` more bytes wanted, the next of them from `low` to `high`.
pub data Decoder : Type 0 where
  idle : Decoder
  inside : (left acc low high : ℕ) → Decoder

-- A lead byte. The ranges of the second byte exclude overlong forms, surrogates and what is above
-- 0x10ffff.
unfoldable pub lead_byte : ℕ → Option Decoder
lead_byte b =
    if ltb b 0xc2
    then none
    else if ltb b 0xe0
    then some (inside 0 (b - 192) 0x80 0xbf)
    else if ltb b 0xf0
    then some
        (inside 1 (b - 224) (if b == 0xe0 then 0xa0 else 0x80) (if b == 0xed then 0x9f else 0xbf))
    else if ltb b 0xf5
    then some
        (inside 2 (b - 240) (if b == 0xf0 then 0x90 else 0x80) (if b == 0xf4 then 0x8f else 0xbf))
    else none

abbrev put_char : ℕ → Result Text → Result Text
put_char c r = r >>= λ s. ok (c ∷ s)

unfoldable pub decode_from : Decoder → Bytes → Result Text
unfolding lead_byte
decode_from idle [] = ok []
decode_from (inside left acc low high) [] = err unicode_error
decode_from idle (b ∷ bs) =
    if ltb b 0x80
    then put_char b (decode_from idle bs)
    else elim (lead_byte b) [ none ↦ err unicode_error | some d ↦ decode_from d bs ]
decode_from (inside zero acc low high) (b ∷ bs) =
    if leb low b && leb b high
    then put_char (acc * 64 + (b - 128)) (decode_from idle bs)
    else err unicode_error
decode_from (inside (suc left) acc low high) (b ∷ bs) =
    if leb low b && leb b high
    then decode_from (inside left (acc * 64 + (b - 128)) 0x80 0xbf) bs
    else err unicode_error

unfoldable pub decode : Bytes → Result Text
unfolding decode_from
decode = decode_from idle
