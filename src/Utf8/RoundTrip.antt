-- ===== src/Utf8/RoundTrip.antt =====
-- What `encode` writes, `decode` reads.
use bancho_prism_1_0_0_prod.Base.{
  ℕ, suc, ◌+◌, ◌-◌, ◌*◌, ◌/◌, ◌%◌, ◌<◌, ◌≤◌, ◌≡◌, ◌∙◌, ap, false, some, [], ◌∷◌, ◌++◌, Result-cases,
  arith, ◌==◌, if◌then◌else◌, inl, inr, Result, ok,
}
use bancho_prism_1_0_0_prod.Utf8.{
  Bytes, Text, Decoder, encode, encode_char, decode, decode_from, idle, inside, is_surrogate,
  lead_byte, put_char,
}

-- A list of code points; Python's `str` holds no others.
abbrev pub IsText : Text → Type 0
IsText [] = Unit
IsText (c ∷ s) = (c < 0x11_0000) × IsText s

lead_step :
    (b : ℕ) (d : Decoder) (bs : Bytes)
    → 0x80 ≤ b
    → lead_byte b ≡ some d
    → decode_from idle (b ∷ bs) ≡ decode_from d bs
unfolding decode_from
lead_step b d bs h e = ground arith

next_step :
    (left acc low high b : ℕ) (bs : Bytes)
    → low ≤ b
    → b ≤ high
    → decode_from (inside (suc left) acc low high) (b ∷ bs)
      ≡ decode_from (inside left (acc * 64 + (b - 128)) 0x80 0xbf) bs
unfolding decode_from
next_step left acc low high b bs p q = ground arith

last_step :
    (acc low high b : ℕ) (bs : Bytes)
    → low ≤ b
    → b ≤ high
    → decode_from (inside 0 acc low high) (b ∷ bs)
      ≡ put_char (acc * 64 + (b - 128)) (decode_from idle bs)
unfolding decode_from
last_step acc low high b bs p q = ground arith

put_char_eq : (c d : ℕ) (r : Result Text) → c ≡ d → put_char c r ≡ put_char d r
put_char_eq c d r e = ap (λ x. put_char x r) e

module _ (c : ℕ) (bs : Bytes) where
  one_byte : c < 0x80 → decode_from idle (c ∷ bs) ≡ put_char c (decode_from idle bs)
  unfolding decode_from
  one_byte h = ground arith

  two_bytes :
      0x80 ≤ c
      → c < 0x800
      → decode_from idle ((192 + c / 64) ∷ (128 + c % 64) ∷ bs) ≡ put_char c (decode_from idle bs)
  two_bytes h k =
      lead_step (192 + c / 64) (inside 0 (c / 64) 0x80 0xbf) ((128 + c % 64) ∷ bs) (omega arith)
        (unfold lead_byte in ground arith)
      ∙ last_step (c / 64) 0x80 0xbf (128 + c % 64) bs (omega arith) (omega arith)
      ∙ put_char_eq (c / 64 * 64 + (128 + c % 64 - 128)) c (decode_from idle bs) (omega arith)

  three_bytes :
      0x800 ≤ c
      → c < 0x1_0000
      → is_surrogate c ≡ false
      → decode_from idle ((224 + c / 4096) ∷ (128 + c / 64 % 64) ∷ (128 + c % 64) ∷ bs)
        ≡ put_char c (decode_from idle bs)
  three_bytes h k s =
      let low : ℕ = if 224 + c / 4096 == 0xe0 then 0xa0 else 0x80 in
      let high : ℕ = if 224 + c / 4096 == 0xed then 0x9f else 0xbf in
      lead_step (224 + c / 4096) (inside 1 (c / 4096) low high)
        ((128 + c / 64 % 64) ∷ (128 + c % 64) ∷ bs) (omega arith) (unfold lead_byte in ground arith)
      ∙ next_step 0 (c / 4096) low high (128 + c / 64 % 64) ((128 + c % 64) ∷ bs) (ground arith)
          (ground arith)
      ∙ last_step (c / 4096 * 64 + (128 + c / 64 % 64 - 128)) 0x80 0xbf (128 + c % 64) bs
          (omega arith) (omega arith)
      ∙ put_char_eq _ c (decode_from idle bs) (omega arith)

  four_bytes :
      0x1_0000 ≤ c
      → c < 0x11_0000
      → decode_from idle
          ((240 + c / 262144) ∷ (128 + c / 4096 % 64) ∷ (128 + c / 64 % 64) ∷ (128 + c % 64) ∷ bs)
        ≡ put_char c (decode_from idle bs)
  four_bytes h k =
      let low : ℕ = if 240 + c / 262144 == 0xf0 then 0x90 else 0x80 in
      let high : ℕ = if 240 + c / 262144 == 0xf4 then 0x8f else 0xbf in
      let a : ℕ = c / 262144 * 64 + (128 + c / 4096 % 64 - 128) in
      lead_step (240 + c / 262144) (inside 2 (c / 262144) low high)
        ((128 + c / 4096 % 64) ∷ (128 + c / 64 % 64) ∷ (128 + c % 64) ∷ bs) (omega arith)
        (unfold lead_byte in ground arith)
      ∙ next_step 1 (c / 262144) low high (128 + c / 4096 % 64)
          ((128 + c / 64 % 64) ∷ (128 + c % 64) ∷ bs) (ground arith) (ground arith)
      ∙ next_step 0 a 0x80 0xbf (128 + c / 64 % 64) ((128 + c % 64) ∷ bs) (omega arith)
          (omega arith)
      ∙ last_step (a * 64 + (128 + c / 64 % 64 - 128)) 0x80 0xbf (128 + c % 64) bs (omega arith)
          (omega arith)
      ∙ put_char_eq _ c (decode_from idle bs) (omega arith)

  decode_from-encode_char :
      c < 0x11_0000
      → is_surrogate c ≡ false
      → decode_from idle (encode_char c ++ bs) ≡ put_char c (decode_from idle bs)
  unfolding encode_char
  decode_from-encode_char h s = ground (arith, one_byte, two_bytes, three_bytes, four_bytes)

encode_parts :
    (c : ℕ) (s : Text) (bs : Bytes)
    → encode (c ∷ s) ≡ ok bs
    → (rest : Bytes) × (encode s ≡ ok rest)
      × (is_surrogate c ≡ false)
      × (encode_char c ++ rest ≡ bs)
encode_parts c s bs e = elim (Result-cases (encode s)) [
  | inl (rest, q) ↦
      (rest, q, unfold encode in ground (arith, q), unfold encode in ground (arith, q))
  | inr (x, q) ↦ absurd (unfold encode in ground (arith, q))
]

-- Decoding the bytes of a text gives the text back, whenever the text could be encoded at all.
pub decode-encode : (s : Text) (bs : Bytes) → IsText s → encode s ≡ ok bs → decode bs ≡ ok s
unfolding decode encode
decode-encode [] bs h e = ground arith
decode-encode (c ∷ s) bs h e =
    let (rest, q, k, p) = encode_parts c s bs e in
    rw (← p) (decode_from-encode_char c rest h.0 k ∙ ap (put_char c) (decode-encode s rest h.1 q))
