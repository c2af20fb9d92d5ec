-- ===== src/Replay/Strings.antt =====
-- Numbers and strings that app/packets.py or `struct.pack` writes, read by the reader of
-- app/adapters/osr_replay.py.
use bancho_prism_1_0_0_prod.Base.{
  ℕ, zero, suc, ◌+◌, ◌*◌, ◌/◌, ◌%◌, ◌^◌, ◌≤◌, ◌<◌, ◌≡◌, refl, ◌∙◌, arith, [], ◌∷◌, ◌++◌, true,
  false, ltb, ◌==◌, length, Bool-cases, inl, inr, ok, >>=-eq-ok, Result-cases, ok-injective,
  length-append,
}
use bancho_prism_1_0_0_prod.Base.Int.{ℤ, pos}
use bancho_prism_1_0_0_prod.Utf8.{Bytes, Text, is_surrogate, encode_char, encode, decode}
use bancho_prism_1_0_0_prod.Utf8.Replace.{decode_replace, decode_replace-decode}
use bancho_prism_1_0_0_prod.Utf8.RoundTrip.{IsText, decode-encode}
use bancho_prism_1_0_0_prod.Packets.Writer.{
  uleb128_digits, write_uleb128, write_string, pack, pack_signed,
}
use bancho_prism_1_0_0_prod.Packets.Reads.{pack_form}
use bancho_prism_1_0_0_prod.Packets.Strings.{
  regroup, digits-suc, digits-zero, write_uleb128_pos, string_form,
}
use bancho_prism_1_0_0_prod.Packets.Bytes.{
  to_bytes_form, le_bytes, from_bytes, from_bytes_signed, to_bytes_signed, pos_form,
  length-le_bytes, from_bytes-le_bytes, from_bytes_signed-to_bytes_signed, length-to_bytes_signed,
}
use bancho_prism_1_0_0_prod.Replay.Reader.{
  ◌>>=◌, read_byte, read_bytes, unpack, read_int16, read_int32, read_int64, uleb128_loop,
  read_uleb128, read_string,
}
use bancho_prism_1_0_0_prod.Replay.Reads.{
  ReadsAt, ReadsAt-bind, ReadsAt-pure, ReadsAt-map, read_byte-ReadsAt, read_bytes-ReadsAt,
  unpack-ReadsAt, FieldAt,
}

-- 128 ^ k
abbrev pow128 : ℕ → ℕ
pow128 zero = 1
pow128 (suc k) = 128 * pow128 k

-- Where digits are left, so is room for them.
room_left :
    (left n shift : ℕ)
    → (n / 128 == 0) ≡ false
    → n < pow128 (suc left)
    → shift + 7 * suc left ≡ 70
    → ltb 63 (shift + 7) ≡ false
room_left zero n shift large l room = absurd (ground (arith, large, l))
room_left (suc left) n shift large l room = ground (arith, room)

-- The digits of a number below 128 ^ left are read while that many bytes are allowed.
digits-ReadsAt :
    (left f n acc shift : ℕ)
    → 0 < n
    → n ≤ f
    → n < pow128 left
    → shift + 7 * left ≡ 70
    → ReadsAt (uleb128_loop left acc shift) (uleb128_digits f n) (acc + n * 2 ^ shift)
unfolding uleb128_loop
digits-ReadsAt zero f n acc shift h k l room = absurd (omega arith)
digits-ReadsAt (suc left) zero n acc shift h k l room = absurd (omega arith)
digits-ReadsAt (suc left) (suc f) n acc shift h k l room = elim (Bool-cases (n / 128 == 0)) [
  | inl small ↦
      let top : ((n % 128 + 0) / 128 % 2 == 0) ≡ true = ground arith in
      let whole : (n % 128 + 0) % 128 ≡ n = ground (arith, small) in
      rw (digits-suc f n h, small, digits-zero f (n / 128) (ground (arith, small)))
        (ReadsAt-bind read_byte _ ((n % 128 + 0) ∷ []) [] (n % 128 + 0) (acc + n * 2 ^ shift)
          (read_byte-ReadsAt _) (rw (top, whole) (ReadsAt-pure _)))
  | inr large ↦
      let top : ((n % 128 + 128) / 128 % 2 == 0) ≡ false = ground arith in
      rw (digits-suc f n h, large)
        (ReadsAt-bind read_byte _ ((n % 128 + 128) ∷ []) (uleb128_digits f (n / 128))
          (n % 128 + 128) (acc + n * 2 ^ shift) (read_byte-ReadsAt _)
          (rw (top, room_left left n shift large l room, ← regroup acc n shift)
            (digits-ReadsAt left f (n / 128) (acc + (n % 128 + 128) % 128 * 2 ^ shift) (shift + 7)
              (ground (arith, large)) (omega arith) (omega arith) (omega arith))))
]

write_uleb128-ReadsAt : (n : ℕ) → n < pow128 10 → ReadsAt read_uleb128 (write_uleb128 n) n
unfolding read_uleb128
write_uleb128-ReadsAt zero h = record {
  reads = λ front rest.
      unfold write_uleb128 uleb128_loop in rw ((read_byte-ReadsAt 0).reads front rest, ◌>>=◌) refl;
}
write_uleb128-ReadsAt (suc k) h = rw (write_uleb128_pos (suc k) (omega arith)) (
    let whole : 0 + suc k * 2 ^ 0 ≡ suc k = omega arith in
    rw whole at (digits-ReadsAt 10 (suc k) (suc k) 0 0 (omega arith) (omega arith) h refl))

length-encode_char : (c : ℕ) → length (encode_char c) ≤ 4
unfolding encode_char
length-encode_char c = ground arith

-- A character is at most four bytes.
length-encode : (s : Text) (bs : Bytes) → encode s ≡ ok bs → length bs ≤ 4 * length s
unfolding encode
length-encode [] bs e = let same : [] ≡ bs = cc in rw (← same) (omega arith)
length-encode (c ∷ s) bs e = elim (Bool-cases (is_surrogate c)) [
  | inl bad ↦ absurd (ground (arith, e, bad))
  | inr good ↦
      let (rest, q, r) = >>=-eq-ok (encode s) (λ bs. ok (encode_char c ++ bs)) (rw good at e) in
      rw (← ok-injective r) (
        omega
          (arith, length-append (encode_char c) rest, length-encode_char c, length-encode s rest q))
]

marked :
    (s : Text) (encoded : Bytes)
    → decode encoded ≡ ok s
    → length encoded < pow128 10
    → ReadsAt read_string (0x0b ∷ write_uleb128 (length encoded) ++ encoded) s
unfolding read_string
marked s encoded e h =
    ReadsAt-bind read_byte _ (0x0b ∷ []) (write_uleb128 (length encoded) ++ encoded) 0x0b s
      (read_byte-ReadsAt 0x0b)
      (ReadsAt-bind read_uleb128 _ (write_uleb128 (length encoded)) encoded (length encoded) s
        (write_uleb128-ReadsAt (length encoded) h)
        (rw (← decode_replace-decode encoded s e) (
          ReadsAt-map (read_bytes (length encoded)) decode_replace encoded encoded
            (read_bytes-ReadsAt encoded))))

-- A text of fewer than 2 ^ 64 characters is read back as it was.
pub write_string-FieldAt :
    (s : Text) → IsText s → length s < 2 ^ 64 → FieldAt read_string (write_string s) s
write_string-FieldAt [] h l = record {
  field = λ bs e.
      unfold write_string in
      (let same : (0 ∷ []) ≡ bs = cc in
        rw (← same) (record {
          reads = λ front rest.
              unfold read_string in rw ((read_byte-ReadsAt 0).reads front rest, ◌>>=◌) refl;
        }));
}
write_string-FieldAt (c ∷ s) h l = record {
  field = λ bs e.
      let (encoded, q, p) = string_form c s bs e in
      rw (← p) (
        marked (c ∷ s) encoded (decode-encode (c ∷ s) encoded h q)
          (omega (arith, length-encode (c ∷ s) encoded q)));
}

pub signed_form :
    (k : ℕ) (z : ℤ) (bs : Bytes) → pack_signed k z ≡ ok bs → to_bytes_signed k z ≡ ok bs
unfolding pack_signed
signed_form k z bs e = elim (Result-cases (to_bytes_signed k z)) [
  | inl (written, q) ↦ q ∙ (rw (q, pack_signed) at e)
  | inr (x, q) ↦ absurd (ground (arith, e, q))
]

-- A number that `struct.pack` takes as signed reads back unsigned.
packed :
    (k n : ℕ) (bs : Bytes) → pack_signed k (pos n) ≡ ok bs → (from_bytes bs ≡ n) × (length bs ≡ k)
packed k n bs e =
    let (h, p) = pos_form k n bs (signed_form k (pos n) bs e) in
    rw (← p) (from_bytes-le_bytes k n (omega arith), length-le_bytes k n)

pub read_int16-FieldAt : (n : ℕ) → FieldAt read_int16 (pack_signed 2 (pos n)) n
unfolding read_int16
read_int16-FieldAt n = record {
  field = λ bs e.
      let (v, l) = packed 2 n bs e in
      rw (← v, ← l) (ReadsAt-map (unpack (length bs)) from_bytes bs bs (unpack-ReadsAt bs));
}

pub read_int32-FieldAt : (n : ℕ) → FieldAt read_int32 (pack_signed 4 (pos n)) n
unfolding read_int32
read_int32-FieldAt n = record {
  field = λ bs e.
      let (v, l) = packed 4 n bs e in
      rw (← v, ← l) (ReadsAt-map (unpack (length bs)) from_bytes bs bs (unpack-ReadsAt bs));
}

pub read_int64-FieldAt : (z : ℤ) → FieldAt read_int64 (pack_signed 8 z) z
unfolding read_int64
read_int64-FieldAt z = record {
  field = λ bs e.
      let written = signed_form 8 z bs e in
      let l = length-to_bytes_signed 8 z bs written in
      let v = from_bytes_signed-to_bytes_signed 7 z bs written in
      rw (← v, ← l) (ReadsAt-map (unpack (length bs)) from_bytes_signed bs bs (unpack-ReadsAt bs));
}

byte_form : (n : ℕ) (bs : Bytes) → (n < 256) × (le_bytes 1 n ≡ bs) → n ∷ [] ≡ bs
unfolding le_bytes
byte_form n bs (h, p) = let low : n % 256 ≡ n = omega arith in rw low at p

pub read_byte-FieldAt : (n : ℕ) → FieldAt read_byte (pack 1 n) n
read_byte-FieldAt n = record {
  field = λ bs e.
      rw (← byte_form n bs (to_bytes_form 1 n bs (pack_form 1 n bs e))) (read_byte-ReadsAt n);
}
