-- ===== src/Packets/Strings.antt =====
-- Strings and what is made of them: what app/packets.py writes, its reader reads back.
use bancho_prism_1_0_0_prod.Base.{
  ℕ, zero, suc, ◌+◌, ◌*◌, ◌/◌, ◌%◌, ◌^◌, ◌<◌, ◌≤◌, ◌≡◌, ◌∙◌, refl, ap, [], ◌∷◌, ◌++◌, arith, ◌==◌,
  if◌then◌else◌, length, take-length_append, drop-length_append, ok, Result-cases, Bool-cases, inl,
  inr,
}
use native.Mathlib.Numerals.{towards_suc}
use bancho_prism_1_0_0_prod.Utf8.{Bytes, Text, encode, decode}
use bancho_prism_1_0_0_prod.Utf8.RoundTrip.{IsText, decode-encode}
use bancho_prism_1_0_0_prod.Packets.Reader.{lift, ◌>>=◌, read_uleb128, read_string, read_slice}
use bancho_prism_1_0_0_prod.Packets.Writer.{uleb128_digits, write_uleb128, write_string}
use bancho_prism_1_0_0_prod.Packets.Reads.{Reads, Reads-bind, Field}

pow_shift : (s : ℕ) → 2 ^ (s + 7) ≡ 128 * 2 ^ s
pow_shift s = simp towards_suc (omega arith)

pub regroup :
    (acc n s : ℕ) → acc + (n % 128 + 128) % 128 * 2 ^ s + n / 128 * 2 ^ (s + 7) ≡ acc + n * 2 ^ s
regroup acc n s =
    rw pow_shift
      (omega (arith, ap (λ (t : ℕ). t * 2 ^ s) (parts n), ap (λ (t : ℕ). t * 2 ^ s) (low n)))
  where
    parts : (k : ℕ) → k ≡ 128 * (k / 128) + k % 128
    parts k = omega arith

    low : (k : ℕ) → (k % 128 + 128) % 128 ≡ k % 128
    low k = omega arith

pub digits-zero : (f n : ℕ) → n ≡ 0 → uleb128_digits f n ≡ []
unfolding uleb128_digits
digits-zero zero n e = refl
digits-zero (suc f) n e = ground (arith, e)

pub digits-suc :
    (f n : ℕ)
    → 0 < n
    → uleb128_digits (suc f) n
      ≡ (n % 128 + (if n / 128 == 0 then 0 else 128)) ∷ uleb128_digits f (n / 128)
unfolding uleb128_digits
digits-suc f n h = ground arith

read_last :
    (b acc shift : ℕ) (bs : Bytes)
    → b < 128
    → read_uleb128 acc shift (b ∷ bs) ≡ ok (acc + b % 128 * 2 ^ shift, bs)
unfolding read_uleb128
read_last b acc shift bs h = ground arith

read_more :
    (b acc shift : ℕ) (bs : Bytes)
    → 128 ≤ b
    → b < 256
    → read_uleb128 acc shift (b ∷ bs) ≡ read_uleb128 (acc + b % 128 * 2 ^ shift) (shift + 7) bs
unfolding read_uleb128
read_more b acc shift bs h k = ground arith

-- With fuel for its value, the digits of a number are read as that number, from any place on.
read-uleb128_digits :
    (f n acc shift : ℕ) (rest : Bytes)
    → 0 < n
    → n ≤ f
    → read_uleb128 acc shift (uleb128_digits f n ++ rest) ≡ ok (acc + n * 2 ^ shift, rest)
read-uleb128_digits zero n acc shift rest h k = absurd (omega arith)
read-uleb128_digits (suc f) n acc shift rest h k = elim (Bool-cases (n / 128 == 0)) [
  | inl small ↦
      rw (digits-suc f n h, small, digits-zero f (n / 128) (ground (arith, small)))
        (read_last (n % 128 + 0) acc shift rest (omega arith)
          ∙ ap (λ x. ok (acc + x * 2 ^ shift, rest)) (ground (arith, small)))
  | inr large ↦
      rw (digits-suc f n h, large)
        (read_more (n % 128 + 128) acc shift (uleb128_digits f (n / 128) ++ rest) (omega arith)
            (omega arith)
          ∙ read-uleb128_digits f (n / 128) (acc + (n % 128 + 128) % 128 * 2 ^ shift) (shift + 7)
              rest (ground (arith, large)) (omega arith)
          ∙ ap (λ x. ok (x, rest)) (regroup acc n shift))
]

pub write_uleb128_pos : (n : ℕ) → 0 < n → write_uleb128 n ≡ uleb128_digits n n
unfolding write_uleb128
write_uleb128_pos n h = ground arith

pub write_uleb128-Reads : (n : ℕ) → Reads (read_uleb128 0 0) (write_uleb128 n) n
write_uleb128-Reads zero = record {
  reads = λ rest. unfold write_uleb128 in read_last 0 0 0 rest (omega arith);
}
write_uleb128-Reads (suc k) = record {
  reads = λ rest. rw (write_uleb128_pos (suc k) (omega arith)) (
      read-uleb128_digits (suc k) (suc k) 0 0 rest (omega arith) (omega arith)
      ∙ ap (λ x. ok (x, rest)) (omega arith));
}

read_body :
    (s : Text) (encoded : Bytes)
    → decode encoded ≡ ok s
    → Reads (do val ← read_slice (length encoded); lift (decode val)) encoded s
unfolding read_slice
read_body s encoded e = record {
  reads = λ rest. rw (take-length_append encoded rest, drop-length_append encoded rest, e);
}

pub string_form :
    (c : ℕ) (s : Text) (bs : Bytes)
    → write_string (c ∷ s) ≡ ok bs
    → (encoded : Bytes) × (encode (c ∷ s) ≡ ok encoded)
      × (0x0b ∷ write_uleb128 (length encoded) ++ encoded ≡ bs)
unfolding write_string
string_form c s bs e = elim (Result-cases (encode (c ∷ s))) [
  | inl (encoded, q) ↦ (encoded, q, ground (arith, q))
  | inr (x, q) ↦ absurd (ground (arith, q))
]

marked :
    (c : ℕ) (s : Text) (encoded : Bytes)
    → decode encoded ≡ ok (c ∷ s)
    → Reads read_string (0x0b ∷ write_uleb128 (length encoded) ++ encoded) (c ∷ s)
unfolding read_string
marked c s encoded e =
    let after = λ (n : ℕ). (do val ← read_slice n; lift (decode val)) in
    record {
      reads = λ rest.
          (Reads-bind (read_uleb128 0 0) after (write_uleb128 (length encoded)) encoded
              (length encoded) (c ∷ s) (write_uleb128-Reads (length encoded))
              (read_body (c ∷ s) encoded e)).reads
            rest;
    }

pub write_string-Field : (s : Text) → IsText s → Field read_string (write_string s) s
write_string-Field [] h = record {
  field = λ bs e.
      unfold write_string read_string in
      (let same : (0 ∷ []) ≡ bs = cc in rw (← same) (record { reads = λ rest. refl }));
}
write_string-Field (c ∷ s) h = record {
  field = λ bs e.
      let (encoded, q, p) = string_form c s bs e in
      rw (← p) (marked c s encoded (decode-encode (c ∷ s) encoded h q));
}

-- A string that can be written is read back as it was, whatever follows it.
pub read_string-write_string :
    (s : Text) (bs rest : Bytes)
    → IsText s
    → write_string s ≡ ok bs
    → read_string (bs ++ rest) ≡ ok (s, rest)
read_string-write_string s bs rest h e = ((write_string-Field s h).field bs e).reads rest
