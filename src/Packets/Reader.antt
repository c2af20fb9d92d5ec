-- ===== src/Packets/Reader.antt =====
-- BanchoPacketReader of app/packets.py: each method takes what is left of `body_view`, and returns
-- its value and what is left then. A slice past the end is shorter, as in Python; an index past the
-- end raises. A float is kept as its bit pattern.
use bancho_prism_1_0_0_prod.Base.{
  ℕ, zero, suc, ◌+◌, ◌-◌, ◌*◌, ◌/◌, ◌%◌, ◌^◌, List, [], ◌∷◌, ltb, ◌==◌, if◌then◌else◌, length, take,
  drop, Error, Result, ok, err, index_error, struct_error,
}
use bancho_prism_1_0_0_prod.Base.Int.{ℤ, pos, negsuc}
use bancho_prism_1_0_0_prod.Utf8.{Bytes, Text, decode}
use bancho_prism_1_0_0_prod.Packets.Bytes.{from_bytes, from_bytes_signed}

abbrev pub Reader {ℓ} : Type ℓ → Type ℓ
Reader A = Bytes → Result (A × Bytes)

infixl 5 ◌>>=◌
abbrev pub ◌>>=◌ {ℓ κ} : {A : Type ℓ} {B : Type κ} → Reader A → (A → Reader B) → Reader B
◌>>=◌ m f bs = elim (m bs) [ ok (a, rest) ↦ f a rest | err e ↦ err e ]

abbrev pub pure {ℓ} : {A : Type ℓ} → A → Reader A
pure a bs = ok (a, bs)

abbrev pub raise {ℓ} : {A : Type ℓ} → Error → Reader A
raise e bs = err e

-- A result with no part in the buffer, as of `bytes.decode`.
abbrev pub lift {ℓ} : {A : Type ℓ} → Result A → Reader A
lift (ok a) bs = ok (a, bs)
lift (err e) bs = err e

-- self.body_view[:n], and the buffer after it
unfoldable pub read_slice : ℕ → Reader Bytes
read_slice n bs = ok (take n bs, drop n bs)

-- `current_len` of the packet in hand is an argument.
unfoldable pub read_raw : ℕ → Reader Bytes
unfolding read_slice
read_raw current_len = read_slice current_len

unfoldable pub read_u8 : Reader ℕ
read_u8 [] = err index_error
read_u8 (b ∷ bs) = ok (b, bs)

unfoldable pub read_i8 : Reader ℤ
unfolding read_u8
read_i8 = do val ← read_u8; pure (if ltb 127 val then negsuc (255 - val) else pos val)

abbrev read_unsigned : ℕ → Reader ℕ
read_unsigned k = do val ← read_slice k; pure (from_bytes val)

abbrev read_signed : ℕ → Reader ℤ
read_signed k = do val ← read_slice k; pure (from_bytes_signed val)

unfoldable pub read_i16 : Reader ℤ
unfolding read_slice
read_i16 = read_signed 2

unfoldable pub read_u16 : Reader ℕ
unfolding read_slice
read_u16 = read_unsigned 2

unfoldable pub read_i32 : Reader ℤ
unfolding read_slice
read_i32 = read_signed 4

unfoldable pub read_u32 : Reader ℕ
unfolding read_slice
read_u32 = read_unsigned 4

unfoldable pub read_i64 : Reader ℤ
unfolding read_slice
read_i64 = read_signed 8

unfoldable pub read_u64 : Reader ℕ
unfolding read_slice
read_u64 = read_unsigned 8

-- struct.unpack of an exact length
unfoldable pub read_exact : ℕ → Reader Bytes
unfolding read_slice
read_exact k = do val ← read_slice k; if length val == k then pure val else raise struct_error

unfoldable pub read_f16 : Reader ℕ
unfolding read_exact
read_f16 = do val ← read_exact 2; pure (from_bytes val)

unfoldable pub read_f32 : Reader ℕ
unfolding read_exact
read_f32 = do val ← read_exact 4; pure (from_bytes val)

unfoldable pub read_f64 : Reader ℕ
read_f64 = do val ← read_exact 8; pure (from_bytes val)

-- The numbers of a "<I...I" format, four bytes each.
unfoldable pub unpack_u32s : ℕ → Bytes → List ℕ
unpack_u32s zero bs = []
unpack_u32s (suc n) bs = from_bytes (take 4 bs) ∷ unpack_u32s n (drop 4 bs)

abbrev read_u32s : ℕ → Reader (List ℕ)
read_u32s n = do val ← read_exact (n * 4); pure (unpack_u32s n val)

unfoldable pub read_i32_list_i16l : Reader (List ℕ)
unfolding read_exact read_u16
read_i32_list_i16l = do n ← read_u16; read_u32s n

unfoldable pub read_i32_list_i32l : Reader (List ℕ)
unfolding read_exact read_u32
read_i32_list_i32l = do n ← read_u32; read_u32s n

-- The loop of `read_string` over the bytes of a length. What is added has its bits above those of
-- `length`, so that `|=` is a sum.
unfoldable pub read_uleb128 : (length shift : ℕ) → Reader ℕ
read_uleb128 length shift [] = err index_error
read_uleb128 length shift (byte ∷ bs) =
    let total = length + byte % 128 * 2 ^ shift in
    let rest = read_uleb128 total (shift + 7) bs in
    if byte / 128 % 2 == 0 then ok (total, bs) else rest

unfoldable pub read_string : Reader Text
unfolding read_u8 read_slice
read_string = do
  mark ← read_u8
  if mark == 0x0b then (do n ← read_uleb128 0 0; val ← read_slice n; lift (decode val)) else pure []
