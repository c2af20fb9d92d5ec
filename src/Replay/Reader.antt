-- ===== src/Replay/Reader.antt =====
-- _Reader of app/adapters/osr_replay.py: each method takes `_data` and `_pos`, and returns its value
-- and the position then. An index past the end raises IndexError, an unpack past it struct.error.
use bancho_prism_1_0_0_prod.Base.{
  ℕ, zero, suc, ◌+◌, ◌-◌, ◌*◌, ◌/◌, ◌%◌, ◌^◌, [], not, none, some, ltb, ◌==◌, if◌then◌else◌, length,
  take, drop, get_elem?, Error, Result, ok, err, index_error, struct_error, replay_parse_error,
}
use bancho_prism_1_0_0_prod.Base.Int.{ℤ}
use bancho_prism_1_0_0_prod.Utf8.{Bytes, Text}
use bancho_prism_1_0_0_prod.Utf8.Replace.{decode_replace}
use bancho_prism_1_0_0_prod.Packets.Bytes.{from_bytes, from_bytes_signed}

abbrev pub Reader {ℓ} : Type ℓ → Type ℓ
Reader A = (bytes : Bytes) (position : ℕ) → Result (A × ℕ)

infixl 5 ◌>>=◌
abbrev pub ◌>>=◌ {ℓ κ} : {A : Type ℓ} {B : Type κ} → Reader A → (A → Reader B) → Reader B
◌>>=◌ m f bs i = elim (m bs i) [ ok (a, j) ↦ f a bs j | err e ↦ err e ]

abbrev pub pure {ℓ} : {A : Type ℓ} → A → Reader A
pure a bs i = ok (a, i)

abbrev pub raise {ℓ} : {A : Type ℓ} → Error → Reader A
raise e bs i = err e

unfoldable pub require : ℕ → Reader (Unit {0})
require n bs i = if ltb (length bs) (i + n) then err replay_parse_error else ok (tt, i)

-- self._data[self._pos], one past
abbrev pub next_byte : Reader ℕ
next_byte bs i = elim (get_elem? bs i) [ none ↦ err index_error | some b ↦ ok (b, i + 1) ]

unfoldable pub read_byte : Reader ℕ
unfolding require
read_byte = do u ← require 1; next_byte

-- self._data[self._pos : self._pos + n], and past it
abbrev pub next_bytes : ℕ → Reader Bytes
next_bytes n bs i = ok (take n (drop i bs), i + n)

unfoldable pub read_bytes : ℕ → Reader Bytes
unfolding require
read_bytes n = do u ← require n; next_bytes n

abbrev pub unpack_from : ℕ → Reader Bytes
unpack_from size = do
  val ← next_bytes size
  if length val == size then pure val else raise struct_error

unfoldable pub unpack : ℕ → Reader Bytes
unfolding require
unpack size = do u ← require size; unpack_from size

unfoldable pub read_int16 : Reader ℕ
unfolding unpack
read_int16 = do val ← unpack 2; pure (from_bytes val)

unfoldable pub read_int32 : Reader ℕ
unfolding unpack
read_int32 = do val ← unpack 4; pure (from_bytes val)

unfoldable pub read_int64 : Reader ℤ
unfolding unpack
read_int64 = do val ← unpack 8; pure (from_bytes_signed val)

-- The loop of `_read_uleb128`. What is added has its bits above those of `result`, so that `|=` is a
-- sum. `left` bytes are still allowed: the shift passes 63 with the tenth.
unfoldable pub uleb128_loop : (left result shift : ℕ) → Reader ℕ
unfolding read_byte
uleb128_loop zero result shift = raise replay_parse_error
uleb128_loop (suc left) result shift = do
  byte ← read_byte
  let total = result + byte % 128 * 2 ^ shift
  (if byte / 128 % 2 == 0
      then pure total
      else if ltb 63 (shift + 7)
      then raise replay_parse_error
      else uleb128_loop left total (shift + 7))

unfoldable pub read_uleb128 : Reader ℕ
unfolding uleb128_loop
read_uleb128 = uleb128_loop 10 0 0

unfoldable pub read_string : Reader Text
unfolding read_byte read_uleb128 read_bytes
read_string = do
  flag ← read_byte
  (if flag == 0x00
      then pure []
      else if not (flag == 0x0b)
      then raise replay_parse_error
      else (do n ← read_uleb128; raw ← read_bytes n; pure (decode_replace raw)))

-- `remaining`
unfoldable pub remaining : Bytes → ℕ → ℕ
remaining bs i = length bs - i
