-- ===== src/Packets/Writer.antt =====
-- The write functions of app/packets.py, and `write`, which puts a packet together. An argument that
-- does not fit its field raises.
use bancho_prism_1_0_0_prod.Base.{
  ℕ, zero, suc, ◌+◌, ◌/◌, ◌%◌, List, [], ◌∷◌, ◌++◌, map, Bool, ltb, ◌==◌, if◌then◌else◌, length,
  Result, ok, err, struct_error, ◌>>=◌,
}
use bancho_prism_1_0_0_prod.Base.Int.{ℤ, pos, negsuc}
use bancho_prism_1_0_0_prod.Utf8.{Bytes, Text, encode}
use bancho_prism_1_0_0_prod.Packets.Bytes.{pow256, le_bytes, to_bytes, to_bytes_signed}

-- The loop of `write_uleb128`: `num | 0x80` is a sum, since `num & 0x7f` is below 0x80.
unfoldable pub uleb128_digits : (fuel num : ℕ) → Bytes
uleb128_digits zero num = []
uleb128_digits (suc fuel) num =
    let rest = uleb128_digits fuel (num / 128) in
    if num == 0 then [] else (num % 128 + (if num / 128 == 0 then 0 else 128)) ∷ rest

-- A number has no more digits than its value.
unfoldable pub write_uleb128 : ℕ → Bytes
unfolding uleb128_digits
write_uleb128 num = if num == 0 then 0 ∷ [] else uleb128_digits num num

unfoldable pub write_string : Text → Result Bytes
unfolding write_uleb128
write_string [] = ok (0 ∷ [])
write_string (c ∷ s) = do
  encoded ← encode (c ∷ s)
  ok (0x0b ∷ write_uleb128 (length encoded) ++ encoded)

-- `ret += a; ret += b; …`: the parts are written in order, and the first to raise ends it.
unfoldable pub write_all : List (Result Bytes) → Result Bytes
write_all [] = ok []
write_all (part ∷ parts) = do bs ← part; rest ← write_all parts; ok (bs ++ rest)

unfoldable pub write_i32_list : List ℤ → Result Bytes
write_i32_list l = write_all (to_bytes 2 (length l) ∷ map (to_bytes_signed 4) l)

unfoldable pub write_message : (sender msg recipient : Text) (sender_id : ℤ) → Result Bytes
write_message sender msg recipient sender_id = write_all (
    write_string sender
    ∷ write_string msg
    ∷ write_string recipient
    ∷ to_bytes_signed 4 sender_id
    ∷ [])

unfoldable pub write_channel : (name topic : Text) (count : ℕ) → Result Bytes
write_channel name topic count =
    write_all (write_string name ∷ write_string topic ∷ to_bytes 2 count ∷ [])

-- struct.pack of one number: out of range is a struct.error.
unfoldable pub pack : ℕ → ℕ → Result Bytes
unfolding to_bytes
pack k n = if ltb n (pow256 k) then ok (le_bytes k n) else err struct_error

-- The same of a number that may be negative, which is out of range.
abbrev pub pack_int : ℕ → ℤ → Result Bytes
pack_int k (pos n) = pack k n
pack_int k (negsuc n) = err struct_error

unfoldable pub pack_signed : ℕ → ℤ → Result Bytes
unfolding to_bytes_signed
pack_signed k z = elim (to_bytes_signed k z) [ ok bs ↦ ok bs | err e ↦ err struct_error ]

abbrev pub pack_bool : Bool → Bytes
pack_bool b = (if b then 1 else 0) ∷ []
