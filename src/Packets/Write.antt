-- ===== src/Packets/Write.antt =====
-- `write` of app/packets.py, which puts a packet together, and the header that BanchoPacketReader
-- reads from it.
use bancho_prism_1_0_0_prod.Base.{ℕ, List, ◌∷◌, ◌++◌, map, Bool, length, Result, ok, ◌>>=◌}
use bancho_prism_1_0_0_prod.Base.Int.{ℤ}
use bancho_prism_1_0_0_prod.Utf8.{Bytes, Text}
use bancho_prism_1_0_0_prod.Match.{Match}
use bancho_prism_1_0_0_prod.Packets.Writer.{
  write_all, pack, pack_int, pack_signed, write_string, write_i32_list, write_message,
  write_channel,
}
use bancho_prism_1_0_0_prod.Packets.ScoreFrames.{ScoreFrame, write_scoreframe}
use bancho_prism_1_0_0_prod.Packets.WriteMatch.{write_match}

-- An argument of `write`, tagged by its osuTypes member; a float stands for its bit pattern.
pub data PacketArg : Type 0 where
  raw : Bytes → PacketArg
  i8 i16 i32 i64 u8 : ℤ → PacketArg
  u16 u32 u64 f32 f64 : ℕ → PacketArg
  string : Text → PacketArg
  i32_list : List ℤ → PacketArg
  message : (sender msg recipient : Text) (sender_id : ℤ) → PacketArg
  channel : (name topic : Text) (count : ℕ) → PacketArg
  match : Match → (send_pw : Bool) → PacketArg
  scoreframe : ScoreFrame → PacketArg

unfoldable pub write_arg : (ℕ → Bool) → PacketArg → Result Bytes
write_arg online (raw bs) = ok bs
write_arg online (i8 z) = pack_signed 1 z
write_arg online (i16 z) = pack_signed 2 z
write_arg online (i32 z) = pack_signed 4 z
write_arg online (i64 z) = pack_signed 8 z
write_arg online (u8 z) = pack_int 1 z
write_arg online (u16 n) = pack 2 n
write_arg online (u32 n) = pack 4 n
write_arg online (u64 n) = pack 8 n
write_arg online (f32 n) = pack 4 n
write_arg online (f64 n) = pack 8 n
write_arg online (string s) = write_string s
write_arg online (i32_list l) = write_i32_list l
write_arg online (message sender msg recipient sender_id) =
    write_message sender msg recipient sender_id
write_arg online (channel name topic count) = write_channel name topic count
write_arg online (match m send_pw) = write_match online m send_pw
write_arg online (scoreframe s) = write_scoreframe s

-- `ret[3:3] = size` puts the size between the pad byte and the body.
unfoldable pub write : (ℕ → Bool) → ℕ → List PacketArg → Result Bytes
write online packid args = do
  id ← pack 2 packid
  body ← write_all (map (write_arg online) args)
  size ← pack 4 (length body)
  ok (id ++ 0 ∷ size ++ body)
