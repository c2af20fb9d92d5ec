-- ===== src/Tests/Replays.antt =====
-- Runs of the .osr decoder.
use bancho_prism_1_0_0_prod.Base.{
  ℕ, ◌≡◌, refl, arith, [], ◌∷◌, ◌++◌, Option, none, some, length, inl, ok, err, replay_parse_error,
}
use bancho_prism_1_0_0_prod.Base.Int.{pos}
use bancho_prism_1_0_0_prod.Utf8.{Bytes, Text, encode, encode_char}
use bancho_prism_1_0_0_prod.GameMode.{game_mode, as_vanilla}
use bancho_prism_1_0_0_prod.Packets.Bytes.{le_bytes, to_bytes, to_bytes_signed}
use bancho_prism_1_0_0_prod.Packets.Writer.{
  write_all, write_string, write_uleb128, uleb128_digits, pack, pack_signed,
}
use bancho_prism_1_0_0_prod.Replay.Reader.{require, read_byte, read_int32, unpack}
use bancho_prism_1_0_0_prod.Replay.Frames.{Decoded, decode_frames, decode_replay_frames}
use bancho_prism_1_0_0_prod.Replay.Parse.{read_replay, parse_osr}
use bancho_prism_1_0_0_prod.Replay.Decimal.{decimal, decimal_before}
use bancho_prism_1_0_0_prod.Replay.Build.{
  ReplayHeader, can_view_player, build_full_replay, checksum_text, replay_data,
}
use bancho_prism_1_0_0_prod.Replay.Tokens.{joined, All, decode_frames-append, decode_frames-All}
use bancho_prism_1_0_0_prod.Replay.Errors.{parse_osr-raises}
use bancho_prism_1_0_0_prod.Replay.RoundTrip.{replay_of, parse_osr-build_full_replay}
use bancho_prism_1_0_0_prod.Tests.Samples.{written}

abbrev float : Text → Option ℕ
float [] = none
float (c ∷ s) = some (length (c ∷ s))

-- "16|1|2|1"
abbrev sample_stream : Bytes
sample_stream = 49 ∷ 54 ∷ 124 ∷ 49 ∷ 124 ∷ 50 ∷ 124 ∷ 49 ∷ []

-- "-12345|0|0|7"
abbrev seed_stream : Bytes
seed_stream = 45 ∷ 49 ∷ 50 ∷ 51 ∷ 52 ∷ 53 ∷ 124 ∷ 48 ∷ 124 ∷ 48 ∷ 124 ∷ 55 ∷ []

abbrev decompress : Bytes → Option Bytes
decompress bs = some (sample_stream ++ 44 ∷ seed_stream)

decode_frames-append_example :
    decode_frames float (sample_stream ++ 44 ∷ seed_stream)
    ≡ joined (decode_frames float sample_stream) (decode_frames float seed_stream)
decode_frames-append_example = decode_frames-append float sample_stream seed_stream

decode_frames-All_example : All (decode_frames float sample_stream).0
decode_frames-All_example = decode_frames-All float sample_stream

two_bytes_raise : parse_osr float decompress (0 ∷ 1 ∷ []) ≡ err replay_parse_error
unfolding parse_osr read_replay read_byte require read_int32 unpack
two_bytes_raise = refl

parse_osr-raises_example : replay_parse_error ≡ replay_parse_error
parse_osr-raises_example =
    parse_osr-raises float decompress (0 ∷ 1 ∷ []) (pos 0) replay_parse_error (inl two_bytes_raise)

abbrev row : ReplayHeader
row = record {
  user_id = 4;
  user_priv = 3;
  username = 65 ∷ 233 ∷ [];
  map_md5 = 48 ∷ 49 ∷ [];
  mode = 4;
  n300 = 300;
  n100 = 2;
  n50 = 1;
  ngeki = 0;
  nkatu = 0;
  nmiss = 5;
  score = 70000;
  max_combo = 290;
  perfect = 0;
  mods = 128;
  ticks = pos 17000000000000000;
}

abbrev md5 : Bytes → Text
md5 bs = 97 ∷ []

abbrev frames_file : Bytes
frames_file = 93 ∷ 0 ∷ []

abbrev decoded : Decoded
decoded = decode_frames float (sample_stream ++ 44 ∷ seed_stream)

abbrev full_replay : Bytes
full_replay = written (replay_data md5 row frames_file 9)

file_decodes : decode_replay_frames float decompress frames_file ≡ ok decoded
unfolding decode_replay_frames
file_decodes = refl

replay_made : build_full_replay md5 (some frames_file) (some row) none 9 ≡ ok (some full_replay)
unfolding build_full_replay replay_data can_view_player checksum_text decimal decimal_before
    game_mode as_vanilla write_all pack le_bytes write_string encode encode_char write_uleb128
    uleb128_digits pack_signed to_bytes to_bytes_signed
replay_made = refl

parse_osr-build_full_replay_example :
    (checked : Bytes) × (encode (checksum_text row) ≡ ok checked)
    × (parse_osr float decompress full_replay
        ≡ ok (replay_of float decompress row (md5 checked) decoded 9))
parse_osr-build_full_replay_example =
    parse_osr-build_full_replay float decompress md5 row none frames_file decoded 9 full_replay
      ((omega arith, (omega arith, tt)), omega arith)
      ((omega arith, (omega arith, tt)), omega arith) (λ checked. ((omega arith, tt), omega arith))
      file_decodes replay_made
