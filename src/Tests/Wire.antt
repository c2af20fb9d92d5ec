-- ===== src/Tests/Wire.antt =====
-- Runs of the packet format.
use bancho_prism_1_0_0_prod.Base.{
  ℕ, zero, suc, ◌≡◌, ◌≤◌, refl, [], ◌∷◌, ◌++◌, map, Bool, true, not, some, arith, ◌==◌, length,
  replicate, ok, err, value_error,
}
use bancho_prism_1_0_0_prod.Base.Int.{pos, negsuc}
use bancho_prism_1_0_0_prod.Utf8.{Bytes, Text, encode, encode_char}
use bancho_prism_1_0_0_prod.Utf8.RoundTrip.{IsText}
use bancho_prism_1_0_0_prod.Match.{new_slot}
use bancho_prism_1_0_0_prod.Match.Validity.{has_player}
use bancho_prism_1_0_0_prod.Packets.Bytes.{to_bytes, to_bytes_signed, le_bytes}
use bancho_prism_1_0_0_prod.Packets.Writer.{
  write_all, write_string, write_uleb128, uleb128_digits, pack, pack_signed, write_message,
}
use bancho_prism_1_0_0_prod.Packets.Reader.{read_string}
use bancho_prism_1_0_0_prod.Packets.WriteMatch.{
  write_match, write_passwd, write_player, write_slot_mods,
}
use bancho_prism_1_0_0_prod.Packets.MatchData.{read_match}
use bancho_prism_1_0_0_prod.Packets.MatchFields.{wire, Fits, SlotFits}
use bancho_prism_1_0_0_prod.Match.Seats.{All}
use bancho_prism_1_0_0_prod.Packets.MatchTrip.{read_match-write_match}
use bancho_prism_1_0_0_prod.Packets.Strings.{read_string-write_string}
use bancho_prism_1_0_0_prod.Packets.Messages.{Message, read_message, read_message-write_message}
use bancho_prism_1_0_0_prod.Packets.Write.{write_arg, write, i32}
use bancho_prism_1_0_0_prod.Packets.Framing.{
  is_client_packet, next_packet, Found, next_from, next_from_ends,
}
use bancho_prism_1_0_0_prod.Packets.Packet.{
  next_packet-write, next_packet_skips, next_packet_raises,
}
use bancho_prism_1_0_0_prod.Packets.ScoreFrames.{decode_scoreframe, read_scoreframe}
use bancho_prism_1_0_0_prod.Packets.Frames.{value_of, decode_scoreframe-read_scoreframe}
use bancho_prism_1_0_0_prod.Packets.Writer.{write_i32_list}
use bancho_prism_1_0_0_prod.Packets.Reader.{read_i32_list_i16l}
use bancho_prism_1_0_0_prod.Packets.Lists.{read_i32_list_i16l-write_i32_list}
use bancho_prism_1_0_0_prod.Tests.Samples.{everyone, sample, written}

abbrev sent_sample : Bytes
sent_sample = written (write_match everyone sample true)

sample_sent : write_match everyone sample true ≡ ok sent_sample
unfolding write_match write_all pack le_bytes write_string encode encode_char write_uleb128
    uleb128_digits write_passwd write_player has_player write_slot_mods to_bytes to_bytes_signed
sample_sent = refl

free-fit : (n : ℕ) → All SlotFits (replicate n new_slot)
free-fit zero = tt
free-fit (suc n) = ((tt, omega arith), free-fit n)

sample-Fits : Fits sample
sample-Fits = record {
  id = omega arith;
  mods = omega arith;
  name = (omega arith, (omega arith, tt));
  passwd = (omega arith, tt);
  map_name = (omega arith, tt);
  map_md5 = (omega arith, tt);
  host_id = omega arith;
  mode = omega arith;
  slots = ((omega arith, omega arith), ((omega arith, omega arith), free-fit 14));
  seed = omega arith;
  sixteen = refl;
}

read_match-write_match_example : read_match (sent_sample ++ 1 ∷ []) ≡ ok (wire sample true, 1 ∷ [])
read_match-write_match_example =
    read_match-write_match everyone sample true sent_sample (1 ∷ []) sample-Fits sample_sent

-- A string with an accent in it.
abbrev accented : Text
accented = 233 ∷ 97 ∷ []

accented-IsText : IsText accented
accented-IsText = (omega arith, (omega arith, tt))

accented_sent : write_string accented ≡ ok (11 ∷ 3 ∷ 195 ∷ 169 ∷ 97 ∷ [])
unfolding write_string encode encode_char write_uleb128 uleb128_digits
accented_sent = refl

read_string-write_string_example :
    read_string (11 ∷ 3 ∷ 195 ∷ 169 ∷ 97 ∷ 5 ∷ []) ≡ ok (accented, 5 ∷ [])
read_string-write_string_example =
    read_string-write_string accented (11 ∷ 3 ∷ 195 ∷ 169 ∷ 97 ∷ []) (5 ∷ []) accented-IsText
      accented_sent

abbrev greeting : Message
greeting = record { sender = []; text = accented; recipient = []; sender_id = negsuc 0 }

abbrev greeting_bytes : Bytes
greeting_bytes = 0 ∷ 11 ∷ 3 ∷ 195 ∷ 169 ∷ 97 ∷ 0 ∷ 255 ∷ 255 ∷ 255 ∷ 255 ∷ []

greeting_sent : write_message [] accented [] (negsuc 0) ≡ ok greeting_bytes
unfolding write_message write_all write_string encode encode_char write_uleb128 uleb128_digits
    to_bytes_signed le_bytes
greeting_sent = refl

read_message-write_message_example : read_message (greeting_bytes ++ 1 ∷ []) ≡ ok (greeting, 1 ∷ [])
read_message-write_message_example =
    read_message-write_message greeting greeting_bytes (1 ∷ []) tt accented-IsText tt greeting_sent

-- A packet of type 3 with a number in it.
abbrev refresh : Bytes
refresh = 3 ∷ 0 ∷ 0 ∷ 4 ∷ 0 ∷ 0 ∷ 0 ∷ 9 ∷ 0 ∷ 0 ∷ 0 ∷ []

refresh_sent : write everyone 3 (i32 (pos 9) ∷ []) ≡ ok refresh
unfolding write write_arg write_all pack pack_signed le_bytes to_bytes_signed
refresh_sent = refl

abbrev all_but_three : ℕ → Bool
all_but_three id = not (id == 3)

next_packet-write_example :
    (body : Bytes) × (write_all (map (write_arg everyone) (i32 (pos 9) ∷ [])) ≡ ok body)
    × (next_packet everyone (refresh ++ 1 ∷ []) ≡ some (ok (some (3, length body, body ++ 1 ∷ []))))
unfolding is_client_packet
next_packet-write_example =
    next_packet-write everyone everyone 3 (i32 (pos 9) ∷ []) refresh (1 ∷ []) refl refl refresh_sent

next_packet_skips_example : next_packet all_but_three (refresh ++ []) ≡ next_packet all_but_three []
unfolding is_client_packet
next_packet_skips_example =
    next_packet_skips everyone all_but_three 3 (i32 (pos 9) ∷ []) refresh [] refl refl refresh_sent

abbrev stranger : Bytes
stranger = 200 ∷ 0 ∷ 0 ∷ 0 ∷ 0 ∷ 0 ∷ 0 ∷ []

stranger_sent : write everyone 200 [] ≡ ok stranger
unfolding write write_arg write_all pack le_bytes
stranger_sent = refl

next_packet_raises_example : next_packet everyone (stranger ++ refresh) ≡ some (err value_error)
unfolding is_client_packet
next_packet_raises_example =
    next_packet_raises everyone everyone 200 [] stranger refresh refl stranger_sent

next_from_ends_example :
    (found : Found) × ((f : ℕ)
      → length refresh ≤ f
      → next_from f all_but_three refresh ≡ some found)
next_from_ends_example = next_from_ends all_but_three refresh

decode_scoreframe-read_scoreframe_example :
    decode_scoreframe (replicate 40 1) ≡ value_of (read_scoreframe (replicate 40 1))
decode_scoreframe-read_scoreframe_example = decode_scoreframe-read_scoreframe (replicate 40 1)

abbrev ids_bytes : Bytes
ids_bytes = 2 ∷ 0 ∷ 9 ∷ 0 ∷ 0 ∷ 0 ∷ 255 ∷ 255 ∷ 255 ∷ 255 ∷ []

ids_sent : write_i32_list (pos 9 ∷ negsuc 0 ∷ []) ≡ ok ids_bytes
unfolding write_i32_list write_all to_bytes to_bytes_signed le_bytes
ids_sent = refl

read_i32_list_i16l-write_i32_list_example :
    read_i32_list_i16l (ids_bytes ++ 7 ∷ []) ≡ ok (9 ∷ 4294967295 ∷ [], 7 ∷ [])
read_i32_list_i16l-write_i32_list_example =
    read_i32_list_i16l-write_i32_list (pos 9 ∷ negsuc 0 ∷ []) ids_bytes (7 ∷ []) ids_sent
