-- ===== src/Packets/ScoreFrames.antt =====
-- Score frames of app/packets.py: the 29 bytes of SCOREFRAME_FMT, `read_scoreframe`, and the total
-- `decode_scoreframe`. The portions of a score_v2 frame are kept as bit patterns.
use bancho_prism_1_0_0_prod.Base.{
  ℕ, ◌==◌, [], ◌∷◌, Bool, not, Option, none, some, ltb, if◌then◌else◌, length, take, drop, Result,
  ok,
}
use bancho_prism_1_0_0_prod.Base.Int.{ℤ}
use bancho_prism_1_0_0_prod.Utf8.{Bytes}
use bancho_prism_1_0_0_prod.Packets.Bytes.{from_bytes, from_bytes_signed}
use bancho_prism_1_0_0_prod.Packets.Reader.{Reader, pure, ◌>>=◌, read_exact, read_f64}
use bancho_prism_1_0_0_prod.Packets.Writer.{write_all, pack, pack_signed, pack_bool}

pub record ScoreFrame : Type 0 where
  pub time : ℤ
  pub id : ℕ
  pub num300 : ℕ
  pub num100 : ℕ
  pub num50 : ℕ
  pub num_geki : ℕ
  pub num_katu : ℕ
  pub num_miss : ℕ
  pub total_score : ℤ
  pub max_combo : ℕ
  pub current_combo : ℕ
  pub perfect : Bool
  pub current_hp : ℕ
  pub tag_byte : ℕ
  pub score_v2 : Bool
  pub combo_portion : Option ℕ
  pub bonus_portion : Option ℕ

abbrev pub scoreframe_size : ℕ
scoreframe_size = 29

-- `k` bytes from offset `i`.
abbrev pub slice_at : (i k : ℕ) → Bytes → Bytes
slice_at i k bs = take k (drop i bs)

-- SCOREFRAME_FMT.unpack_from of a buffer that is long enough: "<iBHHHHHHiHH?BB?".
unfoldable pub unpack_frame : Bytes → ScoreFrame
unpack_frame bs = record {
  time = from_bytes_signed (slice_at 0 4 bs);
  id = from_bytes (slice_at 4 1 bs);
  num300 = from_bytes (slice_at 5 2 bs);
  num100 = from_bytes (slice_at 7 2 bs);
  num50 = from_bytes (slice_at 9 2 bs);
  num_geki = from_bytes (slice_at 11 2 bs);
  num_katu = from_bytes (slice_at 13 2 bs);
  num_miss = from_bytes (slice_at 15 2 bs);
  total_score = from_bytes_signed (slice_at 17 4 bs);
  max_combo = from_bytes (slice_at 21 2 bs);
  current_combo = from_bytes (slice_at 23 2 bs);
  perfect = not (from_bytes (slice_at 25 1 bs) == 0);
  current_hp = from_bytes (slice_at 26 1 bs);
  tag_byte = from_bytes (slice_at 27 1 bs);
  score_v2 = not (from_bytes (slice_at 28 1 bs) == 0);
  combo_portion = none;
  bonus_portion = none;
}

abbrev pub with_portions : ScoreFrame → (combo bonus : ℕ) → ScoreFrame
with_portions sf combo bonus = record sf { combo_portion = some combo; bonus_portion = some bonus }

-- unpack_from needs the whole format; the buffer goes on after 29 bytes.
unfoldable pub read_scoreframe : Reader ScoreFrame
read_scoreframe = do
  raw ← read_exact scoreframe_size
  let sf = unpack_frame raw
  if sf.score_v2
      then (do combo ← read_f64; bonus ← read_f64; pure (with_portions sf combo bonus))
      else pure sf

unfoldable pub decode_scoreframe : Bytes → Option ScoreFrame
decode_scoreframe raw =
    if ltb (length raw) scoreframe_size
    then none
    else (let sf = unpack_frame raw in
        let rest = drop scoreframe_size raw in
        if sf.score_v2
        then (if ltb (length rest) 16
            then none
            else some (
                with_portions sf (from_bytes (slice_at 0 8 rest)) (from_bytes (slice_at 8 8 rest))))
        else some sf)

unfoldable pub write_scoreframe : ScoreFrame → Result Bytes
write_scoreframe s = write_all (
    pack_signed 4 s.time
    ∷ pack 1 s.id
    ∷ pack 2 s.num300
    ∷ pack 2 s.num100
    ∷ pack 2 s.num50
    ∷ pack 2 s.num_geki
    ∷ pack 2 s.num_katu
    ∷ pack 2 s.num_miss
    ∷ pack_signed 4 s.total_score
    ∷ pack 2 s.max_combo
    ∷ pack 2 s.current_combo
    ∷ ok (pack_bool s.perfect)
    ∷ pack 1 s.current_hp
    ∷ pack 1 s.tag_byte
    ∷ ok (pack_bool s.score_v2)
    ∷ [])
