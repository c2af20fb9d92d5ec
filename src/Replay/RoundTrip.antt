-- ===== src/Replay/RoundTrip.antt =====
-- The full replay that app/services/replays.py builds, as app/adapters/osr_replay.py parses it.
use bancho_prism_1_0_0_prod.Base.{
  ℕ, ◌+◌, ◌-◌, ◌^◌, ◌<◌, ◌≡◌, refl, arith, [], ◌∷◌, ◌++◌, true, Option, none, some, leb, ap, ◌∙◌,
  Bool-cases, inl, inr, ◌==◌, length, length-append, append-nil, Result, ok, err, >>=-eq-ok,
}
use bancho_prism_1_0_0_prod.Base.Int.{ℤ, pos}
use bancho_prism_1_0_0_prod.Utf8.{Bytes, Text, encode}
use bancho_prism_1_0_0_prod.Utf8.RoundTrip.{IsText}
use bancho_prism_1_0_0_prod.GameMode.{game_mode, as_vanilla}
use bancho_prism_1_0_0_prod.Packets.Writer.{write_string, write_all, pack_signed}
use bancho_prism_1_0_0_prod.Packets.Bytes.{length-to_bytes_signed}
use bancho_prism_1_0_0_prod.Replay.Reader.{Reader, ◌>>=◌, read_string, remaining}
use bancho_prism_1_0_0_prod.Replay.Frames.{Decoded, decode_replay_frames}
use bancho_prism_1_0_0_prod.Replay.Parse.{Replay, lift, read_score_id, read_replay, parse_osr}
use bancho_prism_1_0_0_prod.Replay.Build.{
  Identity, ReplayHeader, checksum_text, datetime_offset, add, replay_parts, replay_data, is_hidden,
  build_full_replay,
}
use bancho_prism_1_0_0_prod.Replay.Reads.{
  ReadsAt, FieldAt, FieldAt-bind, FieldAt-ok, FieldAt-pure, read_bytes-ReadsAt,
}
use bancho_prism_1_0_0_prod.Replay.Strings.{
  signed_form, write_string-FieldAt, read_byte-FieldAt, read_int16-FieldAt, read_int32-FieldAt,
  read_int64-FieldAt,
}

-- A `str` of valid characters that fits in memory.
abbrev pub IsStored : Text → Type 0
IsStored s = IsText s × (length s < 2 ^ 64)

read_score_id-FieldAt : (z : ℤ) → FieldAt read_score_id (pack_signed 8 z) z
unfolding read_score_id remaining
read_score_id-FieldAt z = record {
  field = λ bs e. record {
    reads = λ front rest.
        let eight = length-to_bytes_signed 8 z bs (signed_form 8 z bs e) in
        let there : leb 8 (length (front ++ (bs ++ rest)) - length front) ≡ true =
          ground (arith, length-append front (bs ++ rest), length-append bs rest, eight) in
        rw there (((read_int64-FieldAt z).field bs e).reads front rest);
  };
}

no_graph : FieldAt read_string (ok (0 ∷ [])) []
no_graph = unfold write_string in write_string-FieldAt [] tt (omega arith)

member : (n mode : ℕ) → game_mode n ≡ ok mode → mode ≡ n
unfolding game_mode
member n mode e = ground arith

module _ (float : Text → Option ℕ) (decompress : Bytes → Option Bytes) where
  -- The replay that a row and its frames stand for.
  abbrev pub replay_of : ReplayHeader → (replay_md5 : Text) → Decoded → (score_id : ℕ) → Replay
  replay_of row replay_md5 decoded score_id = record {
    mode = pos (as_vanilla row.mode);
    version = 20200207;
    beatmap_md5 = row.map_md5;
    player_name = row.username;
    replay_md5 = replay_md5;
    n300 = row.n300;
    n100 = row.n100;
    n50 = row.n50;
    ngeki = row.ngeki;
    nkatu = row.nkatu;
    nmiss = row.nmiss;
    score = row.score;
    max_combo = row.max_combo;
    perfect = row.perfect == 1;
    mods = row.mods;
    life_bar_graph = [];
    timestamp = add datetime_offset row.ticks;
    frames = decoded.0;
    rng_seed = decoded.1;
    online_score_id = pos score_id;
  }

  lift-FieldAt :
      (r : Result Decoded) (f : Decoded → Reader Replay) (d : Decoded) (v : Replay)
      → r ≡ ok d
      → FieldAt (f d) (write_all []) v
      → FieldAt (lift r >>= f) (write_all []) v
  lift-FieldAt (ok x) f d v e h = let same : x ≡ d = cc in rw same h
  lift-FieldAt (err x) f d v e h = cc

  parts-FieldAt :
      (md5 : Bytes → Text) (row : ReplayHeader) (replay_md5 : Text) (raw : Bytes) (d : Decoded)
      (score_id : ℕ)
      → IsStored row.map_md5
      → IsStored row.username
      → IsStored replay_md5
      → decode_replay_frames float decompress raw ≡ ok d
      → FieldAt
          (read_replay float decompress)
          (write_all (replay_parts md5 (as_vanilla row.mode) replay_md5 row raw score_id))
          (replay_of row replay_md5 d score_id)
  unfolding read_replay
  parts-FieldAt md5 row replay_md5 raw d score_id map name digest frames =
      FieldAt-bind _ _ _ _ _ _ (read_byte-FieldAt (as_vanilla row.mode)) (
        FieldAt-bind _ _ _ _ _ _ (read_int32-FieldAt 20200207) (
          FieldAt-bind _ _ _ _ _ _ (write_string-FieldAt row.map_md5 map.0 map.1) (
            FieldAt-bind _ _ _ _ _ _ (write_string-FieldAt row.username name.0 name.1) (
              FieldAt-bind _ _ _ _ _ _ (write_string-FieldAt replay_md5 digest.0 digest.1) (
                FieldAt-bind _ _ _ _ _ _ (read_int16-FieldAt row.n300) (
                  FieldAt-bind _ _ _ _ _ _ (read_int16-FieldAt row.n100) (
                    FieldAt-bind _ _ _ _ _ _ (read_int16-FieldAt row.n50) (
                      FieldAt-bind _ _ _ _ _ _ (read_int16-FieldAt row.ngeki) (
                        FieldAt-bind _ _ _ _ _ _ (read_int16-FieldAt row.nkatu) (
                          FieldAt-bind _ _ _ _ _ _ (read_int16-FieldAt row.nmiss) (
                            FieldAt-bind _ _ _ _ _ _ (read_int32-FieldAt row.score) (
                              FieldAt-bind _ _ _ _ _ _ (read_int16-FieldAt row.max_combo) (
                                FieldAt-bind _ _ _ _ _ _ (read_byte-FieldAt row.perfect) (
                                  FieldAt-bind _ _ _ _ _ _ (read_int32-FieldAt row.mods) (
                                    FieldAt-bind _ _ _ _ _ _ no_graph (
                                      FieldAt-bind _ _ _ _ _ _
                                        (read_int64-FieldAt (add datetime_offset row.ticks))
                                        (FieldAt-bind _ _ _ _ _ _ (read_int32-FieldAt (length raw))
                                          (FieldAt-bind _ _ _ _ _ _
                                            (FieldAt-ok _ raw raw (read_bytes-ReadsAt raw))
                                            (FieldAt-bind _ _ _ _ _ _
                                              (read_score_id-FieldAt (pos score_id))
                                              (lift-FieldAt
                                                (decode_replay_frames float decompress raw) _ d _
                                                frames (FieldAt-pure _)))))))))))))))))))))

  parse_osr-ReadsAt :
      (bs : Bytes) (v : Replay)
      → ReadsAt (read_replay float decompress) bs v
      → parse_osr float decompress bs ≡ ok v
  unfolding parse_osr
  parse_osr-ReadsAt bs v h =
      let whole : read_replay float decompress bs 0 ≡ ok (v, 0 + length bs) =
        rw (append-nil bs) at (h.reads [] []) in
      rw (whole, parse_osr) refl

  parse_osr-replay_data :
      (md5 : Bytes → Text) (row : ReplayHeader) (raw : Bytes) (d : Decoded) (score_id : ℕ)
      (bs : Bytes)
      → IsStored row.map_md5
      → IsStored row.username
      → ((checked : Bytes) → IsStored (md5 checked))
      → decode_replay_frames float decompress raw ≡ ok d
      → replay_data md5 row raw score_id ≡ ok bs
      → (checked : Bytes) × (encode (checksum_text row) ≡ ok checked)
        × (parse_osr float decompress bs ≡ ok (replay_of row (md5 checked) d score_id))
  unfolding replay_data
  parse_osr-replay_data md5 row raw d score_id bs map name digest frames e =
      let (checked, p, next) = >>=-eq-ok (encode (checksum_text row)) _ e in
      let (mode, q, parts) = >>=-eq-ok (game_mode row.mode) _ next in
      let same : mode ≡ row.mode = member row.mode mode q in
      (
        checked,
        p,
        parse_osr-ReadsAt bs _ (
            (parts-FieldAt md5 row (md5 checked) raw d score_id map name (digest checked)
                frames).field
              bs (rw same at parts)),
      )

  -- Of a row with strings that Python can hold and an md5 that is one, and of a file of frames that
  -- decodes: the bytes that `build_full_replay` returns, `parse_osr` parses as the row's values in
  -- their fields, the md5 of the row's text as the replay's, the frames and the seed of the file, and
  -- the score id.
  pub parse_osr-build_full_replay :
      (md5 : Bytes → Text) (row : ReplayHeader) (viewer : Option Identity) (raw : Bytes)
      (d : Decoded) (score_id : ℕ) (bs : Bytes)
      → IsStored row.map_md5
      → IsStored row.username
      → ((checked : Bytes) → IsStored (md5 checked))
      → decode_replay_frames float decompress raw ≡ ok d
      → build_full_replay md5 (some raw) (some row) viewer score_id ≡ ok (some bs)
      → (checked : Bytes) × (encode (checksum_text row) ≡ ok checked)
        × (parse_osr float decompress bs ≡ ok (replay_of row (md5 checked) d score_id))
  unfolding build_full_replay
  parse_osr-build_full_replay md5 row viewer raw d score_id bs map name digest frames e =
      elim (Bool-cases (is_hidden md5 viewer row)) [
        | inl hidden ↦ let f : ok none ≡ ok (some bs) = rw hidden at e in absurd cc
        | inr visible ↦
            let (out, made, last) =
              >>=-eq-ok (replay_data md5 row raw score_id) (λ out. ok (some out))
                (rw visible at e) in
            let same : out ≡ bs = cc in
            parse_osr-replay_data md5 row raw d score_id bs map name digest frames
              (made ∙ ap ok same)
      ]
