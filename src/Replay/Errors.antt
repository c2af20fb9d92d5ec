-- ===== src/Replay/Errors.antt =====
-- What the reader of app/adapters/osr_replay.py raises, and where it stands afterwards: each method
-- that starts within the data ends within it, no earlier than it started, or raises
-- ReplayParseError. `IsSafe` says this of a reader.
use bancho_prism_1_0_0_prod.Base.{
  ℕ, zero, suc, ◌+◌, ◌/◌, ◌%◌, ◌≤◌, ◌<◌, ◌≡◌, refl, arith, [], ◌∷◌, some, ltb, leb, ◌==◌,
  if◌then◌else◌, length, take, drop, length-take, length-drop, get_elem?, Option-cases, Bool-cases,
  ◌⊎◌, inl, inr, Bool, true, false, not, Error, Result, ok, err, replay_parse_error, Option,
}
use bancho_prism_1_0_0_prod.Base.Int.{ℤ}
use bancho_prism_1_0_0_prod.Utf8.{Bytes, Text}
use bancho_prism_1_0_0_prod.Replay.Reader.{
  Reader, ◌>>=◌, pure, raise, require, next_byte, next_bytes, unpack_from, read_byte, read_bytes,
  unpack, read_int16, read_int32, read_int64, uleb128_loop, read_uleb128, read_string, remaining,
}
use bancho_prism_1_0_0_prod.Replay.Frames.{decode_replay_frames}
use bancho_prism_1_0_0_prod.Replay.Parse.{
  Replay, lift, read_score_id, read_replay, parse_osr, parse_replay_frame_data,
}

-- A position within the data, or ReplayParseError.
abbrev pub Ends {ℓ} : {A : Type ℓ} → (bs : Bytes) (start : ℕ) → Result (A × ℕ) → Type 0
Ends bs start (ok (a, i)) = (start ≤ i) × (i ≤ length bs)
Ends bs start (err e) = e ≡ replay_parse_error

pub record IsSafe {ℓ} {A : Type ℓ} (m : Reader A) : Type 0 where
  pub safe : (bs : Bytes) (i : ℕ) → i ≤ length bs → Ends bs i (m bs i)

later {ℓ} :
    {A : Type ℓ} (bs : Bytes) (i j : ℕ) (r : Result (A × ℕ)) → i ≤ j → Ends bs j r → Ends bs i r
later bs i j (ok (b, k)) h e = (omega arith, e.1)
later bs i j (err x) h e = e

module _ {ℓ κ} {A : Type ℓ} {B : Type κ} where
  after :
      (bs : Bytes) (i : ℕ) (f : A → Reader B) (r : Result (A × ℕ))
      → Ends bs i r
      → ((a : A) → IsSafe (f a))
      → Ends bs i (elim r [ ok (a, j) ↦ f a bs j | err e ↦ err e ])
  after bs i f (ok (a, j)) e h = later bs i j (f a bs j) e.0 ((h a).safe bs j e.1)
  after bs i f (err x) e h = e

  pub IsSafe-bind :
      (m : Reader A) (f : A → Reader B) → IsSafe m → ((a : A) → IsSafe (f a)) → IsSafe (m >>= f)
  IsSafe-bind m f hm hf = record { safe = λ bs i h. after bs i f (m bs i) (hm.safe bs i h) hf }

pub IsSafe-pure {ℓ} : {A : Type ℓ} (a : A) → IsSafe (pure a)
IsSafe-pure a = record { safe = λ bs i h. (omega arith, h) }

pub IsSafe-raise {ℓ} : {A : Type ℓ} → IsSafe {A = A} (raise replay_parse_error)
IsSafe-raise = record { safe = λ bs i h. refl }

get_elem?-within : (bs : Bytes) (i : ℕ) → i < length bs → (b : ℕ) × (get_elem? bs i ≡ some b)
get_elem?-within [] i h = absurd (omega arith)
get_elem?-within (b ∷ bs) zero h = (b, refl)
get_elem?-within (b ∷ bs) (suc i) h = get_elem?-within bs i (omega arith)

-- What is required is there.
required {ℓ} :
    {A : Type ℓ} (n : ℕ) (m : Reader A)
    → ((bs : Bytes) (i : ℕ) → i + n ≤ length bs → Ends bs i (m bs i))
    → IsSafe (do u ← require n; m)
unfolding require
required n m h = record {
  safe = λ bs i k. elim (Bool-cases (ltb (length bs) (i + n))) [
    | inl short ↦ rw (short, Ends) refl
    | inr fits ↦ rw (fits, Ends) (h bs i (ground (arith, fits)))
  ];
}

pub read_byte-IsSafe : IsSafe read_byte
unfolding read_byte
read_byte-IsSafe =
    required 1 next_byte
      (λ bs i h. let (b, e) = get_elem?-within bs i (omega arith) in rw (e, Ends) (omega arith, h))

pub read_bytes-IsSafe : (n : ℕ) → IsSafe (read_bytes n)
unfolding read_bytes
read_bytes-IsSafe n = required n (next_bytes n) (λ bs i h. (omega arith, h))

unpack-IsSafe : (n : ℕ) → IsSafe (unpack n)
unfolding unpack
unpack-IsSafe n = required n (unpack_from n) (λ bs i h.
    let whole : (length (take n (drop i bs)) == n) ≡ true =
      ground (arith, length-take n (drop i bs), length-drop i bs) in
    rw (whole, Ends) (omega arith, h))

pub read_int16-IsSafe : IsSafe read_int16
unfolding read_int16
read_int16-IsSafe = IsSafe-bind (unpack 2) _ (unpack-IsSafe 2) (λ val. IsSafe-pure _)

pub read_int32-IsSafe : IsSafe read_int32
unfolding read_int32
read_int32-IsSafe = IsSafe-bind (unpack 4) _ (unpack-IsSafe 4) (λ val. IsSafe-pure _)

pub read_int64-IsSafe : IsSafe read_int64
unfolding read_int64
read_int64-IsSafe = IsSafe-bind (unpack 8) _ (unpack-IsSafe 8) (λ val. IsSafe-pure _)

-- Whichever way a test goes.
IsSafe-if {ℓ} :
    {A : Type ℓ} (b : Bool) (m n : Reader A) → IsSafe m → IsSafe n → IsSafe (if b then m else n)
IsSafe-if true m n hm hn = hm
IsSafe-if false m n hm hn = hn

uleb128_loop-IsSafe : (left total shift : ℕ) → IsSafe (uleb128_loop left total shift)
unfolding uleb128_loop
uleb128_loop-IsSafe zero total shift = IsSafe-raise
uleb128_loop-IsSafe (suc left) total shift = IsSafe-bind read_byte _ read_byte-IsSafe (λ byte.
    IsSafe-if (byte / 128 % 2 == 0) _ _ (IsSafe-pure _)
      (IsSafe-if (ltb 63 (shift + 7)) _ _ IsSafe-raise (uleb128_loop-IsSafe left _ (shift + 7))))

pub read_string-IsSafe : IsSafe read_string
unfolding read_string read_uleb128
read_string-IsSafe = IsSafe-bind read_byte _ read_byte-IsSafe (λ flag.
    IsSafe-if (flag == 0x00) _ _ (IsSafe-pure _) (
      IsSafe-if (not (flag == 0x0b)) _ _ IsSafe-raise (
        IsSafe-bind read_uleb128 _ (uleb128_loop-IsSafe 10 0 0)
          (λ n. IsSafe-bind (read_bytes n) _ (read_bytes-IsSafe n) (λ raw. IsSafe-pure _)))))

read_score_id-IsSafe : IsSafe read_score_id
unfolding read_score_id
read_score_id-IsSafe = record {
  safe = λ bs i h. elim (Bool-cases (leb 8 (remaining bs i))) [
    | inl there ↦ rw (there, Ends) (read_int64-IsSafe.safe bs i h)
    | inr absent ↦ rw (absent, Ends) (omega arith, h)
  ];
}

module _ (float : Text → Option ℕ) (decompress : Bytes → Option Bytes) where
  decoded-IsSafe :
      (compressed : Bytes) → IsSafe (lift (decode_replay_frames float decompress compressed))
  unfolding decode_replay_frames
  decoded-IsSafe [] = record { safe = λ bs i h. (omega arith, h) }
  decoded-IsSafe (b ∷ rest) = record {
    safe = λ bs i h. elim (Option-cases (decompress (b ∷ rest))) [
      | inl bad ↦ rw (bad, Ends) refl
      | inr (raw, fine) ↦ rw (fine, Ends) (omega arith, h)
    ];
  }

  read_replay-IsSafe : IsSafe (read_replay float decompress)
  unfolding read_replay
  read_replay-IsSafe = IsSafe-bind _ _ read_byte-IsSafe (λ mode.
      IsSafe-bind _ _ read_int32-IsSafe (λ version.
        IsSafe-bind _ _ read_string-IsSafe (λ beatmap_md5.
          IsSafe-bind _ _ read_string-IsSafe (λ player_name.
            IsSafe-bind _ _ read_string-IsSafe (λ replay_md5.
              IsSafe-bind _ _ read_int16-IsSafe (λ n300. IsSafe-bind _ _ read_int16-IsSafe (λ n100.
                IsSafe-bind _ _ read_int16-IsSafe (λ n50.
                  IsSafe-bind _ _ read_int16-IsSafe (λ ngeki.
                    IsSafe-bind _ _ read_int16-IsSafe (λ nkatu.
                      IsSafe-bind _ _ read_int16-IsSafe (λ nmiss.
                        IsSafe-bind _ _ read_int32-IsSafe (λ score.
                          IsSafe-bind _ _ read_int16-IsSafe (λ max_combo.
                            IsSafe-bind _ _ read_byte-IsSafe (λ perfect.
                              IsSafe-bind _ _ read_int32-IsSafe (λ mods.
                                IsSafe-bind _ _ read_string-IsSafe (λ life_bar_graph.
                                  IsSafe-bind _ _ read_int64-IsSafe (λ timestamp.
                                    IsSafe-bind _ _ read_int32-IsSafe (λ compressed_length.
                                      IsSafe-bind _ _ (read_bytes-IsSafe compressed_length)
                                        (λ compressed.
                                          IsSafe-bind _ _ read_score_id-IsSafe (λ online_score_id.
                                            IsSafe-bind _ _ (decoded-IsSafe compressed)
                                              (λ decoded. IsSafe-pure _)))))))))))))))))))))

  parsed :
      (bs : Bytes) (r : Result (Replay × ℕ)) (e : Error)
      → Ends bs 0 r
      → (elim r [ ok (replay, i) ↦ ok replay | err x ↦ err x ]) ≡ err e
      → e ≡ replay_parse_error
  parsed bs (ok (replay, i)) e safe h = cc
  parsed bs (err x) e safe h = cc

  -- Whatever bytes they are given, and whatever `lzma` makes of them, `parse_osr` and
  -- `parse_replay_frame_data` return a replay or raise ReplayParseError: no IndexError, no
  -- struct.error.
  pub parse_osr-raises :
      (bs : Bytes) (mode : ℤ) (e : Error)
      → ((parse_osr float decompress bs ≡ err e)
          ⊎ (parse_replay_frame_data float decompress mode bs ≡ err e))
      → e ≡ replay_parse_error
  unfolding parse_osr parse_replay_frame_data decode_replay_frames
  parse_osr-raises bs mode e (inl h) =
      parsed bs (read_replay float decompress bs 0) e (read_replay-IsSafe.safe bs 0 (omega arith)) h
  parse_osr-raises [] mode e (inr h) = cc
  parse_osr-raises (b ∷ rest) mode e (inr h) = ground (arith, h)
