-- ===== src/Replay/Frames.antt =====
-- `_decode_frames` and `_decode_replay_frames` of app/adapters/osr_replay.py. `float` stands for
-- Python's `float` of a text, as the bit pattern of a double, `none` where it raises ValueError;
-- `decompress` for lzma.decompress, `none` where it raises LZMAError.
use bancho_prism_1_0_0_prod.Base.{
  ℕ, List, [], ◌∷◌, ◌++◌, Bool, false, Option, none, some, ◌==◌, if◌then◌else◌, Result, ok, err,
  replay_parse_error,
}
use bancho_prism_1_0_0_prod.Base.Int.{ℤ, pos, negsuc}
use bancho_prism_1_0_0_prod.Utf8.{Bytes, Text}
use bancho_prism_1_0_0_prod.Replay.Numbers.{decode_ascii, split, strip, int_of, low_5}

pub record ReplayFrame : Type 0 where
  pub time_delta : ℤ
  pub x : ℕ
  pub y : ℕ
  pub keys : ℕ

-- _SEED_FRAME_TIME
abbrev pub is_seed_time : ℤ → Bool
is_seed_time (pos n) = false
is_seed_time (negsuc n) = n == 12344

-- What a token of the stream is.
pub data Token : Type 0 where
  skipped : Token
  seed : (keys : ℤ) → Token
  frame : ReplayFrame → Token

abbrev pub Decoded : Type 0
Decoded = List ReplayFrame × Option ℤ

module _ (float : Text → Option ℕ) where
  abbrev pub numbers : Option ℤ → Option ℕ → Option ℕ → Option ℤ → Token
  numbers (some t) (some x) (some y) (some keys) =
      if is_seed_time t
      then seed keys
      else frame (record { time_delta = t; x = x; y = y; keys = low_5 keys })
  numbers time x y keys = skipped

  abbrev pub parts : List Text → Token
  parts (t ∷ x ∷ y ∷ keys ∷ []) = numbers (int_of t) (float x) (float y) (int_of keys)
  parts other = skipped

  -- The body of the loop over the tokens.
  unfoldable pub token_of : Text → Token
  unfolding int_of split
  token_of text = elim (strip text) [ [] ↦ skipped | c ∷ s ↦ parts (split 124 (c ∷ s)) ]

  abbrev pub add_token : Token → Decoded → Decoded
  add_token skipped (frames, rng_seed) = (frames, rng_seed)
  add_token (seed keys) (frames, rng_seed) = (frames, some keys)
  add_token (frame f) (frames, rng_seed) = (frames ++ f ∷ [], rng_seed)

  unfoldable pub decode_tokens : List Text → Decoded → Decoded
  unfolding token_of
  decode_tokens [] d = d
  decode_tokens (text ∷ texts) d = decode_tokens texts (add_token (token_of text) d)

  unfoldable pub decode_frames : Bytes → Decoded
  unfolding decode_tokens split
  decode_frames raw = decode_tokens (split 44 (decode_ascii raw)) ([], none)

  unfoldable pub decode_replay_frames : (decompress : Bytes → Option Bytes) → Bytes → Result Decoded
  unfolding decode_frames
  decode_replay_frames decompress [] = ok ([], none)
  decode_replay_frames decompress (b ∷ bs) = elim (decompress (b ∷ bs)) [
    | none ↦ err replay_parse_error
    | some raw ↦ ok (decode_frames raw)
  ]
