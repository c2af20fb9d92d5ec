-- ===== src/Replay/Tokens.antt =====
-- The frame stream that `_decode_frames` of app/adapters/osr_replay.py reads, token by token.
use bancho_prism_1_0_0_prod.Base.{
  ℕ, ◌<◌, ◌≡◌, refl, sym, ◌∙◌, ap, arith, List, [], ◌∷◌, ◌++◌, map, append-nil, append_assoc, false,
  Option, none, some, ltb, ◌==◌, if◌then◌else◌, Bool-cases, inl, inr,
}
use bancho_prism_1_0_0_prod.Base.Int.{ℤ, pos, negsuc}
use bancho_prism_1_0_0_prod.Utf8.{Bytes, Text}
use bancho_prism_1_0_0_prod.Replay.Numbers.{decode_ascii, split, strip, int_of, low_5}
use bancho_prism_1_0_0_prod.Replay.Frames.{
  ReplayFrame, is_seed_time, Token, skipped, seed, frame, numbers, parts, token_of, Decoded,
  add_token, decode_tokens, decode_frames,
}

-- The last seed that either part of a stream has.
abbrev later_seed : Option ℤ → Option ℤ → Option ℤ
later_seed first none = first
later_seed first (some keys) = some keys

abbrev pub joined : Decoded → Decoded → Decoded
joined (frames, rng_seed) (frames', rng_seed') = (frames ++ frames', later_seed rng_seed rng_seed')

split-nonempty : (c : ℕ) (s : Text) → (p : Text) × (ps : List Text) × (split c s ≡ p ∷ ps)
unfolding split
split-nonempty c [] = ([], [], refl)
split-nonempty c (d ∷ s) = elim (Bool-cases (d == c)) [
  | inl here ↦ ([], split c s, rw here refl)
  | inr other ↦ let (p, ps, e) = split-nonempty c s in (d ∷ p, ps, rw (other, e) refl)
]

split-append : (c : ℕ) (s t : Text) → split c (s ++ c ∷ t) ≡ split c s ++ split c t
unfolding split
split-append c [] t = ground arith
split-append c (d ∷ s) t = elim (Bool-cases (d == c)) [
  | inl here ↦ rw (here, split-append c s t) refl
  | inr other ↦ let (p, ps, e) = split-nonempty c s in rw (other, split-append c s t, e) refl
]

map-append : (f : ℕ → ℕ) (s t : List ℕ) → map f (s ++ t) ≡ map f s ++ map f t
map-append f [] t = refl
map-append f (c ∷ s) t = ap (λ l. f c ∷ l) (map-append f s t)

module _ (float : Text → Option ℕ) where
  decode_tokens-append :
      (xs ys : List Text) (d : Decoded)
      → decode_tokens float (xs ++ ys) d ≡ decode_tokens float ys (decode_tokens float xs d)
  unfolding decode_tokens
  decode_tokens-append [] ys d = refl
  decode_tokens-append (x ∷ xs) ys d =
      decode_tokens-append xs ys (add_token float (token_of float x) d)

  joined_assoc : (a b c : Decoded) → joined (joined a b) c ≡ joined a (joined b c)
  joined_assoc (f, s) (g, t) (h, none) = ap (λ l. (l, later_seed s t)) (append_assoc f g h)
  joined_assoc (f, s) (g, t) (h, some k) = ap (λ l. (l, some k)) (append_assoc f g h)

  add_token-joined :
      (t : Token) (d : Decoded) → add_token float t d ≡ joined d (add_token float t ([], none))
  add_token-joined skipped (f, s) = ap (λ l. (l, s)) (sym (append-nil f))
  add_token-joined (seed k) (f, s) = ap (λ l. (l, some k)) (sym (append-nil f))
  add_token-joined (frame x) (f, s) = refl

  decode_tokens-joined :
      (xs : List Text) (d : Decoded)
      → decode_tokens float xs d ≡ joined d (decode_tokens float xs ([], none))
  unfolding decode_tokens
  decode_tokens-joined [] (f, s) = ap (λ l. (l, s)) (sym (append-nil f))
  decode_tokens-joined (x ∷ xs) d =
      let first = add_token float (token_of float x) ([], none) in
      ap (decode_tokens float xs) (add_token-joined (token_of float x) d)
      ∙ decode_tokens-joined xs (joined d first)
      ∙ joined_assoc d first (decode_tokens float xs ([], none))
      ∙ ap (joined d) (sym (decode_tokens-joined xs first))

  -- Two streams with a comma between decode to the frames of the first and then those of the
  -- second, and to the seed of the second if it has one, else to that of the first: no token, and
  -- no malformed one, changes how another is read.
  pub decode_frames-append :
      (s t : Bytes)
      → decode_frames float (s ++ 44 ∷ t) ≡ joined (decode_frames float s) (decode_frames float t)
  unfolding decode_frames
  decode_frames-append s t =
      rw
        (
          map-append (λ b. if ltb b 128 then b else 0xfffd) s (44 ∷ t),
          split-append 44 (decode_ascii s) (decode_ascii t),
        )
        (decode_tokens-append (split 44 (decode_ascii s)) (split 44 (decode_ascii t)) ([], none)
          ∙ decode_tokens-joined (split 44 (decode_ascii t))
              (decode_tokens float (split 44 (decode_ascii s)) ([], none)))

-- A frame's keys are five bits, and its time is not the one that marks the seed.
abbrev pub IsFrame : ReplayFrame → Type 0
IsFrame f = (f.keys < 32) × (is_seed_time f.time_delta ≡ false)

abbrev pub All : List ReplayFrame → Type 0
All [] = Unit
All (f ∷ fs) = IsFrame f × All fs

All-append : (fs gs : List ReplayFrame) → All fs → All gs → All (fs ++ gs)
All-append [] gs h k = k
All-append (f ∷ fs) gs h k = (h.0, All-append fs gs h.1 k)

low_5-lt : (z : ℤ) → low_5 z < 32
low_5-lt (pos n) = omega arith
low_5-lt (negsuc n) = omega arith

abbrev IsRight : Token → Type 0
IsRight skipped = Unit
IsRight (seed k) = Unit
IsRight (frame f) = IsFrame f

module _ (float : Text → Option ℕ) where
  numbers-IsRight : (t : Option ℤ) (x y : Option ℕ) (k : Option ℤ) → IsRight (numbers float t x y k)
  numbers-IsRight none x y k = tt
  numbers-IsRight (some t) none y k = tt
  numbers-IsRight (some t) (some x) none k = tt
  numbers-IsRight (some t) (some x) (some y) none = tt
  numbers-IsRight (some t) (some x) (some y) (some k) = elim (Bool-cases (is_seed_time t)) [
    | inl last ↦ rw (last, IsRight) tt
    | inr sample ↦ rw (sample, IsRight) (low_5-lt k, sample)
  ]

  parts-IsRight : (texts : List Text) → IsRight (parts float texts)
  parts-IsRight [] = tt
  parts-IsRight (t ∷ []) = tt
  parts-IsRight (t ∷ x ∷ []) = tt
  parts-IsRight (t ∷ x ∷ y ∷ []) = tt
  parts-IsRight (t ∷ x ∷ y ∷ k ∷ []) = numbers-IsRight (int_of t) (float x) (float y) (int_of k)
  parts-IsRight (t ∷ x ∷ y ∷ k ∷ z ∷ rest) = tt

  stripped-IsRight :
      (text : Text) → IsRight (elim text [ [] ↦ skipped | c ∷ s ↦ parts float (split 124 (c ∷ s)) ])
  stripped-IsRight [] = tt
  stripped-IsRight (c ∷ s) = parts-IsRight (split 124 (c ∷ s))

  token_of-IsRight : (text : Text) → IsRight (token_of float text)
  unfolding token_of
  token_of-IsRight text = stripped-IsRight (strip text)

  add_token-All : (t : Token) (d : Decoded) → IsRight t → All d.0 → All (add_token float t d).0
  add_token-All skipped (f, s) right h = h
  add_token-All (seed k) (f, s) right h = h
  add_token-All (frame x) (f, s) right h = All-append f (x ∷ []) h (right, tt)

  decode_tokens-All : (xs : List Text) (d : Decoded) → All d.0 → All (decode_tokens float xs d).0
  unfolding decode_tokens
  decode_tokens-All [] d h = h
  decode_tokens-All (x ∷ xs) d h =
      decode_tokens-All xs _ (add_token-All (token_of float x) d (token_of-IsRight x) h)

  -- Every frame that a stream decodes to has its keys below 32, and none is the seed's.
  pub decode_frames-All : (raw : Bytes) → All (decode_frames float raw).0
  unfolding decode_frames
  decode_frames-All raw = decode_tokens-All (split 44 (decode_ascii raw)) ([], none) tt
