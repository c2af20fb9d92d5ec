-- ===== src/Packets/Frames.antt =====
-- The two readers of a score frame in app/packets.py: `read_scoreframe`, which raises, and
-- `decode_scoreframe`, which does not.
use bancho_prism_1_0_0_prod.Base.{
  ℕ, zero, suc, ◌+◌, ◌≤◌, ◌<◌, ◌≡◌, ◌∙◌, refl, sym, ap, [], ◌∷◌, Bool, true, false, Option, none,
  some, arith, ltb, ◌==◌, if◌then◌else◌, length, take, drop, Result, ok, err, Error, struct_error,
  Bool-cases, inl, inr, length-take, length-drop,
}
use bancho_prism_1_0_0_prod.Utf8.{Bytes}
use bancho_prism_1_0_0_prod.Packets.Bytes.{from_bytes}
use bancho_prism_1_0_0_prod.Packets.Reader.{Reader, pure, ◌>>=◌, read_exact, read_f64}
use bancho_prism_1_0_0_prod.Packets.ScoreFrames.{
  ScoreFrame, unpack_frame, slice_at, scoreframe_size, with_portions, read_scoreframe,
  decode_scoreframe,
}

-- A reader's value, if it had one.
abbrev pub value_of {ℓ} : {A : Type ℓ} → Result (A × Bytes) → Option A
value_of (ok (a, rest)) = some a
value_of (err e) = none

-- A part of a prefix is the same part of the whole.
slice_at-take : (i k n : ℕ) (bs : Bytes) → i + k ≤ n → slice_at i k (take n bs) ≡ slice_at i k bs
slice_at-take zero zero n bs h = refl
slice_at-take zero (suc k) zero bs h = absurd (omega arith)
slice_at-take zero (suc k) (suc n) [] h = refl
slice_at-take zero (suc k) (suc n) (b ∷ bs) h =
    ap (λ r. b ∷ r) (slice_at-take zero k n bs (omega arith))
slice_at-take (suc i) k zero bs h = absurd (omega arith)
slice_at-take (suc i) k (suc n) [] h = refl
slice_at-take (suc i) k (suc n) (b ∷ bs) h = slice_at-take i k n bs (omega arith)

unpack_frame-take : (bs : Bytes) → unpack_frame (take scoreframe_size bs) ≡ unpack_frame bs
unfolding unpack_frame
unpack_frame-take bs =
    let at : (i k : ℕ) → i + k ≤ 29 → slice_at i k (take 29 bs) ≡ slice_at i k bs =
      λ i k h. slice_at-take i k 29 bs h in
    rw
      (
        at 0 4 (omega arith),
        at 4 1 (omega arith),
        at 5 2 (omega arith),
        at 7 2 (omega arith),
        at 9 2 (omega arith),
        at 11 2 (omega arith),
        at 13 2 (omega arith),
        at 15 2 (omega arith),
        at 17 4 (omega arith),
        at 21 2 (omega arith),
        at 23 2 (omega arith),
        at 25 1 (omega arith),
        at 26 1 (omega arith),
        at 27 1 (omega arith),
        at 28 1 (omega arith),
      )
      refl

read_exact-short : (k : ℕ) (bs : Bytes) → length bs < k → read_exact k bs ≡ err struct_error
unfolding read_exact
read_exact-short k bs h =
    let other : (length (take k bs) == k) ≡ false = ground (arith, length-take k bs, h) in
    rw other refl

pub read_exact-long :
    (k : ℕ) (bs : Bytes) → k ≤ length bs → read_exact k bs ≡ ok (take k bs, drop k bs)
unfolding read_exact
read_exact-long k bs h =
    let same : (length (take k bs) == k) ≡ true = ground (arith, length-take k bs, h) in
    rw same refl

module _ {ℓ κ} {A : Type ℓ} {B : Type κ} (m : Reader A) (f : A → Reader B) (bs : Bytes) where
  pub bind-ok : {a : A} {rest : Bytes} → m bs ≡ ok (a, rest) → (m >>= f) bs ≡ f a rest
  bind-ok e = ap (λ r. elim r [ ok (a, rest) ↦ f a rest | err x ↦ err x ]) e

  bind-err : {x : Error} → m bs ≡ err x → (m >>= f) bs ≡ err x
  bind-err e = ap (λ r. elim r [ ok (a, rest) ↦ f a rest | err x ↦ err x ]) e

read_f64-short : (bs : Bytes) → length bs < 8 → read_f64 bs ≡ err struct_error
unfolding read_f64
read_f64-short bs h = bind-err (read_exact 8) _ bs (read_exact-short 8 bs h)

read_f64-long : (bs : Bytes) → 8 ≤ length bs → read_f64 bs ≡ ok (from_bytes (take 8 bs), drop 8 bs)
unfolding read_f64
read_f64-long bs h = bind-ok (read_exact 8) _ bs (read_exact-long 8 bs h)

-- The two floats behind a score_v2 frame.
abbrev portions : ScoreFrame → Reader ScoreFrame
portions sf = do combo ← read_f64; bonus ← read_f64; pure (with_portions sf combo bonus)

portions-short : (sf : ScoreFrame) (bs : Bytes) → length bs < 16 → portions sf bs ≡ err struct_error
portions-short sf bs h = elim (Bool-cases (ltb (length bs) 8)) [
  | inl none_there ↦ bind-err read_f64 _ bs (read_f64-short bs (ground (arith, none_there)))
  | inr one_there ↦
      bind-ok read_f64 _ bs (read_f64-long bs (ground (arith, one_there)))
      ∙ bind-err read_f64 _ (drop 8 bs)
          (read_f64-short (drop 8 bs) (omega (arith, length-drop 8 bs)))
]

portions-long :
    (sf : ScoreFrame) (bs : Bytes)
    → 16 ≤ length bs
    → portions sf bs
      ≡ ok (
        with_portions sf (from_bytes (take 8 bs)) (from_bytes (take 8 (drop 8 bs))),
        drop 8 (drop 8 bs),
      )
portions-long sf bs h =
    bind-ok read_f64 _ bs (read_f64-long bs (omega arith))
    ∙ bind-ok read_f64 _ (drop 8 bs) (read_f64-long (drop 8 bs) (omega (arith, length-drop 8 bs)))

-- What `read_scoreframe` does with the fields that it has unpacked.
abbrev after_frame : ScoreFrame → Reader ScoreFrame
after_frame sf = if sf.score_v2 then portions sf else pure sf

read_scoreframe-short : (raw : Bytes) → length raw < 29 → read_scoreframe raw ≡ err struct_error
unfolding read_scoreframe
read_scoreframe-short raw h = bind-err (read_exact 29) _ raw (read_exact-short 29 raw h)

read_scoreframe-long :
    (raw : Bytes)
    → 29 ≤ length raw
    → read_scoreframe raw ≡ after_frame (unpack_frame raw) (drop 29 raw)
unfolding read_scoreframe
read_scoreframe-long raw h =
    bind-ok (read_exact 29) _ raw (read_exact-long 29 raw h)
    ∙ ap (λ sf. after_frame sf (drop 29 raw)) (unpack_frame-take raw)

after_frame-decoded :
    (v2 : Bool) (sf : ScoreFrame) (rest : Bytes)
    → (if v2
        then (if ltb (length rest) 16
            then none
            else some (
                with_portions sf (from_bytes (slice_at 0 8 rest)) (from_bytes (slice_at 8 8 rest))))
        else some sf)
      ≡ value_of ((if v2 then portions sf else pure sf) rest)
after_frame-decoded false sf rest = refl
after_frame-decoded true sf rest = elim (Bool-cases (ltb (length rest) 16)) [
  | inl few ↦ rw few (sym (ap value_of (portions-short sf rest (ground (arith, few)))))
  | inr enough ↦ rw enough (sym (ap value_of (portions-long sf rest (ground (arith, enough)))))
]

-- On any bytes `decode_scoreframe` gives the frame that `read_scoreframe` reads from their front,
-- and nothing where that raises.
pub decode_scoreframe-read_scoreframe :
    (raw : Bytes) → decode_scoreframe raw ≡ value_of (read_scoreframe raw)
unfolding decode_scoreframe
decode_scoreframe-read_scoreframe raw = elim (Bool-cases (ltb (length raw) 29)) [
  | inl short ↦ rw (short, read_scoreframe-short raw (ground (arith, short))) refl
  | inr long ↦
      rw (long, read_scoreframe-long raw (ground (arith, long)))
        (after_frame-decoded (unpack_frame raw).score_v2 (unpack_frame raw) (drop 29 raw))
]
