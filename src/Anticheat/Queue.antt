-- ===== src/Anticheat/Queue.antt =====
-- app/repositories/replay_analysis_queue.py: the payload of an entry, and the entries of the Redis
-- list from its tail, which is the one that is popped next.
use bancho_prism_1_0_0_prod.Base.{
  ℕ, ◌≡◌, ◌<◌, refl, arith, [], ◌∷◌, ◌++◌, Option, none, some, ◌==◌, if◌then◌else◌, false,
}
use bancho_prism_1_0_0_prod.Base.Int.{ℤ, pos}
use bancho_prism_1_0_0_prod.Utf8.{Text}
use bancho_prism_1_0_0_prod.Replay.Numbers.{int_of}
use bancho_prism_1_0_0_prod.Replay.Decimal.{
  decimal, IsDigits, decimal-IsDigits, pow10, int_of-decimal,
}

pub record QueuedReplay : Type 0 where
  pub score_id : ℤ
  pub mode : ℤ

-- f"{score_id}:{mode}"
unfoldable pub encode_entry : (score_id mode : ℕ) → Text
encode_entry score_id mode = decimal score_id ++ 58 ∷ decimal mode

abbrev before_rest : ℕ → Option (Text × Text) → Option (Text × Text)
before_rest c none = none
before_rest c (some (s, t)) = some (c ∷ s, t)

-- payload.partition(":"), `none` without a separator
unfoldable pub partition : Text → Option (Text × Text)
partition [] = none
partition (c ∷ s) = let rest = partition s in if c == 58 then some ([], s) else before_rest c rest

abbrev queued : Option ℤ → Option ℤ → Option QueuedReplay
queued (some score_id) (some mode) = some (record { score_id = score_id; mode = mode })
queued score_id mode = none

unfoldable pub decode_entry : Text → Option QueuedReplay
unfolding partition int_of
decode_entry payload = elim (partition payload) [
  | none ↦ none
  | some (score_part, mode_part) ↦ queued (int_of score_part) (int_of mode_part)
]

partition-IsDigits : (s t : Text) → IsDigits s → partition (s ++ 58 ∷ t) ≡ some (s, t)
unfolding partition
partition-IsDigits [] t h = refl
partition-IsDigits (c ∷ s) t h =
    let other : (c == 58) ≡ false = ground arith in rw (other, partition-IsDigits s t h.2) refl

-- What is enqueued for a score and a mode of at most 20 digits is dequeued as them.
pub decode_entry-encode_entry :
    (score_id mode : ℕ)
    → score_id < pow10 20
    → mode < pow10 20
    → decode_entry (encode_entry score_id mode)
      ≡ some (record { score_id = pos score_id; mode = pos mode })
unfolding decode_entry encode_entry
decode_entry-encode_entry score_id mode h k =
    rw
      (
        decode_entry,
        partition-IsDigits (decimal score_id) (decimal mode) (decimal-IsDigits score_id),
        int_of-decimal score_id h,
        int_of-decimal mode k,
      )
      refl
