-- ===== src/Tests/Reviews.antt =====
-- Runs of the replay-analysis worker.
use bancho_prism_1_0_0_prod.Base.{
  ℕ, zero, suc, ◌*◌, ◌≡◌, refl, arith, List, [], ◌∷◌, true, false, Option, none, some, length, take,
  Result, ok, err, database_error, overflow_error,
}
use bancho_prism_1_0_0_prod.Base.Int.{ℤ, pos}
use bancho_prism_1_0_0_prod.Utf8.{Bytes, Text}
use bancho_prism_1_0_0_prod.Replay.Frames.{decode_replay_frames}
use bancho_prism_1_0_0_prod.Replay.Parse.{Replay, parse_replay_frame_data}
use bancho_prism_1_0_0_prod.Anticheat.Queue.{encode_entry, decode_entry, decode_entry-encode_entry}
use bancho_prism_1_0_0_prod.Anticheat.Analysis.{
  Signal, Report, Writes, Flag, reviewing, actioned, dismissed, Row, Table, failed,
}
use bancho_prism_1_0_0_prod.Anticheat.Worker.{
  PendingScore, Worker, unanalyzed, publish_depth, consume_once, fetch_unanalyzed_scores,
  backfill_loop, backfill_once,
}
use bancho_prism_1_0_0_prod.Anticheat.Pages.{IsAscending}
use bancho_prism_1_0_0_prod.Anticheat.Backfill.{with_entries, backfill_once_enqueues}
use bancho_prism_1_0_0_prod.Anticheat.Consume.{HasRow}
use bancho_prism_1_0_0_prod.Anticheat.Liveness.{AllRows, AreShort, drain, drain-backfill_once}
use bancho_prism_1_0_0_prod.Anticheat.Raises.{consume_once_raises}
use bancho_prism_1_0_0_prod.Anticheat.Review.{
  Call, consumes, resolves, run, decision, decided, run-decided,
}
use bancho_prism_1_0_0_prod.Anticheat.Flags.{consume_once_loses_flag}

abbrev float : Text → Option ℕ
float s = none

abbrev decompress : Bytes → Option Bytes
decompress bs = none

-- Score 3 has a file that does not decompress, score 2 has none.
abbrev replays : ℤ → Option Bytes
replays (pos (suc (suc zero))) = none
replays (pos (suc (suc (suc zero)))) = some (1 ∷ [])
replays k = some []

abbrev extract_features : Replay → Result ℕ
extract_features replay = ok (length replay.frames)

abbrev slow_hands : Signal
slow_hands = record { code = 97 ∷ []; confidence = 8 }

abbrev slow_report : Report
slow_report = record { flagged = true; severity = 2; triggered = slow_hands ∷ [] }

abbrev run_detectors : ℕ → Result Report
run_detectors n = ok slow_report

abbrev owner : ℤ → Option ℕ
owner k = some 4

abbrev dismissed_flag : Flag
dismissed_flag = record {
  user_id = 4;
  mode = pos 0;
  status = dismissed;
  severity = 1;
  code = [];
  confidence = 5;
  triggered_count = 1;
  resolved_by = some 3;
}

abbrev scores : List PendingScore
scores =
    record { score_id = 1; mode = 0 }
    ∷ record { score_id = 2; mode = 4 }
    ∷ record { score_id = 3; mode = 0 }
    ∷ record { score_id = 5; mode = 0 }
    ∷ []

abbrev rows : Table (Row ℕ)
rows (pos (suc (suc zero))) = some (record { status = failed; mode = pos 4; features = none })
rows k = none

-- Score 2 has a row, every score a flag; there is an entry for score 5 on the queue.
abbrev worker : Worker ℕ
worker = record {
  scores = scores;
  rows = rows;
  flags = λ k. some dismissed_flag;
  queue = encode_entry 5 0 ∷ [];
  depth = 0;
}

decode_entry-encode_entry_example :
    decode_entry (encode_entry 70000 4) ≡ some (record { score_id = pos 70000; mode = pos 4 })
decode_entry-encode_entry_example = decode_entry-encode_entry 70000 4 (omega arith) (omega arith)

scores-IsAscending : IsAscending 0 scores
unfolding IsAscending
scores-IsAscending = (omega arith, (omega arith, (omega arith, (omega arith, tt))))

backfill_once_enqueues_example : backfill_once 2 2 worker ≡ (
  3,
  publish_depth (with_entries (take (2 * 2) (unanalyzed worker.rows 0 worker.scores)) worker),
)
backfill_once_enqueues_example = backfill_once_enqueues 2 2 worker (omega arith) scores-IsAscending

filled_queue : length (backfill_once 2 2 worker).1.queue ≡ 4
unfolding backfill_once backfill_loop fetch_unanalyzed_scores
filled_queue = refl

scores-AreShort : AreShort scores
scores-AreShort = (
  (omega arith, omega arith),
  ((omega arith, omega arith), ((omega arith, omega arith), ((omega arith, omega arith), tt))),
)

-- The second of the calls cannot write a flag.
abbrev both_write : Writes
both_write = record { rows = true; flags = true }

abbrev writes : List Writes
writes = both_write ∷ record { rows = true; flags = false } ∷ both_write ∷ both_write ∷ []

drain-backfill_once_example :
    AllRows
      (drain float decompress replays extract_features run_detectors owner writes
        (backfill_once 2 2 worker).1).rows
      scores
drain-backfill_once_example =
    drain-backfill_once float decompress replays extract_features run_detectors owner 2 2 worker
      writes (λ k mode bytes replay file parsed. (_, _, refl, refl))
      (refl, (refl, (refl, (refl, tt)))) (omega arith) scores-IsAscending scores-AreShort
      (omega arith) (omega (arith, filled_queue))

-- Staff take up the flag of score 5 between two calls that analyse it.
abbrev days : List Call
days =
    consumes both_write
    ∷ resolves (pos 5) reviewing 8
    ∷ resolves (pos 5) actioned 9
    ∷ consumes both_write
    ∷ []

run-decided_example :
    (g : Flag) × ((run float decompress replays extract_features run_detectors owner days
          (worker, [])).0.flags
        (pos 5)
      ≡ some g)
    × (decision g ≡ decided (pos 5) days (decision dismissed_flag))
run-decided_example =
    run-decided float decompress replays extract_features run_detectors owner days (worker, [])
      (pos 5) dismissed_flag refl

abbrev no_replay : Replay
no_replay = record {
  mode = pos 0;
  version = 0;
  beatmap_md5 = [];
  player_name = [];
  replay_md5 = [];
  n300 = 0;
  n100 = 0;
  n50 = 0;
  ngeki = 0;
  nkatu = 0;
  nmiss = 0;
  score = 0;
  max_combo = 0;
  perfect = false;
  mods = 0;
  life_bar_graph = [];
  timestamp = pos 0;
  frames = [];
  rng_seed = none;
  online_score_id = pos 0;
}

empty_parses : parse_replay_frame_data float decompress (pos 0) [] ≡ ok no_replay
unfolding parse_replay_frame_data decode_replay_frames
empty_parses = refl

consume_once_loses_flag_example :
    let r =
      consume_once float decompress replays extract_features run_detectors owner
        (record { rows = true; flags = false })
        worker in
    (r.0 ≡ err database_error)
    × (r.1.queue ≡ [])
    × (r.1.flags ≡ worker.flags)
    × HasRow r.1.rows (pos 5)
consume_once_loses_flag_example =
    consume_once_loses_flag float decompress replays extract_features run_detectors owner worker
      (encode_entry 5 0) [] (record { score_id = pos 5; mode = pos 0 }) [] no_replay 0 slow_report 4
      slow_hands [] refl (decode_entry-encode_entry 5 0 (omega arith) (omega arith)) refl
      empty_parses refl refl refl refl refl

-- The extraction that meets coordinates it cannot square.
abbrev overflows : Replay → Result ℕ
overflows replay = err overflow_error

consume_once_raises_example :
    consume_once float decompress replays overflows run_detectors owner both_write worker
    ≡ (err overflow_error, record worker { queue = [] })
consume_once_raises_example =
    consume_once_raises float decompress replays overflows run_detectors owner both_write worker
      (encode_entry 5 0) [] (record { score_id = pos 5; mode = pos 0 }) [] no_replay overflow_error
      refl (decode_entry-encode_entry 5 0 (omega arith) (omega arith)) refl empty_parses refl
      (λ e. cc)
