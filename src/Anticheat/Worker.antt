-- ===== src/Anticheat/Worker.antt =====
-- ReplayAnalysisWorker of app/services/anticheat/worker.py: `consume_once` and `backfill_once` over
-- the durable tables, the queue and the depth that is reported last. `scores` are the rows of the
-- scores table in the order of their ids; `fetch_unanalyzed_scores` of
-- app/repositories/score_replay_stats.py is its query.
use bancho_prism_1_0_0_prod.Base.{
  ℕ, zero, suc, ◌+◌, List, [], ◌∷◌, ◌++◌, ◌&&◌, Option, none, some, ltb, if◌then◌else◌, length,
  take, Result, ok, err,
}
use bancho_prism_1_0_0_prod.Base.Int.{ℤ, pos}
use bancho_prism_1_0_0_prod.Utf8.{Bytes, Text}
use bancho_prism_1_0_0_prod.Match.{is_none}
use bancho_prism_1_0_0_prod.Replay.Parse.{Replay}
use bancho_prism_1_0_0_prod.Anticheat.Queue.{QueuedReplay, encode_entry, decode_entry}
use bancho_prism_1_0_0_prod.Anticheat.Analysis.{
  Report, AnalysisResult, Writes, Row, Flag, Table, observe, analyze_score,
}

pub record PendingScore : Type 0 where
  pub score_id : ℕ
  pub mode : ℕ

pub record Worker (F : Type 0) : Type 0 where
  pub scores : List PendingScore
  pub rows : Table (Row F)
  pub flags : Table Flag
  pub queue : List Text
  pub depth : ℕ

-- WHERE no row AND id > min_score_id, in the order of the ids
abbrev pub unanalyzed :
    {F : Type 0} → Table (Row F) → (min_score_id : ℕ) → List PendingScore → List PendingScore
unanalyzed rows min_score_id [] = []
unanalyzed rows min_score_id (p ∷ scores) =
    let rest = unanalyzed rows min_score_id scores in
    if ltb min_score_id p.score_id && is_none (rows (pos p.score_id)) then p ∷ rest else rest

unfoldable pub fetch_unanalyzed_scores :
    {F : Type 0} → (limit min_score_id : ℕ) → Worker F → List PendingScore
fetch_unanalyzed_scores limit min_score_id w = take limit (unanalyzed w.rows min_score_id w.scores)

abbrev pub publish_depth : {F : Type 0} → Worker F → Worker F
publish_depth w = record w { depth = length w.queue }

abbrev pub enqueue_all : {F : Type 0} → List PendingScore → Worker F → Worker F
enqueue_all [] w = w
enqueue_all (p ∷ pending) w =
    enqueue_all pending (record w { queue = w.queue ++ encode_entry p.score_id p.mode ∷ [] })

-- pending[-1].score_id
abbrev pub last_id : ℕ → List PendingScore → ℕ
last_id cursor [] = cursor
last_id cursor (p ∷ pending) = last_id p.score_id pending

-- A page: none ends the loop, and so does a short one, once it is enqueued.
abbrev pub after_page :
    {F : Type 0}
    → (limit cursor enqueued : ℕ) → List PendingScore
    → Worker F
    → (next : (cursor enqueued : ℕ) → Worker F → ℕ × Worker F) → ℕ × Worker F
after_page limit cursor enqueued [] w next = (enqueued, w)
after_page limit cursor enqueued (p ∷ rest) w next =
    let pending = p ∷ rest in
    let filled = enqueue_all pending w in
    let count = enqueued + length pending in
    if ltb (length pending) limit
    then (count, filled)
    else next (last_id cursor pending) count filled

-- The loop over at most `batches` pages.
unfoldable pub backfill_loop :
    {F : Type 0} → (batches limit cursor enqueued : ℕ) → Worker F → ℕ × Worker F
unfolding fetch_unanalyzed_scores
backfill_loop zero limit cursor enqueued w = (enqueued, w)
backfill_loop (suc batches) limit cursor enqueued w =
    after_page limit cursor enqueued (fetch_unanalyzed_scores limit cursor w) w
      (backfill_loop batches limit)

abbrev published : {F : Type 0} → ℕ × Worker F → ℕ × Worker F
published (enqueued, w) = (enqueued, publish_depth w)

unfoldable pub backfill_once : {F : Type 0} → (max_batches batch_size : ℕ) → Worker F → ℕ × Worker F
unfolding backfill_loop
backfill_once max_batches batch_size w = published (backfill_loop max_batches batch_size 0 0 w)

module _ {F : Type 0} (float : Text → Option ℕ) (decompress : Bytes → Option Bytes)
    (replays : ℤ → Option Bytes) (extract_features : Replay → Result F)
    (run_detectors : F → Result Report) (owner : ℤ → Option ℕ) where
  -- Once the row is written and the flag is written or not.
  abbrev pub settled :
      AnalysisResult
      → Table (Row F)
      → Worker F
      → Result (Table Flag)
      → Result (Option AnalysisResult) × Worker F
  settled result rows w (err e) = (err e, record w { rows = rows })
  settled result rows w (ok flags) =
      (ok (some result), publish_depth (record w { rows = rows; flags = flags }))

  abbrev pub observed :
      (writes : Writes)
      → Result (AnalysisResult × Table (Row F))
      → Worker F
      → Result (Option AnalysisResult) × Worker F
  observed writes (err e) w = (err e, w)
  observed writes (ok (result, rows)) w =
      settled result rows w (observe writes.flags owner result w.flags)

  -- A malformed entry is dropped.
  abbrev pub consume_entry :
      (writes : Writes) → Option QueuedReplay → Worker F → Result (Option AnalysisResult) × Worker F
  consume_entry writes none w = (ok none, publish_depth w)
  consume_entry writes (some entry) w =
      observed writes
        (analyze_score float decompress replays extract_features run_detectors writes.rows
          entry.score_id entry.mode w.rows)
        w

  abbrev pub consume_from :
      (writes : Writes) → List Text → Worker F → Result (Option AnalysisResult) × Worker F
  consume_from writes [] w = (ok none, publish_depth w)
  consume_from writes (payload ∷ queue) w =
      consume_entry writes (decode_entry payload) (record w { queue = queue })

  -- The next entry of the queue is popped.
  unfoldable pub consume_once :
      (writes : Writes) → Worker F → Result (Option AnalysisResult) × Worker F
  unfolding analyze_score observe
  consume_once writes w = consume_from writes w.queue w
