-- ===== src/Anticheat/Consume.antt =====
-- What `consume_once` of app/services/anticheat/worker.py does with an entry of the queue: the score
-- that it names has a row in score_replay_stats afterwards.
use bancho_prism_1_0_0_prod.Base.{
  ℕ, ◌≡◌, refl, arith, true, false, Option, none, some, Bool-cases, Result-cases, inl, inr, Result,
  ok, err, replay_parse_error,
}
use bancho_prism_1_0_0_prod.Base.Int.{ℤ, pos, negsuc}
use bancho_prism_1_0_0_prod.Utf8.{Bytes, Text}
use bancho_prism_1_0_0_prod.Match.{is_none}
use bancho_prism_1_0_0_prod.Replay.Parse.{Replay, parse_replay_frame_data}
use bancho_prism_1_0_0_prod.Replay.Errors.{parse_osr-raises}
use bancho_prism_1_0_0_prod.Anticheat.Queue.{QueuedReplay}
use bancho_prism_1_0_0_prod.Anticheat.Analysis.{
  Report, AnalysisResult, Writes, Row, Flag, Table, same_int, upsert, observe, features_of,
  analyzed_as, analyze_file, analyze_score,
}
use bancho_prism_1_0_0_prod.Anticheat.Worker.{
  Worker, consume_once, consume_entry, observed, settled,
}

-- The score has a row.
abbrev pub HasRow : {F : Type 0} → Table (Row F) → ℤ → Type 0
HasRow rows score_id = is_none (rows score_id) ≡ false

same_int_self : (z : ℤ) → same_int z z ≡ true
same_int_self (pos n) = ground arith
same_int_self (negsuc n) = ground arith

-- No score of the one table loses its row in the other.
abbrev pub Grows : {F : Type 0} → Table (Row F) → Table (Row F) → Type 0
Grows before later = (k : ℤ) → HasRow before k → HasRow later k

pub upsert-HasRow :
    {F : Type 0} (k : ℤ) (row : Row F) (rows : Table (Row F)) → HasRow (upsert k row rows) k
upsert-HasRow k row rows = rw (same_int_self k) refl

upsert-Grows :
    {F : Type 0} (k : ℤ) (row : Row F) (rows : Table (Row F)) → Grows rows (upsert k row rows)
upsert-Grows k row rows j h = elim (Bool-cases (same_int k j)) [
  | inl here ↦ rw here refl
  | inr other ↦ rw other h
]

module _ {F : Type 0} (float : Text → Option ℕ) (decompress : Bytes → Option Bytes)
    (replays : ℤ → Option Bytes) (extract_features : Replay → Result F)
    (run_detectors : F → Result Report) where
  -- Of every replay on disk that decodes, the extraction and the detectors return.
  abbrev pub AreAnalyzable : Type 0
  AreAnalyzable =
      (k mode : ℤ) (bytes : Bytes) (replay : Replay)
      → replays k ≡ some bytes
      → parse_replay_frame_data float decompress mode bytes ≡ ok replay
      → (features : F) × (report : Report) × (extract_features replay ≡ ok features)
        × (run_detectors features ≡ ok report)

  -- An analysis that returns, and writes the score's row.
  abbrev Analyzes : ℤ → Table (Row F) → Result (AnalysisResult × Table (Row F)) → Type 0
  Analyzes k rows r =
      (result : AnalysisResult) × (later : Table (Row F)) × (r ≡ ok (result, later))
      × HasRow later k
      × Grows rows later

  parsed-Analyzes :
      AreAnalyzable
      → (k mode : ℤ) (bytes : Bytes) (rows : Table (Row F)) → replays k ≡ some bytes
      → Analyzes k rows (
          analyzed_as float decompress replays extract_features run_detectors true k mode
            (features_of float decompress replays extract_features run_detectors
              (parse_replay_frame_data float decompress mode bytes))
            rows)
  parsed-Analyzes total k mode bytes rows file =
      elim (Result-cases (parse_replay_frame_data float decompress mode bytes)) [
        | inl (replay, parsed) ↦
            let (features, report, extracts, detects) = total k mode bytes replay file parsed in
            rw (parsed, extracts, detects)
              (_, _, refl, upsert-HasRow k _ rows, upsert-Grows k _ rows)
        | inr (e, raised) ↦
            let known : e ≡ replay_parse_error =
              parse_osr-raises float decompress bytes mode e (inr raised) in
            rw (raised, known) (_, _, refl, upsert-HasRow k _ rows, upsert-Grows k _ rows)
      ]

  file-Analyzes :
      AreAnalyzable
      → (k mode : ℤ) (rows : Table (Row F)) (file : Option Bytes) → replays k ≡ file
      → Analyzes k rows (
          analyze_file float decompress replays extract_features run_detectors true k mode file
            rows)
  file-Analyzes total k mode rows none e =
      (_, _, refl, upsert-HasRow k _ rows, upsert-Grows k _ rows)
  file-Analyzes total k mode rows (some bytes) e = parsed-Analyzes total k mode bytes rows e

  score-Analyzes :
      AreAnalyzable
      → (k mode : ℤ) (rows : Table (Row F))
      → Analyzes k rows
          (analyze_score float decompress replays extract_features run_detectors true k mode rows)
  unfolding analyze_score
  score-Analyzes total k mode rows = file-Analyzes total k mode rows (replays k) refl

  module _ (owner : ℤ → Option ℕ) where
    abbrev pub consume : Writes → Worker F → Worker F
    consume writes w =
        (consume_once float decompress replays extract_features run_detectors owner writes w).1

    settled-rows :
        (result : AnalysisResult) (rows : Table (Row F)) (w : Worker F) (r : Result (Table Flag))
        → let after =
            (settled float decompress replays extract_features run_detectors owner result rows w
              r).1 in
          (after.rows ≡ rows) × (after.queue ≡ w.queue) × (after.scores ≡ w.scores)
    settled-rows result rows w (ok flags) = (refl, refl, refl)
    settled-rows result rows w (err e) = (refl, refl, refl)

    -- What a call of the consumer has done with an entry.
    pub record Consumed (entry : Option QueuedReplay) (w after : Worker F) : Type 0 where
      pub queue_kept : after.queue ≡ w.queue
      pub scores_kept : after.scores ≡ w.scores
      pub grows : Grows w.rows after.rows
      pub has_row : (e : QueuedReplay) → entry ≡ some e → HasRow after.rows e.score_id

    -- The score that an entry names has a row, whether or not the flag can be written.
    pub consume_entry-Consumed :
        AreAnalyzable
        → (writes : Writes) (entry : Option QueuedReplay) (w : Worker F) → writes.rows ≡ true
        → Consumed entry w
            (consume_entry float decompress replays extract_features run_detectors owner writes
              entry w).1
    consume_entry-Consumed total writes none w h = record {
      queue_kept = refl;
      scores_kept = refl;
      grows = λ k h. h;
      has_row = λ e h. absurd (ground (arith, h));
    }
    consume_entry-Consumed total writes (some entry) w h =
        let (result, later, e, has_row, grows) =
          score-Analyzes total entry.score_id entry.mode w.rows in
        let (rows, queue, scores) =
          settled-rows result later w (observe writes.flags owner result w.flags) in
        rw (h, e, observed)
          (record {
            queue_kept = queue;
            scores_kept = scores;
            grows = λ k h. rw rows (grows k h);
            has_row = λ other h. let same : entry ≡ other = cc in rw (rows, ← same) has_row;
          })
