-- ===== src/Anticheat/Analysis.antt =====
-- analyze_score of app/services/anticheat/replay_analysis.py with the recorder of
-- app/repositories/score_replay_stats.py, and `observe` of app/services/anticheat/flag_review.py with
-- `record` of app/repositories/anticheat_flags.py. `replays` is what is on disk; `extract_features`
-- and `run_detectors` are floating-point statistics and stand as parameters, which may raise; `owner`
-- is who has the score. The statements that write a row and a flag raise where `Writes` says so.
use bancho_prism_1_0_0_prod.Base.{
  ℕ, List, [], ◌∷◌, Bool, false, not, Option, none, some, ◌==◌, if◌then◌else◌, length, Result, ok,
  err, replay_parse_error, database_error,
}
use bancho_prism_1_0_0_prod.Base.Int.{ℤ, pos, negsuc}
use bancho_prism_1_0_0_prod.Utf8.{Bytes, Text}
use bancho_prism_1_0_0_prod.Replay.Parse.{Replay, parse_replay_frame_data}

abbrev pub same_int : ℤ → ℤ → Bool
same_int (pos m) (pos n) = m == n
same_int (pos m) (negsuc n) = false
same_int (negsuc m) (pos n) = false
same_int (negsuc m) (negsuc n) = m == n

pub record Signal : Type 0 where
  pub code : Text
  pub confidence : ℕ

pub record Report : Type 0 where
  pub flagged : Bool
  pub severity : ℕ
  pub triggered : List Signal

-- AnalysisOutcome, and ReplayAnalysisStatus
pub data Outcome : Type 0 where
  analyzed replay_missing failed : Outcome

pub record AnalysisResult : Type 0 where
  pub score_id : ℤ
  pub mode : ℤ
  pub outcome : Outcome
  pub report : Option Report

-- A row of score_replay_stats, whose status is the outcome; the text of an error is left out.
pub record Row (F : Type 0) : Type 0 where
  pub status : Outcome
  pub mode : ℤ
  pub features : Option F

pub data FlagStatus : Type 0 where
  opened reviewing actioned dismissed : FlagStatus

-- A row of anticheat_flags, less its titles, its evidence and its times.
pub record Flag : Type 0 where
  pub user_id : ℕ
  pub mode : ℤ
  pub status : FlagStatus
  pub severity : ℕ
  pub code : Text
  pub confidence : ℕ
  pub triggered_count : ℕ
  pub resolved_by : Option ℕ

-- Whether the statements of a call that write a row and a flag succeed.
pub record Writes : Type 0 where
  pub rows : Bool
  pub flags : Bool

-- A table with one row for a score.
abbrev pub Table : Type 0 → Type 0
Table A = ℤ → Option A

abbrev pub upsert : {A : Type 0} → ℤ → A → Table A → Table A
upsert key value table k = if same_int key k then some value else table k

-- The features that a row has kept.
abbrev kept_features : {F : Type 0} → Option (Row F) → Option F
kept_features none = none
kept_features (some row) = row.features

-- mark_analyzed, and mark_replay_missing or mark_error, which keep the features of a row.
abbrev pub mark_analyzed : {F : Type 0} → (score_id mode : ℤ) → F → Table (Row F) → Table (Row F)
mark_analyzed score_id mode features table =
    upsert score_id (record { status = analyzed; mode = mode; features = some features }) table

abbrev pub mark : {F : Type 0} → Outcome → (score_id mode : ℤ) → Table (Row F) → Table (Row F)
mark status score_id mode table =
    upsert score_id
      (record { status = status; mode = mode; features = kept_features (table score_id) }) table

-- The row of a flag: what staff decided of an earlier one is kept.
abbrev flag_status : Option Flag → FlagStatus
flag_status none = opened
flag_status (some flag) = flag.status

abbrev flag_resolver : Option Flag → Option ℕ
flag_resolver none = none
flag_resolver (some flag) = flag.resolved_by

abbrev pub record_flag :
    (user_id : ℕ) (top : Signal) → Report → AnalysisResult → Table Flag → Table Flag
record_flag user_id top report result table =
    upsert result.score_id
      (record {
        user_id = user_id;
        mode = result.mode;
        status = flag_status (table result.score_id);
        severity = report.severity;
        code = top.code;
        confidence = top.confidence;
        triggered_count = length report.triggered;
        resolved_by = flag_resolver (table result.score_id);
      })
      table

-- A score without an owner is skipped.
abbrev pub record_for :
    (writable : Bool)
    → Report
    → AnalysisResult
    → Signal
    → Table Flag
    → (owner : Option ℕ) → Result (Table Flag)
record_for writable report result top table none = ok table
record_for writable report result top table (some user_id) =
    if writable then ok (record_flag user_id top report result table) else err database_error

abbrev pub record_top :
    (writable : Bool)
    → Report
    → AnalysisResult
    → List Signal
    → Table Flag
    → (owner : Option ℕ) → Result (Table Flag)
record_top writable report result [] table owner = ok table
record_top writable report result (top ∷ signals) table owner =
    record_for writable report result top table owner

abbrev pub record_report :
    (writable : Bool)
    → AnalysisResult
    → Option Report
    → Table Flag
    → (owner : Option ℕ) → Result (Table Flag)
record_report writable result none table owner = ok table
record_report writable result (some report) table owner =
    if not report.flagged
    then ok table
    else record_top writable report result report.triggered table owner

-- `observe`: the flags then, or what it raises.
unfoldable pub observe :
    (writable : Bool) (owner : ℤ → Option ℕ) → AnalysisResult → Table Flag → Result (Table Flag)
observe writable owner result table =
    record_report writable result result.report table (owner result.score_id)

-- What a write comes to.
abbrev pub recorded : {A : Type 0} → (recordable : Bool) → A → Result A
recorded recordable x = if recordable then ok x else err database_error

module _ {F : Type 0} (float : Text → Option ℕ) (decompress : Bytes → Option Bytes)
    (replays : ℤ → Option Bytes) (extract_features : Replay → Result F)
    (run_detectors : F → Result Report) where
  -- The `try` block; what is raised in the parser or in the extraction leaves it.
  abbrev pub features_of : Result Replay → Result F
  features_of (err e) = err e
  features_of (ok replay) = extract_features replay

  -- The detectors run before the row is written.
  abbrev pub detected :
      (recordable : Bool) (score_id mode : ℤ)
      → F
      → Result Report
      → Table (Row F)
      → Result (AnalysisResult × Table (Row F))
  detected recordable score_id mode features (err e) table = err e
  detected recordable score_id mode features (ok report) table = recorded recordable (
    record { score_id = score_id; mode = mode; outcome = analyzed; report = some report },
    mark_analyzed score_id mode features table,
  )

  -- The result and the table after it; only ReplayParseError is caught.
  abbrev pub analyzed_as :
      (recordable : Bool) (score_id mode : ℤ)
      → Result F
      → Table (Row F)
      → Result (AnalysisResult × Table (Row F))
  analyzed_as recordable score_id mode (ok features) table =
      detected recordable score_id mode features (run_detectors features) table
  analyzed_as recordable score_id mode (err replay_parse_error) table = recorded recordable (
    record { score_id = score_id; mode = mode; outcome = failed; report = none },
    mark failed score_id mode table,
  )
  analyzed_as recordable score_id mode (err e) table = err e

  -- `none` is a replay that is not on disk.
  abbrev pub analyze_file :
      (recordable : Bool) (score_id mode : ℤ)
      → Option Bytes
      → Table (Row F)
      → Result (AnalysisResult × Table (Row F))
  analyze_file recordable score_id mode none table = recorded recordable (
    record { score_id = score_id; mode = mode; outcome = replay_missing; report = none },
    mark replay_missing score_id mode table,
  )
  analyze_file recordable score_id mode (some bytes) table =
      analyzed_as recordable score_id mode
        (features_of (parse_replay_frame_data float decompress mode bytes)) table

  unfoldable pub analyze_score :
      (recordable : Bool) (score_id mode : ℤ)
      → Table (Row F)
      → Result (AnalysisResult × Table (Row F))
  analyze_score recordable score_id mode table =
      analyze_file recordable score_id mode (replays score_id) table
