-- ===== src/Anticheat/Flags.antt =====
-- What the calls of `consume_once` of app/services/anticheat/worker.py make of the flags that staff
-- review: app/services/anticheat/flag_review.py and `record` of app/repositories/anticheat_flags.py.
use bancho_prism_1_0_0_prod.Base.{
  ℕ, ◌≡◌, refl, ◌∙◌, ap, List, [], ◌∷◌, Bool, true, false, Option, none, some, ==_iff, Bool-cases,
  inl, inr, Result, ok, err, database_error,
}
use bancho_prism_1_0_0_prod.Base.Int.{ℤ, pos, negsuc}
use bancho_prism_1_0_0_prod.Utf8.{Bytes, Text}
use bancho_prism_1_0_0_prod.Replay.Parse.{Replay, parse_replay_frame_data}
use bancho_prism_1_0_0_prod.Anticheat.Queue.{QueuedReplay, decode_entry}
use bancho_prism_1_0_0_prod.Anticheat.Analysis.{
  Signal, Report, AnalysisResult, Writes, analyzed, Row, Flag, Table, same_int, record_flag,
  record_for, record_top, record_report, observe, mark_analyzed, analyze_score,
}
use bancho_prism_1_0_0_prod.Anticheat.Worker.{
  Worker, settled, observed, consume_entry, consume_from, consume_once,
}
use bancho_prism_1_0_0_prod.Anticheat.Consume.{HasRow, consume, upsert-HasRow}

pub same_int-eq : (y z : ℤ) → same_int y z ≡ true → y ≡ z
same_int-eq (pos m) (pos n) h = ap pos ((==_iff m n).0 h)
same_int-eq (pos m) (negsuc n) h = cc
same_int-eq (negsuc m) (pos n) h = cc
same_int-eq (negsuc m) (negsuc n) h = ap negsuc ((==_iff m n).0 h)

-- A flag that is there stays, with its status and the one who resolved it.
abbrev pub KeepsStatus : Table Flag → Table Flag → Type 0
KeepsStatus before later =
    (k : ℤ) (f : Flag)
    → before k ≡ some f
    → (g : Flag) × (later k ≡ some g) × (g.status ≡ f.status) × (g.resolved_by ≡ f.resolved_by)

KeepsStatus-refl : (flags : Table Flag) → KeepsStatus flags flags
KeepsStatus-refl flags k f h = (f, h, refl, refl)

record_flag-KeepsStatus :
    (user_id : ℕ) (top : Signal) (report : Report) (result : AnalysisResult) (flags : Table Flag)
    → KeepsStatus flags (record_flag user_id top report result flags)
record_flag-KeepsStatus user_id top report result flags k f h =
    elim (Bool-cases (same_int result.score_id k)) [
      | inl here ↦
          let same : flags result.score_id ≡ some f = ap flags (same_int-eq _ k here) ∙ h in
          rw (here, same) (_, refl, refl, refl)
      | inr other ↦ rw other (f, h, refl, refl)
    ]

-- What the writing of a flag comes to keeps the flags that are there.
abbrev Keeps : Table Flag → Result (Table Flag) → Type 0
Keeps flags (ok later) = KeepsStatus flags later
Keeps flags (err e) = Unit

record_for-Keeps :
    (writable : Bool) (report : Report) (result : AnalysisResult) (top : Signal)
    (flags : Table Flag) (owner : Option ℕ)
    → Keeps flags (record_for writable report result top flags owner)
record_for-Keeps writable report result top flags none = KeepsStatus-refl flags
record_for-Keeps true report result top flags (some user_id) =
    record_flag-KeepsStatus user_id top report result flags
record_for-Keeps false report result top flags (some user_id) = tt

record_top-Keeps :
    (writable : Bool) (report : Report) (result : AnalysisResult) (signals : List Signal)
    (flags : Table Flag) (owner : Option ℕ)
    → Keeps flags (record_top writable report result signals flags owner)
record_top-Keeps writable report result [] flags owner = KeepsStatus-refl flags
record_top-Keeps writable report result (top ∷ signals) flags owner =
    record_for-Keeps writable report result top flags owner

record_report-Keeps :
    (writable : Bool) (result : AnalysisResult) (report : Option Report) (flags : Table Flag)
    (owner : Option ℕ)
    → Keeps flags (record_report writable result report flags owner)
record_report-Keeps writable result none flags owner = KeepsStatus-refl flags
record_report-Keeps writable result (some report) flags owner = elim (Bool-cases report.flagged) [
  | inl yes_flag ↦
      rw yes_flag (record_top-Keeps writable report result report.triggered flags owner)
  | inr no_flag ↦ rw no_flag (KeepsStatus-refl flags)
]

module _ {F : Type 0} (float : Text → Option ℕ) (decompress : Bytes → Option Bytes)
    (replays : ℤ → Option Bytes) (extract_features : Replay → Result F)
    (run_detectors : F → Result Report) (owner : ℤ → Option ℕ) where
  settled-KeepsStatus :
      (result : AnalysisResult) (rows : Table (Row F)) (w : Worker F) (r : Result (Table Flag))
      → Keeps w.flags r
      → KeepsStatus w.flags
          (settled float decompress replays extract_features run_detectors owner result rows w
            r).1.flags
  settled-KeepsStatus result rows w (ok flags) h = h
  settled-KeepsStatus result rows w (err e) h = KeepsStatus-refl w.flags

  observed-KeepsStatus :
      (writes : Writes) (r : Result (AnalysisResult × Table (Row F))) (w : Worker F)
      → KeepsStatus w.flags
          (observed float decompress replays extract_features run_detectors owner writes r
            w).1.flags
  observed-KeepsStatus writes (err e) w = KeepsStatus-refl w.flags
  observed-KeepsStatus writes (ok (result, rows)) w =
      settled-KeepsStatus result rows w (observe writes.flags owner result w.flags) (
        unfold observe in
        record_report-Keeps writes.flags result result.report w.flags (owner result.score_id))

  consume_entry-KeepsStatus :
      (writes : Writes) (entry : Option QueuedReplay) (w : Worker F)
      → KeepsStatus w.flags
          (consume_entry float decompress replays extract_features run_detectors owner writes entry
            w).1.flags
  consume_entry-KeepsStatus writes none w = KeepsStatus-refl w.flags
  consume_entry-KeepsStatus writes (some entry) w = observed-KeepsStatus writes _ w

  consume_from-KeepsStatus :
      (writes : Writes) (queue : List Text) (w : Worker F)
      → KeepsStatus w.flags
          (consume_from float decompress replays extract_features run_detectors owner writes queue
            w).1.flags
  consume_from-KeepsStatus writes [] w = KeepsStatus-refl w.flags
  consume_from-KeepsStatus writes (payload ∷ queue) w =
      consume_entry-KeepsStatus writes (decode_entry payload) (record w { queue = queue })

  -- A call of `consume_once` keeps what staff decided of every flag that is there.
  pub consume-KeepsStatus :
      (writes : Writes) (w : Worker F)
      → KeepsStatus w.flags
          (consume float decompress replays extract_features run_detectors owner writes w).flags
  unfolding consume_once
  consume-KeepsStatus writes w = consume_from-KeepsStatus writes w.queue w

  -- An entry whose replay decodes to a flagged report with a signal, for a score with an owner, is
  -- consumed while flags cannot be written, and rows can: the call raises the database's error with
  -- the entry gone from the queue, no flag recorded, and the score's row written, so that the score
  -- counts as done.
  pub consume_once_loses_flag :
      (w : Worker F) (payload : Text) (queue : List Text) (entry : QueuedReplay) (bytes : Bytes)
      (replay : Replay) (features : F) (report : Report) (user_id : ℕ) (top : Signal)
      (signals : List Signal)
      → w.queue ≡ payload ∷ queue
      → decode_entry payload ≡ some entry
      → replays entry.score_id ≡ some bytes
      → parse_replay_frame_data float decompress entry.mode bytes ≡ ok replay
      → extract_features replay ≡ ok features
      → run_detectors features ≡ ok report
      → report.flagged ≡ true
      → report.triggered ≡ top ∷ signals
      → owner entry.score_id ≡ some user_id
      → let r =
          consume_once float decompress replays extract_features run_detectors owner
            (record { rows = true; flags = false })
            w in
        (r.0 ≡ err database_error)
        × (r.1.queue ≡ queue)
        × (r.1.flags ≡ w.flags)
        × HasRow r.1.rows entry.score_id
  unfolding consume_once
  consume_once_loses_flag w payload queue entry bytes replay features report user_id top signals e d
        file parsed extracts detects flagged triggered owned =
      let popped = record w { queue = queue } in
      let writes : Writes = record { rows = true; flags = false } in
      let result : AnalysisResult = record {
        score_id = entry.score_id;
        mode = entry.mode;
        outcome = analyzed;
        report = some report;
      } in
      let rows = mark_analyzed entry.score_id entry.mode features w.rows in
      let analysis : analyze_score float decompress replays extract_features run_detectors true
            entry.score_id entry.mode w.rows
          ≡ ok (result, rows) =
        unfold analyze_score in rw (file, parsed, extracts, detects) refl in
      let raised : observe false owner result w.flags ≡ err database_error =
        unfold observe in rw (flagged, triggered, owned) refl in
      let call : consume_once float decompress replays extract_features run_detectors owner writes w
          ≡ (err database_error, record popped { rows = rows }) =
        ap
          (λ q.
            consume_from float decompress replays extract_features run_detectors owner writes q w)
          e
        ∙ ap
            (λ x.
              consume_entry float decompress replays extract_features run_detectors owner writes x
                popped)
            d
        ∙ ap
            (λ r.
              observed float decompress replays extract_features run_detectors owner writes r
                popped)
            analysis
        ∙ ap
            (settled float decompress replays extract_features run_detectors owner result rows
              popped)
            raised in
      rw call (refl, refl, refl, upsert-HasRow entry.score_id _ w.rows)
