-- ===== src/Anticheat/Raises.antt =====
-- What `consume_once` of app/services/anticheat/worker.py leaves behind when the extraction of features
-- raises on a replay that decodes.
use bancho_prism_1_0_0_prod.Base.{
  ℕ, ◌≡◌, ◌≢◌, refl, ◌∙◌, ap, List, ◌∷◌, Bool, Option, some, Error, index_error, struct_error,
  overflow_error, value_error, unicode_error, assertion_error, key_error, replay_parse_error,
  database_error, Result, ok, err,
}
use bancho_prism_1_0_0_prod.Base.Int.{ℤ}
use bancho_prism_1_0_0_prod.Utf8.{Bytes, Text}
use bancho_prism_1_0_0_prod.Replay.Parse.{Replay, parse_replay_frame_data}
use bancho_prism_1_0_0_prod.Anticheat.Queue.{QueuedReplay, decode_entry}
use bancho_prism_1_0_0_prod.Anticheat.Analysis.{
  Report, Writes, Row, Table, analyzed_as, analyze_score,
}
use bancho_prism_1_0_0_prod.Anticheat.Worker.{
  Worker, consume_once, consume_from, consume_entry, observed,
}

module _ {F : Type 0} (float : Text → Option ℕ) (decompress : Bytes → Option Bytes)
    (replays : ℤ → Option Bytes) (extract_features : Replay → Result F)
    (run_detectors : F → Result Report) (owner : ℤ → Option ℕ) where
  uncaught :
      (e : Error) (recordable : Bool) (k mode : ℤ) (rows : Table (Row F))
      → e ≢ replay_parse_error
      → analyzed_as float decompress replays extract_features run_detectors recordable k mode
          (err e)
          rows
        ≡ err e
  uncaught index_error recordable k mode rows h = refl
  uncaught struct_error recordable k mode rows h = refl
  uncaught overflow_error recordable k mode rows h = refl
  uncaught value_error recordable k mode rows h = refl
  uncaught unicode_error recordable k mode rows h = refl
  uncaught assertion_error recordable k mode rows h = refl
  uncaught key_error recordable k mode rows h = refl
  uncaught replay_parse_error recordable k mode rows h = absurd (h refl)
  uncaught database_error recordable k mode rows h = refl

  -- The entry of a replay that decodes, on which the extraction of features raises anything but
  -- ReplayParseError, is consumed: the call raises the same, the entry is gone from the queue, and
  -- nothing else has changed, so that the score has no row where it had none.
  pub consume_once_raises :
      (writes : Writes) (w : Worker F) (payload : Text) (queue : List Text) (entry : QueuedReplay)
      (bytes : Bytes) (replay : Replay) (e : Error)
      → w.queue ≡ payload ∷ queue
      → decode_entry payload ≡ some entry
      → replays entry.score_id ≡ some bytes
      → parse_replay_frame_data float decompress entry.mode bytes ≡ ok replay
      → extract_features replay ≡ err e
      → e ≢ replay_parse_error
      → consume_once float decompress replays extract_features run_detectors owner writes w
        ≡ (err e, record w { queue = queue })
  unfolding consume_once
  consume_once_raises writes w payload queue entry bytes replay e next d file parsed raised other =
      let popped = record w { queue = queue } in
      let analysis : analyze_score float decompress replays extract_features run_detectors
            writes.rows entry.score_id entry.mode w.rows
          ≡ err e =
        unfold analyze_score in
        rw (file, parsed, raised) (uncaught e writes.rows entry.score_id entry.mode w.rows other) in
      ap
        (λ q. consume_from float decompress replays extract_features run_detectors owner writes q w)
        next
      ∙ ap
          (λ x.
            consume_entry float decompress replays extract_features run_detectors owner writes x
              popped)
          d
      ∙ ap
          (λ r.
            observed float decompress replays extract_features run_detectors owner writes r popped)
          analysis
