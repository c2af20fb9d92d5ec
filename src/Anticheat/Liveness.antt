-- ===== src/Anticheat/Liveness.antt =====
-- Every score gets a row: `consume_once` and `backfill_once` of app/services/anticheat/worker.py
-- together.
use bancho_prism_1_0_0_prod.Base.{
  ℕ, ◌*◌, ◌≤◌, ◌<◌, ◌≡◌, refl, sym, subst, arith, List, [], ◌∷◌, ◌++◌, true, false, Result, ◌&&◌,
  ltb, Option, some, length, take, Bool-cases, inl, inr,
}
use bancho_prism_1_0_0_prod.Base.Int.{ℤ, pos}
use bancho_prism_1_0_0_prod.Utf8.{Bytes, Text}
use bancho_prism_1_0_0_prod.Match.{is_none}
use bancho_prism_1_0_0_prod.Replay.Parse.{Replay}
use bancho_prism_1_0_0_prod.Replay.Decimal.{pow10}
use bancho_prism_1_0_0_prod.Anticheat.Queue.{QueuedReplay, decode_entry, decode_entry-encode_entry}
use bancho_prism_1_0_0_prod.Anticheat.Analysis.{Report, Writes, Row, Table}
use bancho_prism_1_0_0_prod.Anticheat.Worker.{
  PendingScore, Worker, unanalyzed, publish_depth, consume_from, consume_once, backfill_once,
}
use bancho_prism_1_0_0_prod.Anticheat.Pages.{IsAscending, take_all}
use bancho_prism_1_0_0_prod.Anticheat.Backfill.{entries, with_entries, backfill_once_enqueues}
use bancho_prism_1_0_0_prod.Anticheat.Consume.{
  HasRow, Grows, AreAnalyzable, consume, Consumed, consume_entry-Consumed,
}

-- Every score that an entry of the queue names has a row.
abbrev AllNamed : {F : Type 0} → Table (Row F) → List Text → Type 0
AllNamed rows [] = Unit
AllNamed rows (payload ∷ queue) =
    ((entry : QueuedReplay) → decode_entry payload ≡ some entry → HasRow rows entry.score_id)
    × AllNamed rows queue

-- Every score of the table has a row.
abbrev pub AllRows : {F : Type 0} → Table (Row F) → List PendingScore → Type 0
AllRows rows [] = Unit
AllRows rows (p ∷ scores) = HasRow rows (pos p.score_id) × AllRows rows scores

-- Ids and modes of at most 20 digits.
abbrev pub AreShort : List PendingScore → Type 0
AreShort [] = Unit
AreShort (p ∷ scores) = ((p.score_id < pow10 20) × (p.mode < pow10 20)) × AreShort scores

AllNamed-append :
    {F : Type 0} (rows : Table (Row F)) (xs ys : List Text)
    → AllNamed rows (xs ++ ys)
    → AllNamed rows ys
AllNamed-append rows [] ys h = h
AllNamed-append rows (x ∷ xs) ys h = AllNamed-append rows xs ys h.1

moved :
    {F : Type 0} (rows : Table (Row F)) (xs ys : List PendingScore)
    → xs ≡ ys
    → AllNamed rows (entries xs)
    → AllNamed rows (entries ys)
moved rows xs ys e h = rw (← e) h

AllNamed-AllRows :
    {F : Type 0} (before later : Table (Row F)) (b : ℕ) (scores : List PendingScore)
    → IsAscending b scores
    → AreShort scores
    → Grows before later
    → AllNamed later (entries (unanalyzed before 0 scores))
    → AllRows later scores
unfolding IsAscending
AllNamed-AllRows before later b [] rising short grows named = tt
AllNamed-AllRows before later b (p ∷ scores) rising short grows named =
    elim (Bool-cases (ltb 0 p.score_id && is_none (before (pos p.score_id)))) [
      | inl due ↦
          let listed = rw due at named in
          let rest =
            AllNamed-AllRows before later p.score_id scores rising.1 short.1 grows listed.1 in
          (listed.0 _ (decode_entry-encode_entry p.score_id p.mode short.0.0 short.0.1), rest)
      | inr done ↦
          let listed = rw done at named in
          let rest =
            AllNamed-AllRows before later p.score_id scores rising.1 short.1 grows listed in
          let has_row : is_none (before (pos p.score_id)) ≡ false =
            ground (arith, done, rising.0) in
          (grows (pos p.score_id) has_row, rest)
    ]

module _ {F : Type 0} (float : Text → Option ℕ) (decompress : Bytes → Option Bytes)
    (replays : ℤ → Option Bytes) (extract_features : Replay → Result F)
    (run_detectors : F → Result Report) (owner : ℤ → Option ℕ) where
  -- As many calls of `consume_once` as the list is long; an exception costs its own call only.
  abbrev pub drain : (calls : List Writes) → Worker F → Worker F
  drain [] w = w
  drain (writes ∷ more) w =
      drain more (consume float decompress replays extract_features run_detectors owner writes w)

  -- The writes of rows succeed, those of flags or not.
  abbrev pub AllRecord : List Writes → Type 0
  AllRecord [] = Unit
  AllRecord (writes ∷ more) = (writes.rows ≡ true) × AllRecord more

  abbrev pub CanAnalyze : Type 0
  CanAnalyze = AreAnalyzable float decompress replays extract_features run_detectors

  from-Grows :
      CanAnalyze
      → (writes : Writes) (queue : List Text) (w : Worker F) → writes.rows ≡ true
      → Grows w.rows
          (consume_from float decompress replays extract_features run_detectors owner writes queue
            w).1.rows
  from-Grows total writes [] w h = λ k there. there
  from-Grows total writes (payload ∷ queue) w h =
      (consume_entry-Consumed float decompress replays extract_features run_detectors owner total
        writes (decode_entry payload) (record w { queue = queue }) h).grows

  drain-Grows :
      CanAnalyze
      → (calls : List Writes) (w : Worker F) → AllRecord calls
      → Grows w.rows (drain calls w).rows
  unfolding consume_once
  drain-Grows total [] w h = λ k there. there
  drain-Grows total (writes ∷ more) w h = λ k there.
      drain-Grows total more
        (consume float decompress replays extract_features run_detectors owner writes w) h.1 k
        (from-Grows total writes w.queue w h.0 k there)

  listed-Consumed :
      CanAnalyze
      → (writes : Writes) (w : Worker F) (payload : Text) (queue : List Text) → writes.rows ≡ true
      → w.queue ≡ payload ∷ queue
      → Consumed float decompress replays extract_features run_detectors owner
          (decode_entry payload)
          (record w { queue = queue })
          (consume float decompress replays extract_features run_detectors owner writes w)
  unfolding consume_once
  listed-Consumed total writes w payload queue h e =
      subst
        (λ q.
          Consumed float decompress replays extract_features run_detectors owner
            (decode_entry payload) (record w { queue = queue })
            (consume_from float decompress replays extract_features run_detectors owner writes q
              w).1)
        (sym e)
        (consume_entry-Consumed float decompress replays extract_features run_detectors owner total
          writes (decode_entry payload) (record w { queue = queue }) h)

  drain-AllNamed :
      CanAnalyze
      → (calls : List Writes) (w : Worker F) (queue : List Text) → AllRecord calls
      → w.queue ≡ queue
      → length queue ≤ length calls
      → AllNamed (drain calls w).rows queue
  drain-AllNamed total calls w [] r e h = tt
  drain-AllNamed total [] w (payload ∷ queue) r e h = absurd (omega arith)
  drain-AllNamed total (writes ∷ more) w (payload ∷ queue) r e h =
      let c = listed-Consumed total writes w payload queue r.0 e in
      let next = consume float decompress replays extract_features run_detectors owner writes w in
      (
        λ entry d. drain-Grows total more next r.1 entry.score_id (c.has_row entry d),
        drain-AllNamed total more next queue r.1 c.queue_kept (omega arith),
      )

  -- Whatever is on the queue and in the tables, and whichever replays are missing or do not decode:
  -- after a pass of `backfill_once` that has room for all scores without a row, and as many calls of
  -- `consume_once` as the queue has entries then, every score has a row, whichever of the calls failed
  -- to write a flag. The conditions are that the extraction and the detectors raise nothing on the
  -- replays that decode, that the writes of rows succeed, that the scores stand in the order of their
  -- ids, which are above 0, and that no id or mode has more than 20 digits.
  pub drain-backfill_once :
      (max_batches batch_size : ℕ) (w : Worker F) (calls : List Writes)
      → CanAnalyze
      → AllRecord calls
      → 0 < batch_size
      → IsAscending 0 w.scores
      → AreShort w.scores
      → length (unanalyzed w.rows 0 w.scores) ≤ max_batches * batch_size
      → length (backfill_once max_batches batch_size w).1.queue ≤ length calls
      → AllRows (drain calls (backfill_once max_batches batch_size w).1).rows w.scores
  drain-backfill_once max_batches batch_size w calls total r some_size rising short room enough =
      let all = unanalyzed w.rows 0 w.scores in
      let due = take (max_batches * batch_size) all in
      let filled = publish_depth (with_entries due w) in
      let same : backfill_once max_batches batch_size w ≡ (length due, filled) =
        backfill_once_enqueues max_batches batch_size w some_size rising in
      let complete : due ≡ all = take_all (max_batches * batch_size) all room in
      let named =
        drain-AllNamed total calls filled (w.queue ++ entries due) r refl (rw same at enough) in
      rw same (
        AllNamed-AllRows w.rows (drain calls filled).rows 0 w.scores rising short
          (drain-Grows total calls filled r)
          (moved (drain calls filled).rows due all complete
            (AllNamed-append (drain calls filled).rows w.queue (entries due) named)))
