-- ===== src/Anticheat/Review.antt =====
-- `resolve_flag` of app/services/anticheat/flag_review_queue.py with `resolve` of
-- app/repositories/anticheat_flags.py, between the calls of the worker. A note is left out.
use bancho_prism_1_0_0_prod.Base.{
  ℕ, Result, ◌≡◌, refl, ◌∙◌, ap, List, [], ◌∷◌, ◌++◌, Bool, true, false, Option, none, some,
  if◌then◌else◌, Bool-cases, Option-cases, inl, inr,
}
use bancho_prism_1_0_0_prod.Base.Int.{ℤ}
use bancho_prism_1_0_0_prod.Utf8.{Bytes, Text}
use bancho_prism_1_0_0_prod.Replay.Parse.{Replay}
use bancho_prism_1_0_0_prod.Anticheat.Analysis.{
  Report, Writes, FlagStatus, opened, reviewing, actioned, dismissed, Flag, Table, same_int, upsert,
}
use bancho_prism_1_0_0_prod.Anticheat.Worker.{Worker}
use bancho_prism_1_0_0_prod.Anticheat.Consume.{consume}
use bancho_prism_1_0_0_prod.Anticheat.Flags.{same_int-eq, consume-KeepsStatus}

-- An entry of the moderation log.
pub record LogEntry : Type 0 where
  pub staff : ℕ
  pub to : ℕ
  pub status : FlagStatus
  pub score_id : ℤ

abbrev pub is_terminal : FlagStatus → Bool
is_terminal opened = false
is_terminal reviewing = false
is_terminal actioned = true
is_terminal dismissed = true

abbrev pub resolved : FlagStatus → (resolved_by : ℕ) → Flag → Flag
resolved status resolved_by flag = record flag { status = status; resolved_by = some resolved_by }

-- The update of a row, which is nothing where there is none.
abbrev pub resolve_row :
    (score_id : ℤ) → FlagStatus → (resolved_by : ℕ) → Option Flag → Table Flag → Table Flag
resolve_row score_id status resolved_by none table = table
resolve_row score_id status resolved_by (some flag) table =
    upsert score_id (resolved status resolved_by flag) table

abbrev pub resolve : (score_id : ℤ) → FlagStatus → (resolved_by : ℕ) → Table Flag → Table Flag
resolve score_id status resolved_by table =
    resolve_row score_id status resolved_by (table score_id) table

abbrev pub logged : (score_id : ℤ) → FlagStatus → ℕ → Option Flag → List LogEntry → List LogEntry
logged score_id status resolved_by none logs = logs
logged score_id status resolved_by (some flag) logs =
    if is_terminal status
    then logs
      ++ record { staff = resolved_by; to = flag.user_id; status = status; score_id = score_id }
        ∷ []
    else logs

-- The flag then, if there is one, the table and the log.
unfoldable pub resolve_flag :
    (score_id : ℤ)
    → FlagStatus
    → (resolved_by : ℕ) → Table Flag
    → List LogEntry
    → Option Flag × (Table Flag × List LogEntry)
resolve_flag score_id status resolved_by table logs =
    let later = resolve score_id status resolved_by table in
    (later score_id, (later, logged score_id status resolved_by (later score_id) logs))

-- A call of the worker, whose writes succeed or not, or a decision of staff.
pub data Call : Type 0 where
  consumes : Writes → Call
  resolves : (score_id : ℤ) → FlagStatus → (resolved_by : ℕ) → Call

-- The last decision about a score.
abbrev pub decided : ℤ → List Call → FlagStatus × Option ℕ → FlagStatus × Option ℕ
decided k [] d = d
decided k (consumes writes ∷ calls) d = decided k calls d
decided k (resolves score_id status resolved_by ∷ calls) d =
    decided k calls (if same_int score_id k then (status, some resolved_by) else d)

abbrev pub decision : Flag → FlagStatus × Option ℕ
decision flag = (flag.status, flag.resolved_by)

resolve-decision :
    (score_id : ℤ) (status : FlagStatus) (resolved_by : ℕ) (table : Table Flag) (k : ℤ) (f : Flag)
    → table k ≡ some f
    → (g : Flag) × (resolve score_id status resolved_by table k ≡ some g)
      × (decision g ≡ (if same_int score_id k then (status, some resolved_by) else decision f))
resolve-decision score_id status resolved_by table k f h = elim (Bool-cases (same_int score_id k)) [
  | inl here ↦
      let same : table score_id ≡ some f = ap table (same_int-eq score_id k here) ∙ h in
      rw (here, same) (resolved status resolved_by f, rw here refl, refl)
  | inr other ↦ elim (Option-cases (table score_id)) [
    | inl missing ↦ rw (other, missing) (f, h, refl)
    | inr (flag, found) ↦ rw (other, found) (f, rw other h, refl)
  ]
]

module _ {F : Type 0} (float : Text → Option ℕ) (decompress : Bytes → Option Bytes)
    (replays : ℤ → Option Bytes) (extract_features : Replay → Result F)
    (run_detectors : F → Result Report) (owner : ℤ → Option ℕ) where
  abbrev pub call : Call → Worker F × List LogEntry → Worker F × List LogEntry
  call (consumes writes) (w, logs) =
      (consume float decompress replays extract_features run_detectors owner writes w, logs)
  call (resolves score_id status resolved_by) (w, logs) =
      let (flag, (flags, entries)) = resolve_flag score_id status resolved_by w.flags logs in
      (record w { flags = flags }, entries)

  abbrev pub run : List Call → Worker F × List LogEntry → Worker F × List LogEntry
  run [] s = s
  run (c ∷ calls) s = run calls (call c s)

  -- Whatever replays the worker analyses and flags again, and whatever staff decide in between, in
  -- any order: a flag that is in the table stays there, with the status and the reviewer of the last
  -- decision about its score, or those it had if there was none.
  pub run-decided :
      (calls : List Call) (s : Worker F × List LogEntry) (k : ℤ) (f : Flag)
      → s.0.flags k ≡ some f
      → (g : Flag) × ((run calls s).0.flags k ≡ some g)
        × (decision g ≡ decided k calls (decision f))
  unfolding resolve_flag
  run-decided [] s k f h = (f, h, refl)
  run-decided (consumes writes ∷ calls) (w, logs) k f h =
      let (g, there, status, by) =
        consume-KeepsStatus float decompress replays extract_features run_detectors owner writes w k
          f h in
      let (z, last, d) = run-decided calls (call (consumes writes) (w, logs)) k g there in
      let same : decision g ≡ decision f = cc in (z, last, d ∙ ap (decided k calls) same)
  run-decided (resolves score_id status resolved_by ∷ calls) (w, logs) k f h =
      let (g, there, now) = resolve-decision score_id status resolved_by w.flags k f h in
      let (z, last, d) =
        run-decided calls (call (resolves score_id status resolved_by) (w, logs)) k g there in
      (z, last, d ∙ ap (decided k calls) now)
