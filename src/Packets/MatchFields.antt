-- ===== src/Packets/MatchFields.antt =====
-- The fields of a match on the wire, one by one: what `write_match` of app/packets.py writes of each,
-- `read_match` reads back.
use bancho_prism_1_0_0_prod.Base.{
  ℕ, zero, suc, ◌^◌, ◌<◌, ◌≡◌, ◌∙◌, refl, List, [], ◌∷◌, map, Bool, true, false, Option, none, some,
  arith, if◌then◌else◌, length, Result, ok, err, Error, assertion_error, value_error, lt→ltb,
  Bool-cases, Option-cases, inl, inr,
}
use bancho_prism_1_0_0_prod.Base.Int.{ℤ, pos, negsuc}
use bancho_prism_1_0_0_prod.Utf8.{Bytes, Text, decode}
use bancho_prism_1_0_0_prod.Utf8.RoundTrip.{IsText}
use bancho_prism_1_0_0_prod.Match.{
  Match, Slot, SlotStatus, opened, locked, not_ready, ready, no_map, playing, complete, quit,
  status_value, team_value, win_condition_value, team_type_value,
}
use bancho_prism_1_0_0_prod.Match.Validity.{has_player}
use bancho_prism_1_0_0_prod.Match.Seats.{All}
use bancho_prism_1_0_0_prod.Packets.Bytes.{to_bytes}
use bancho_prism_1_0_0_prod.Packets.Reader.{
  pure, ◌>>=◌, read_i8, read_i32, read_string, read_uleb128, read_slice,
}
use bancho_prism_1_0_0_prod.Packets.Writer.{write_all, pack_bool}
use bancho_prism_1_0_0_prod.Packets.WriteMatch.{
  write_passwd, write_player, write_byte, write_slot_mods, to_bytes_int,
}
use bancho_prism_1_0_0_prod.Packets.MatchData.{
  MultiplayerMatch, read_times, read_flag, read_slot_ids, read_slot_mods, has_player_bits,
}
use bancho_prism_1_0_0_prod.Packets.Reads.{
  Reads, Reads-bind, Reads-map, Field-ok, Field-map, Field-skip, Field-err, Reads-pure, Field,
  Field-bind, Field-pure, signed_byte, read_i8-Reads, read_i8-Field, read_i32-Field_unsigned,
}
use bancho_prism_1_0_0_prod.Packets.Strings.{write_string-Field}

-- The ids that are sent: those of the players in slots whose status has one.
abbrev pub sent_ids : List Slot → List ℤ
sent_ids [] = []
sent_ids (s ∷ slots) =
    let rest = sent_ids slots in
    if has_player s.status then elim s.player [ none ↦ rest | some p ↦ pos p ∷ rest ] else rest

-- A match as the client sees it, with its password or without.
abbrev pub wire : Match → (send_pw : Bool) → MultiplayerMatch
wire m send_pw = record {
  id = pos m.id;
  in_progress = m.in_progress;
  powerplay = pos 0;
  mods = pos m.mods;
  name = m.name;
  passwd = if send_pw then m.passwd else [];
  map_name = m.map_name;
  map_id = m.map_id;
  map_md5 = m.map_md5;
  slot_statuses = map (λ s. signed_byte (status_value s.status)) m.slots;
  slot_teams = map (λ s. signed_byte (team_value s.team)) m.slots;
  slot_ids = sent_ids m.slots;
  host_id = pos m.host_id;
  mode = pos m.mode;
  win_condition = pos (win_condition_value m.win_condition);
  team_type = pos (team_type_value m.team_type);
  freemods = m.freemods;
  slot_mods = if m.freemods then map (λ s. pos s.mods) m.slots else [];
  seed = m.seed;
}

abbrev pub IdFits : Option ℕ → Type 0
IdFits none = Unit
IdFits (some p) = p < 2 ^ 31

abbrev pub SlotFits : Slot → Type 0
SlotFits s = IdFits s.player × (s.mods < 2 ^ 31)

id_below : (o : Option ℕ) (p : ℕ) → o ≡ some p → IdFits o → p < 2 ^ 31
id_below none p e h = cc
id_below (some q) p e h = let same : q ≡ p = cc in rw (← same) h

-- A negative seed cannot be written.
abbrev pub SeedFits : ℤ → Type 0
SeedFits (pos n) = n < 2 ^ 31
SeedFits (negsuc n) = Unit

-- What the fields of the format can hold on both of its sides.
pub record Fits (m : Match) : Type 0 where
  pub id : m.id < 2 ^ 15
  pub mods : m.mods < 2 ^ 31
  pub name : IsText m.name
  pub passwd : IsText m.passwd
  pub map_name : IsText m.map_name
  pub map_md5 : IsText m.map_md5
  pub host_id : m.host_id < 2 ^ 31
  pub mode : m.mode < 12
  pub slots : All SlotFits m.slots
  pub seed : SeedFits m.seed
  pub sixteen : length m.slots ≡ 16

pub bytes-Reads :
    (f : Slot → ℕ) (n : ℕ) (slots : List Slot)
    → length slots ≡ n
    → Reads (read_times n read_i8) (map f slots) (map (λ s. signed_byte (f s)) slots)
unfolding read_times
bytes-Reads f zero [] h = Reads-pure []
bytes-Reads f zero (s ∷ slots) h = absurd (omega arith)
bytes-Reads f (suc n) [] h = absurd (omega arith)
bytes-Reads f (suc n) (s ∷ slots) h =
    Reads-bind read_i8 (λ x. (do xs ← read_times n read_i8; pure (x ∷ xs))) (f s ∷ []) (map f slots)
      (signed_byte (f s)) _ (read_i8-Reads (f s))
      (Reads-map (read_times n read_i8) (λ xs. signed_byte (f s) ∷ xs) (map f slots) _
        (bytes-Reads f n slots (omega arith)))

pub read_flag-Field : (b : Bool) → Field read_flag (ok (pack_bool b)) b
unfolding read_flag read_i8
read_flag-Field true = Field-ok read_flag _ true (record { reads = λ rest. refl })
read_flag-Field false = Field-ok read_flag _ false (record { reads = λ rest. refl })

no_text : Reads read_string (0 ∷ []) []
unfolding read_string
no_text = record { reads = λ rest. refl }

pub passwd-Field :
    (s : Text) (send_pw : Bool)
    → IsText s
    → Field read_string (write_passwd s send_pw) (if send_pw then s else [])
passwd-Field [] true h = unfold write_passwd read_string in Field-ok _ _ [] no_text
passwd-Field [] false h = unfold write_passwd read_string in Field-ok _ _ [] no_text
passwd-Field (c ∷ s) true h = unfold write_passwd in write_string-Field (c ∷ s) h
passwd-Field (c ∷ s) false h =
    unfold write_passwd read_string read_uleb128 read_slice decode in
    Field-ok _ _ [] (record { reads = λ rest. refl })

has_player-bits : (s : SlotStatus) → has_player_bits (signed_byte (status_value s)) ≡ has_player s
unfolding has_player_bits has_player
has_player-bits opened = refl
has_player-bits locked = refl
has_player-bits not_ready = refl
has_player-bits ready = refl
has_player-bits no_map = refl
has_player-bits playing = refl
has_player-bits complete = refl
has_player-bits quit = refl

small_byte : (n : ℕ) → n < 128 → signed_byte n ≡ pos n
small_byte n h = ground arith

pub byte-Field : (n : ℕ) → n < 128 → Field read_i8 (write_byte n) (pos n)
byte-Field n h = rw (lt→ltb n 256 (omega arith), ← small_byte n h) (read_i8-Field n)

read_slot_ids-skip :
    (x : ℤ) (xs : List ℤ) → has_player_bits x ≡ false → read_slot_ids (x ∷ xs) ≡ read_slot_ids xs
unfolding read_slot_ids
read_slot_ids-skip x xs h = rw h

read_slot_ids-take :
    (x : ℤ) (xs : List ℤ)
    → has_player_bits x ≡ true
    → read_slot_ids (x ∷ xs) ≡ (do i ← read_i32; ids ← read_slot_ids xs; pure (i ∷ ids))
unfolding read_slot_ids
read_slot_ids-take x xs h = rw h

module _ (s : Slot) where
  write_player-skip : has_player s.status ≡ false → write_player s ≡ ok []
  unfolding write_player
  write_player-skip h = rw h

  write_player-none :
      has_player s.status ≡ true → s.player ≡ none → write_player s ≡ err assertion_error
  unfolding write_player
  write_player-none h e = ground (arith, h, e)

  write_player-some :
      (p : ℕ) → has_player s.status ≡ true → s.player ≡ some p → write_player s ≡ to_bytes 4 p
  unfolding write_player
  write_player-some p h e = ground (arith, h, e)

write_all-err : (x : Error) (parts : List (Result Bytes)) → write_all (err x ∷ parts) ≡ err x
unfolding write_all
write_all-err x parts = refl

abbrev statuses : List Slot → List ℤ
statuses slots = map (λ s. signed_byte (status_value s.status)) slots

pub ids-Field :
    (slots : List Slot)
    → All SlotFits slots
    → Field (read_slot_ids (statuses slots)) (write_all (map write_player slots)) (sent_ids slots)
ids-Field [] h = unfold read_slot_ids in Field-pure []
ids-Field (s ∷ slots) h =
    let bits = has_player-bits s.status in
    let rest = ids-Field slots h.1 in
    elim (Bool-cases (has_player s.status)) [
      | inl has ↦ elim (Option-cases s.player) [
        | inl nobody ↦ rw (write_player-none s has nobody, write_all-err) (Field-err _ _ _)
        | inr (p, e) ↦
            rw
              (
                read_slot_ids-take _ (statuses slots) (bits ∙ has),
                write_player-some s p has e,
                has,
                e,
              )
              (Field-bind read_i32 _ (to_bytes 4 p) (map write_player slots) (pos p) _
                (read_i32-Field_unsigned p (id_below s.player p e h.0.0))
                (Field-map (read_slot_ids (statuses slots)) (λ ids. pos p ∷ ids) _ _ rest))
      ]
      | inr has_not ↦
          rw
            (
              read_slot_ids-skip _ (statuses slots) (bits ∙ has_not),
              write_player-skip s has_not,
              has_not,
            )
            (Field-skip (read_slot_ids (statuses slots)) (map write_player slots) (sent_ids slots)
              rest)
    ]

all_mods-Field :
    (n : ℕ) (slots : List Slot)
    → All SlotFits slots
    → length slots ≡ n
    → Field
        (read_times n read_i32)
        (write_all (map (λ s. to_bytes 4 s.mods) slots))
        (map (λ s. pos s.mods) slots)
unfolding read_times
all_mods-Field zero [] h k = Field-pure []
all_mods-Field zero (s ∷ slots) h k = absurd (omega arith)
all_mods-Field (suc n) [] h k = absurd (omega arith)
all_mods-Field (suc n) (s ∷ slots) h k =
    Field-bind read_i32 (λ x. (do xs ← read_times n read_i32; pure (x ∷ xs))) _ _ (pos s.mods) _
      (read_i32-Field_unsigned s.mods h.0.1)
      (Field-map (read_times n read_i32) (λ xs. pos s.mods ∷ xs) _ _
        (all_mods-Field n slots h.1 (omega arith)))

pub mods-Field :
    (freemods : Bool) (slots : List Slot)
    → All SlotFits slots
    → length slots ≡ 16
    → Field
        (read_slot_mods freemods)
        (write_slot_mods freemods slots)
        (if freemods then map (λ s. pos s.mods) slots else [])
mods-Field true slots h k = unfold read_slot_mods write_slot_mods in all_mods-Field 16 slots h k
mods-Field false slots h k =
    unfold read_slot_mods write_slot_mods in Field-ok _ [] [] (Reads-pure [])

pub seed-Field : (z : ℤ) → SeedFits z → Field read_i32 (to_bytes_int 4 z) z
seed-Field (pos n) h = read_i32-Field_unsigned n h
seed-Field (negsuc n) h = Field-err read_i32 _ (negsuc n)

pub host-Field :
    (online : ℕ → Bool) (host : ℕ)
    → host < 2 ^ 31
    → Field read_i32 (if online host then to_bytes 4 host else err value_error) (pos host)
host-Field online host h = elim (Bool-cases (online host)) [
  | inl here ↦ rw here (read_i32-Field_unsigned host h)
  | inr gone ↦ rw gone (Field-err read_i32 value_error (pos host))
]
