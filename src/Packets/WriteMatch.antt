-- ===== src/Packets/WriteMatch.antt =====
-- `write_match` of app/packets.py: a match as it is sent to the clients.
use bancho_prism_1_0_0_prod.Base.{
  ℕ, List, [], ◌∷◌, map, Bool, none, some, ltb, if◌then◌else◌, Result, ok, err, assertion_error,
  value_error, overflow_error,
}
use bancho_prism_1_0_0_prod.Base.Int.{ℤ, pos, negsuc}
use bancho_prism_1_0_0_prod.Utf8.{Bytes, Text}
use bancho_prism_1_0_0_prod.Packets.Bytes.{to_bytes, to_bytes_signed}
use bancho_prism_1_0_0_prod.Packets.Writer.{write_all, write_string, pack, pack_bool}
use bancho_prism_1_0_0_prod.Match.{
  Match, Slot, status_value, team_value, win_condition_value, team_type_value,
}
use bancho_prism_1_0_0_prod.Match.Validity.{has_player}

-- z.to_bytes(k, "little"): a negative number raises.
abbrev pub to_bytes_int : ℕ → ℤ → Result Bytes
to_bytes_int k (pos n) = to_bytes k n
to_bytes_int k (negsuc n) = err overflow_error

-- A password that is there but not sent is a string of length 0.
unfoldable pub write_passwd : Text → (send_pw : Bool) → Result Bytes
write_passwd [] send_pw = ok (0 ∷ [])
write_passwd (c ∷ s) send_pw = if send_pw then write_string (c ∷ s) else ok (0x0b ∷ 0 ∷ [])

unfoldable pub write_player : Slot → Result Bytes
write_player s =
    if has_player s.status
    then elim s.player [ none ↦ err assertion_error | some p ↦ to_bytes 4 p ]
    else ok []

-- One value of `bytearray.extend`.
abbrev pub write_byte : ℕ → Result Bytes
write_byte n = if ltb n 256 then ok (n ∷ []) else err value_error

unfoldable pub write_slot_mods : Bool → List Slot → Result Bytes
write_slot_mods freemods slots =
    if freemods then write_all (map (λ s. to_bytes 4 s.mods) slots) else ok []

unfoldable pub write_match : (ℕ → Bool) → Match → (send_pw : Bool) → Result Bytes
write_match online m send_pw = write_all (
    pack 2 m.id
    ∷ ok (pack_bool m.in_progress)
    ∷ ok (0 ∷ [])
    ∷ pack 4 m.mods
    ∷ write_string m.name
    ∷ write_passwd m.passwd send_pw
    ∷ write_string m.map_name
    ∷ to_bytes_signed 4 m.map_id
    ∷ write_string m.map_md5
    ∷ ok (map (λ s. status_value s.status) m.slots)
    ∷ ok (map (λ s. team_value s.team) m.slots)
    ∷ write_all (map write_player m.slots)
    ∷ (if online m.host_id then to_bytes 4 m.host_id else err value_error)
    ∷ write_byte m.mode
    ∷ write_byte (win_condition_value m.win_condition)
    ∷ write_byte (team_type_value m.team_type)
    ∷ ok (pack_bool m.freemods)
    ∷ write_slot_mods m.freemods m.slots
    ∷ to_bytes_int 4 m.seed
    ∷ [])
