-- ===== src/Packets/MatchTrip.antt =====
-- A match as `write_match` of app/packets.py sends it, read back by `read_match`.
use bancho_prism_1_0_0_prod.Base.{ℕ, ◌<◌, ◌≡◌, ◌++◌, Bool, arith, ok}
use bancho_prism_1_0_0_prod.Utf8.{Bytes}
use bancho_prism_1_0_0_prod.Match.{
  Match, MatchWinConditions, score, accuracy, combo, scorev2, win_condition_value, MatchTeamTypes,
  head_to_head, tag_coop, team_vs, tag_team_vs, team_type_value,
}
use bancho_prism_1_0_0_prod.Packets.WriteMatch.{write_match}
use bancho_prism_1_0_0_prod.Packets.MatchData.{read_match}
use bancho_prism_1_0_0_prod.Packets.Reads.{
  Field, Field-bind, Field-ok, Field-pure, read_i8-Field, read_i16-Field_packed, read_i32-Field,
  read_i32-Field_packed,
}
use bancho_prism_1_0_0_prod.Packets.Strings.{write_string-Field}
use bancho_prism_1_0_0_prod.Packets.MatchFields.{
  Fits, wire, bytes-Reads, read_flag-Field, passwd-Field, byte-Field, ids-Field, mods-Field,
  seed-Field, host-Field,
}

win_condition_byte : (c : MatchWinConditions) → win_condition_value c < 128
win_condition_byte score = omega arith
win_condition_byte accuracy = omega arith
win_condition_byte combo = omega arith
win_condition_byte scorev2 = omega arith

team_type_byte : (t : MatchTeamTypes) → team_type_value t < 128
team_type_byte head_to_head = omega arith
team_type_byte tag_coop = omega arith
team_type_byte team_vs = omega arith
team_type_byte tag_team_vs = omega arith

module _ (online : ℕ → Bool) (m : Match) (send_pw : Bool) (fits : Fits m) where
  write_match-Field : Field read_match (write_match online m send_pw) (wire m send_pw)
  unfolding read_match write_match
  write_match-Field =
      let w = wire m send_pw in
      Field-bind _ _ _ _ _ w (read_i16-Field_packed m.id fits.id) (
        Field-bind _ _ _ _ _ w (read_flag-Field m.in_progress) (
          Field-bind _ _ _ _ _ w (read_i8-Field 0) (
            Field-bind _ _ _ _ _ w (read_i32-Field_packed m.mods fits.mods) (
              Field-bind _ _ _ _ _ w (write_string-Field m.name fits.name) (
                Field-bind _ _ _ _ _ w (passwd-Field m.passwd send_pw fits.passwd) (
                  Field-bind _ _ _ _ _ w (write_string-Field m.map_name fits.map_name) (
                    Field-bind _ _ _ _ _ w (read_i32-Field m.map_id) (
                      Field-bind _ _ _ _ _ w (write_string-Field m.map_md5 fits.map_md5) (
                        Field-bind _ _ _ _ _ w
                          (Field-ok _ _ _ (bytes-Reads _ 16 m.slots fits.sixteen))
                          (Field-bind _ _ _ _ _ w
                            (Field-ok _ _ _ (bytes-Reads _ 16 m.slots fits.sixteen))
                            (Field-bind _ _ _ _ _ w (ids-Field m.slots fits.slots) (
                              Field-bind _ _ _ _ _ w (host-Field online m.host_id fits.host_id) (
                                Field-bind _ _ _ _ _ w
                                  (byte-Field m.mode (omega (arith, fits.mode)))
                                  (Field-bind _ _ _ _ _ w
                                    (byte-Field _ (win_condition_byte m.win_condition))
                                    (Field-bind _ _ _ _ _ w
                                      (byte-Field _ (team_type_byte m.team_type))
                                      (Field-bind _ _ _ _ _ w (read_flag-Field m.freemods) (
                                        Field-bind _ _ _ _ _ w
                                          (mods-Field m.freemods m.slots fits.slots fits.sixteen)
                                          (Field-bind _ _ _ _ _ w (seed-Field m.seed fits.seed)
                                            (Field-pure w)))))))))))))))))))

-- A match whose numbers fit both sides of the format, if it could be written, is read back as what
-- the client is to see of it: all its fields, the ids of the players in slots that have one, and the
-- password only if it was sent.
pub read_match-write_match :
    (online : ℕ → Bool) (m : Match) (send_pw : Bool) (bs rest : Bytes)
    → Fits m
    → write_match online m send_pw ≡ ok bs
    → read_match (bs ++ rest) ≡ ok (wire m send_pw, rest)
read_match-write_match online m send_pw bs rest fits e =
    ((write_match-Field online m send_pw fits).field bs e).reads rest
