-- ===== src/Packets/Server/Presences.antt =====
-- app/packets.py: the presence of a user. Coordinates are the bit patterns of floats.
use Prim.Native.Nat.{bit_or}
use bancho_prism_1_0_0_prod.Base.{ℕ, ◌+◌, ◌-◌, ◌*◌, [], ◌∷◌, Bool, ltb, if◌then◌else◌, Result}
use bancho_prism_1_0_0_prod.Base.Int.{ℤ, pos, negsuc}
use bancho_prism_1_0_0_prod.Utf8.{Bytes, Text}
use bancho_prism_1_0_0_prod.GameMode.{as_vanilla}
use bancho_prism_1_0_0_prod.Packets.Write.{i32, u8, f32, string}
use bancho_prism_1_0_0_prod.Packets.Server as S
use bancho_prism_1_0_0_prod.Packets.Server.{write_packet}

-- utc_offset + 24
abbrev pub shift_offset : ℤ → ℤ
shift_offset (pos n) = pos (n + 24)
shift_offset (negsuc n) = if ltb n 24 then pos (23 - n) else negsuc (n - 24)

module _ (online : ℕ → Bool) where
  -- The floats are 1234.0 and 4321.0.
  unfoldable pub bot_presence : (player_id : ℤ) (player_name : Text) → Result Bytes
  bot_presence player_id player_name = write_packet online S.user_presence (
      i32 player_id
      ∷ string player_name
      ∷ u8 (pos 19)
      ∷ u8 (pos 245)
      ∷ u8 (pos 31)
      ∷ f32 0x449a4000
      ∷ f32 0x45870800
      ∷ i32 (pos 0)
      ∷ [])

  unfoldable pub _user_presence :
      (user_id : ℤ) (name : Text) (utc_offset country_code : ℤ) (bancho_privileges mode : ℕ)
      → (latitude longitude : ℕ) (global_rank : ℤ) → Result Bytes
  _user_presence user_id name utc_offset country_code bancho_privileges mode latitude longitude
        global_rank =
      write_packet online S.user_presence (
        i32 user_id
        ∷ string name
        ∷ u8 (shift_offset utc_offset)
        ∷ u8 country_code
        ∷ u8 (pos (bit_or bancho_privileges (mode * 32)))
        ∷ f32 longitude
        ∷ f32 latitude
        ∷ i32 global_rank
        ∷ [])

  -- Of the player: its privileges, the mode of its status, its location and its rank.
  unfoldable pub user_presence :
      (player_id : ℤ) (name : Text) (utc_offset country : ℤ) (bancho_priv mode : ℕ)
      → (latitude longitude : ℕ) (rank : ℤ) → Result Bytes
  user_presence player_id name utc_offset country bancho_priv mode latitude longitude rank =
      write_packet online S.user_presence (
        i32 player_id
        ∷ string name
        ∷ u8 (shift_offset utc_offset)
        ∷ u8 country
        ∷ u8 (pos (bit_or bancho_priv (as_vanilla mode * 32)))
        ∷ f32 longitude
        ∷ f32 latitude
        ∷ i32 rank
        ∷ [])
