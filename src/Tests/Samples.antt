-- ===== src/Tests/Samples.antt =====
-- A match for the examples: the host 3 and the player 7 sit in the first two of sixteen slots.
use bancho_prism_1_0_0_prod.Base.{
  ℕ, zero, suc, refl, List, [], ◌∷◌, Bool, true, false, none, some, replicate, Result, ok, err,
}
use bancho_prism_1_0_0_prod.Base.Int.{pos}
use bancho_prism_1_0_0_prod.Utf8.{Bytes}
use bancho_prism_1_0_0_prod.Match.{Match, Slot, new_slot, not_ready, ready, head_to_head, score}
use bancho_prism_1_0_0_prod.Match.Seats.{All}
use bancho_prism_1_0_0_prod.Match.Validity.{IsSeated, IsValid, has_player}

abbrev pub everyone : ℕ → Bool
everyone p = true

abbrev pub host_slot : Slot
host_slot = record new_slot { player = some 3; status = not_ready }

abbrev pub other_slot : Slot
other_slot = record new_slot { player = some 7; status = ready }

abbrev pub slots : List Slot
slots = host_slot ∷ other_slot ∷ replicate 14 new_slot

abbrev pub sample : Match
sample = record {
  id = 1;
  name = 97 ∷ 98 ∷ [];
  passwd = 99 ∷ [];
  has_public_history = true;
  db_id = none;
  current_game_started_at = none;
  host_id = 3;
  referees = [];
  map_id = pos 75;
  map_md5 = 100 ∷ [];
  map_name = 233 ∷ [];
  prev_map_id = pos 0;
  mods = 8;
  mode = 0;
  freemods = true;
  chat = 3 ∷ 7 ∷ [];
  slots = slots;
  team_type = head_to_head;
  win_condition = score;
  in_progress = false;
  starting = false;
  seed = pos 5;
  is_scrimming = false;
  use_pp_scoring = false;
  tourney_clients = [];
  sent = [];
}

free-IsSeated : (n : ℕ) → All IsSeated (replicate n new_slot)
unfolding has_player
free-IsSeated zero = tt
free-IsSeated (suc n) = ((λ e. cc), free-IsSeated n)

pub slots-IsValid : IsValid slots
slots-IsValid = record {
  sixteen = refl;
  seated = ((λ e. refl), ((λ e. refl), free-IsSeated 14));
  distinct = (((λ e. cc), tt), (tt, tt));
}

-- The bytes of a result that has some.
abbrev pub written : Result Bytes → Bytes
written (ok bs) = bs
written (err e) = []
