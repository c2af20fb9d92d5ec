-- ===== src/Match/Membership.antt =====
-- Joining and leaving a match: `join_match` and `leave_match` of app/objects/player.py, and the
-- JOIN_MATCH handler of app/api/domains/cho.py. A `Room` is what they reach: the player, the match,
-- the players of the lobby channel if it is there, and whether the session still lists the match.
-- The match's chat is an instanced channel of which `chat` holds the players.
use Prim.Native.Nat.{bit_and}
use bancho_prism_1_0_0_prod.Base.{
  ℕ, List, [], ◌∷◌, ◌++◌, Bool, true, false, ◌&&◌, ◌||◌, not, Option, none, some, ◌==◌,
  if◌then◌else◌, Result, ok, err, assertion_error, value_error,
}
use bancho_prism_1_0_0_prod.Utf8.{Text}
use bancho_prism_1_0_0_prod.Match.{
  Match, Slot, opened, locked, not_ready, is_status, red, team_vs, tag_team_vs, team_type_value,
  is_none, empty, reset, get_slot_id, get_free, enqueue_state, host_told, referee_removed, disposed,
}
use bancho_prism_1_0_0_prod.Match.Handlers.{modify_slot}
use bancho_prism_1_0_0_prod.Match.Complete.{contains}

-- What is put in a player's own queue.
pub data Reply : Type 0 where
  match_join_fail match_join_success not_while_restricted not_while_silenced : Reply
  channel_join channel_kick : Reply

pub record Player : Type 0 where
  pub id : ℕ
  pub priv : ℕ
  pub match_id : Option ℕ
  pub restricted : Bool
  pub silenced : Bool
  pub replies : List Reply

pub record Room : Type 0 where
  pub player : Player
  pub match : Match
  pub lobby : Option (List ℕ)
  pub listed : Bool

abbrev pub unrestricted_priv : ℕ
unrestricted_priv = 1

-- MODERATOR | ADMINISTRATOR | DEVELOPER
abbrev pub staff_priv : ℕ
staff_priv = 28672

-- `priv & mask` as a condition
abbrev pub has_priv : ℕ → ℕ → Bool
has_priv priv mask = not (bit_and priv mask == 0)

-- list.remove
abbrev pub remove : ℕ → List ℕ → List ℕ
remove p [] = []
remove p (q ∷ ids) = if q == p then ids else q ∷ remove p ids

abbrev reply : Reply → Room → Room
reply x r = record r { player = record r.player { replies = r.player.replies ++ x ∷ [] } }

-- `join_channel(match.chat)`: the read privilege of such a channel is UNRESTRICTED.
unfoldable pub can_join_chat : Room → Bool
can_join_chat r =
    not (contains r.player.id r.match.chat) && has_priv r.player.priv unrestricted_priv

abbrev join_chat : Room → Room
join_chat r =
    reply channel_join
      (record r { match = record r.match { chat = r.match.chat ++ r.player.id ∷ [] } })

abbrev leave_lobby : Room → Room
leave_lobby r = elim r.lobby [
  | none ↦ r
  | some ids ↦
      if contains r.player.id ids
      then reply channel_kick (record r { lobby = some (remove r.player.id ids) })
      else r
]

abbrev is_team_match : Match → Bool
is_team_match m =
    team_type_value m.team_type == team_type_value team_vs
    || team_type_value m.team_type == team_type_value tag_team_vs

-- The seat that a player takes.
abbrev pub take_seat : Match → ℕ → Slot → Slot
take_seat m p s = record s {
  team = if is_team_match m then red else s.team;
  status = not_ready;
  player = some p;
}

abbrev pub seat_player : ℕ → Room → Room
seat_player slot_id r =
    let m = modify_slot slot_id (take_seat r.match r.player.id) r.match in
    reply match_join_success
      (record r { player = record r.player { match_id = some m.id }; match = enqueue_state true m })

unfoldable pub enter : ℕ → Room → Bool × Room
unfolding can_join_chat
enter slot_id r =
    if can_join_chat r then (true, seat_player slot_id (leave_lobby (join_chat r))) else (false, r)

abbrev pub same_text : Text → Text → Bool
same_text [] [] = true
same_text [] (c ∷ t) = false
same_text (c ∷ s) [] = false
same_text (c ∷ s) (d ∷ t) = c == d && same_text s t

abbrev returned : Bool × Room → Result Bool × Room
returned (b, r) = (ok b, r)

abbrev refused : Room → Result Bool × Room
refused r = (ok false, reply match_join_fail r)

unfoldable pub join_match : (ℕ → Bool) → (passwd : Text) → Room → Result Bool × Room
unfolding enter
join_match online passwd r =
    if not (is_none r.player.match_id)
    then refused r
    else if contains r.player.id r.match.tourney_clients
    then refused r
    else if not (online r.match.host_id)
    then (err value_error, r)
    else if r.player.id == r.match.host_id
    then returned (enter 0 r)
    else if not (same_text passwd r.match.passwd) && not (has_priv r.player.priv staff_priv)
    then refused r
    else elim (get_free r.match.slots) [
      | none ↦ refused r
      | some slot_id ↦ returned (enter slot_id r)
    ]

-- The JOIN_MATCH handler, for a match that exists.
unfoldable pub match_join : (ℕ → Bool) → (passwd : Text) → Room → Result Bool × Room
unfolding join_match
match_join online passwd r =
    if r.player.restricted
    then (ok false, reply not_while_restricted (reply match_join_fail r))
    else if r.player.silenced
    then (ok false, reply not_while_silenced (reply match_join_fail r))
    else join_match online passwd r

unfoldable pub leave_chat : Room → Room
leave_chat r =
    if contains r.player.id r.match.chat
    then reply channel_kick
        (record r { match = record r.match { chat = remove r.player.id r.match.chat } })
    else r

abbrev pub all_empty : List Slot → Bool
all_empty [] = true
all_empty (s ∷ slots) = empty s && all_empty slots

abbrev pub first_player : List Slot → Option ℕ
first_player [] = none
first_player (s ∷ slots) = let rest = first_player slots in if empty s then rest else s.player

-- The slot stays locked for a player who was kicked by the lock.
abbrev pub vacate : Slot → Slot
vacate s = if is_status s.status locked then reset locked s else reset opened s

-- dispose_match to the channel #lobby, where there is one
abbrev pub dispose : Option (List ℕ) → Match → Match
dispose none m = m
dispose (some ids) m = record m { sent = m.sent ++ disposed ids ∷ [] }

unfoldable pub finished : Room → Room
finished r = record r {
  match = dispose r.lobby (record r.match { starting = false });
  listed = false;
}

-- The host goes to the first player in the order of the slots, who is told.
unfoldable pub pass_host : (ℕ → Bool) → Room → Result (Unit {0}) × Room
pass_host online r =
    if not (online r.match.host_id)
    then (err value_error, r)
    else if not (r.player.id == r.match.host_id)
    then (ok tt, r)
    else elim (first_player r.match.slots) [
      | none ↦ (ok tt, r)
      | some p ↦
          let m = record r.match { host_id = p } in
          if online p
          then (ok tt, record r { match = record m { sent = m.sent ++ host_told p ∷ [] } })
          else (err value_error, record r { match = m })
    ]

unfoldable pub drop_referee : Room → Room
drop_referee r =
    if contains r.player.id r.match.referees
    then record r {
      match = record r.match {
        referees = remove r.player.id r.match.referees;
        sent = r.match.sent ++ referee_removed r.player.id ∷ [];
      };
    }
    else r

unfoldable pub forget_match : Room → Room
forget_match r = record r { player = record r.player { match_id = none } }

unfoldable pub notify_left : Room → Room
notify_left r = record r { match = enqueue_state true r.match }

unfoldable pub after_host : Result (Unit {0}) × Room → Result (Unit {0}) × Room
unfolding forget_match notify_left drop_referee
after_host (ok _, r) = (ok tt, forget_match (notify_left (drop_referee r)))
after_host (err e, r) = (err e, r)

unfoldable pub leave_match : (ℕ → Bool) → Room → Result (Unit {0}) × Room
leave_match online r =
    if is_none r.player.match_id then (ok tt, r) else elim (get_slot_id r.player.id r.match.slots) [
      | none ↦ (err assertion_error, r)
      | some i ↦
          let left = leave_chat (record r { match = modify_slot i vacate r.match }) in
          if all_empty left.match.slots
          then (ok tt, forget_match (finished left))
          else after_host (pass_host online left)
    ]
