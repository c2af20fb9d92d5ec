-- ===== src/Spectators.antt =====
-- Spectators: `add_spectator`, `remove_spectator`, `join_channel` and `leave_channel` of
-- app/objects/player.py as the spectator channels use them, and the handlers START_SPECTATING and
-- STOP_SPECTATING of app/api/domains/cho.py. A player is its id. `channel` has the players of
-- #spec_<id> while the session lists that channel, which is an instanced one; the list of channels
-- of a player is the other side of it. What is enqueued is in `sent`, oldest first.
pub mod Times
pub mod Kept
pub mod Requests
use bancho_prism_1_0_0_prod.Base.{
  ℕ, List, [], ◌∷◌, ◌++◌, Bool, true, false, not, ◌&&◌, ◌||◌, Option, none, some, ◌==◌,
  if◌then◌else◌, length, Result, ok, err, value_error, assertion_error,
}
use bancho_prism_1_0_0_prod.Base.Int.{ℤ, pos, negsuc}
use bancho_prism_1_0_0_prod.Match.{is_none}
use bancho_prism_1_0_0_prod.Match.Complete.{contains}
use bancho_prism_1_0_0_prod.Match.Membership.{remove, has_priv, unrestricted_priv}

pub data Note : Type 0 where
  channel_joined channel_kicked : (host : ℕ) → Note
  channel_count : (host count : ℕ) → Note
  fellow_joined fellow_left joined left : (player : ℕ) → Note

pub record Sessions : Type 0 where
  pub spectators : ℕ → List ℕ
  pub spectating : ℕ → Option ℕ
  pub channel : ℕ → Option (List ℕ)
  pub sent : List (ℕ × Note)

-- One entry of a map changed.
abbrev pub update {ℓ} : {A : Type ℓ} → ℕ → A → (ℕ → A) → ℕ → A
update key value f k = if k == key then value else f k

abbrev pub players_of : Option (List ℕ) → List ℕ
players_of none = []
players_of (some ids) = ids

abbrev pub is_empty : List ℕ → Bool
is_empty [] = true
is_empty (p ∷ ids) = false

abbrev pub send : ℕ → Note → Sessions → Sessions
send p note s = record s { sent = s.sent ++ (p, note) ∷ [] }

abbrev pub addressed : List ℕ → Note → List (ℕ × Note)
addressed [] note = []
addressed (p ∷ ids) note = (p, note) ∷ addressed ids note

abbrev pub send_all : List ℕ → Note → Sessions → Sessions
send_all ids note s = record s { sent = s.sent ++ addressed ids note }

-- Each fellow spectator hears of `p`, and `p` of each.
abbrev pub introduced : ℕ → List ℕ → List (ℕ × Note)
introduced p [] = []
introduced p (q ∷ ids) = (q, fellow_joined p) ∷ (p, fellow_joined q) ∷ introduced p ids

-- In stealth only `p` hears of the others.
abbrev pub overheard : ℕ → List ℕ → List (ℕ × Note)
overheard p [] = []
overheard p (q ∷ ids) = (p, fellow_joined q) ∷ overheard p ids

-- The news that one of them left, and the new count of the channel.
abbrev pub farewells : (p host count : ℕ) → List ℕ → List (ℕ × Note)
farewells p host count [] = []
farewells p host count (q ∷ ids) =
    (q, fellow_left p) ∷ (q, channel_count host count) ∷ farewells p host count ids

-- The packets that are sent again to a host whose spectator has got the map.
abbrev pub rejoined : ℕ → List ℕ → List (ℕ × Note)
rejoined p [] = []
rejoined p (q ∷ ids) = if q == p then rejoined p ids else (q, fellow_joined p) ∷ rejoined p ids

abbrev pub write_channel : ℕ → Option (List ℕ) → Sessions → Sessions
write_channel host ids s = record s { channel = update host ids s.channel }

-- An instanced channel goes with its last player.
unfoldable pub leave_channel : (host p : ℕ) → Sessions → Sessions
leave_channel host p s =
    let ids = players_of (s.channel host) in
    let others = remove p ids in
    if not (contains p ids)
    then s
    else send_all others (channel_count host (length others)) (
        send p (channel_kicked host)
          (write_channel host (if is_empty others then none else some others) s))

abbrev pub watch : (host p : ℕ) → Sessions → Sessions
watch host p s = record s {
  spectators = update host (s.spectators host ++ p ∷ []) s.spectators;
  spectating = update p (some host) s.spectating;
}

abbrev pub unwatch : (host p : ℕ) → Sessions → Sessions
unwatch host p s = record s {
  spectators = update host (remove p (s.spectators host)) s.spectators;
  spectating = update p none s.spectating;
}

abbrev pub parted : (host p : ℕ) → Sessions → Sessions
parted host p s =
    if is_empty (s.spectators host)
    then leave_channel host host s
    else (let count = length (players_of (s.channel host)) in
        record s {
          sent =
              s.sent
              ++ (host, channel_count host count) ∷ farewells p host count (s.spectators host);
        })

-- `list.remove` raises where the player is not in the list.
unfoldable pub remove_spectator : (host p : ℕ) → Sessions → Result (Unit {0}) × Sessions
remove_spectator host p s =
    if not (contains p (s.spectators host))
    then (err value_error, s)
    else (let alone = unwatch host p s in
        if is_none (alone.channel host)
        then (err assertion_error, alone)
        else (ok tt, send host (left p) (parted host p (leave_channel host p alone))))

unfoldable pub stop_spectating : (p : ℕ) → Sessions → Result (Unit {0}) × Sessions
stop_spectating p s = elim (s.spectating p) [
  | none ↦ (ok tt, s)
  | some host ↦ remove_spectator host p s
]

abbrev pub announce : (ℕ → Bool) → (host p : ℕ) → Sessions → Sessions
announce stealth host p s =
    if stealth p
    then record s { sent = s.sent ++ overheard p (s.spectators host) }
    else record s { sent = s.sent ++ introduced p (s.spectators host) ++ (host, joined p) ∷ [] }

module _ (priv : ℕ → ℕ) where
  -- The channel's read privilege is UNRESTRICTED.
  unfoldable pub join_channel : (host p : ℕ) → Sessions → Bool × Sessions
  join_channel host p s =
      let ids = players_of (s.channel host) in
      let all_ids = ids ++ p ∷ [] in
      if contains p ids || not (has_priv (priv p) unrestricted_priv) then (false, s) else (
        true,
        send_all all_ids (channel_count host (length all_ids))
            (send p (channel_joined host) (write_channel host (some all_ids) s)),
      )

  -- The channel, made and joined by the host if it is not there.
  abbrev pub open_channel : (host : ℕ) → Sessions → Sessions
  open_channel host s =
      if is_none (s.channel host)
      then (join_channel host host (write_channel host (some []) s)).1
      else s

module _ (priv : ℕ → ℕ) (stealth : ℕ → Bool) where
  unfoldable pub add_spectator : (host p : ℕ) → Sessions → Sessions
  add_spectator host p s =
      let tried = join_channel priv host p (open_channel priv host s) in
      if tried.0 then watch host p (announce stealth host p tried.1) else tried.1

  abbrev pub then_add : (host p : ℕ) → Result (Unit {0}) × Sessions → Result (Unit {0}) × Sessions
  then_add host p (err e, s) = (err e, s)
  then_add host p (ok u, s) = (ok tt, add_spectator host p s)

  -- The host that the id of the packet names, if it is online.
  unfoldable pub start_spectating :
      (online : ℕ → Bool) (p : ℕ) → ℤ → Sessions → Result (Unit {0}) × Sessions
  start_spectating online p (negsuc n) s = (ok tt, s)
  start_spectating online p (pos host) s =
      if not (online host) then (ok tt, s) else elim (s.spectating p) [
        | none ↦ (ok tt, add_spectator host p s)
        | some current ↦
            if current == host
            then (if stealth p then (ok tt, s) else (
              ok tt,
              record s { sent = s.sent ++ (host, joined p) ∷ rejoined p (s.spectators host) },
            ))
            else then_add host p (remove_spectator current p s)
      ]
