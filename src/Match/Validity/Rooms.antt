-- ===== src/Match/Validity/Rooms.antt =====
-- Joining and leaving keep the slots valid, and say who sits where afterwards.
use bancho_prism_1_0_0_prod.Base.{
  ℕ, suc, ◌≡◌, ◌⊎◌, ◌∙◌, refl, ap, List, [], ◌∷◌, Bool, true, false, none, some, arith, ◌==◌,
  get_elem?, Option-cases, inl, inr, ok, err, Result, ==_iff,
}
use bancho_prism_1_0_0_prod.Utf8.{Text}
use bancho_prism_1_0_0_prod.Match.{Match, Slot, is_none, modify, get_slot_id, get_free}
use bancho_prism_1_0_0_prod.Match.Seats.{
  Absent, Distinct-set-some, Distinct-set-none, Absent-set-none_self,
}
use bancho_prism_1_0_0_prod.Match.Writes.{
  players, length-modify, players-modify-set, All-modify, get_slot_id-seat,
}
use bancho_prism_1_0_0_prod.Match.Handlers.{modify_slot}
use bancho_prism_1_0_0_prod.Match.Membership.{
  Room, join_match, enter, leave_match, take_seat, vacate, pass_host, after_host, leave_chat,
  forget_match, finished, all_empty, first_player,
}
use bancho_prism_1_0_0_prod.Match.Validity.{IsSeated, IsValid, has_player}

-- The player of the room sits nowhere.
abbrev pub IsOutside : Room → Type 0
IsOutside r = Absent r.player.id (players r.match.slots)

module _ (m : Match) (p i : ℕ) (slots : List Slot) (v : IsValid slots) where
  take_seat-IsValid : Absent p (players slots) → IsValid (modify i (take_seat m p) slots)
  take_seat-IsValid out = record {
    sixteen = length-modify i (take_seat m p) slots ∙ v.sixteen;
    seated = All-modify IsSeated i (take_seat m p) slots (λ s _ _ _. refl) v.seated;
    distinct =
        rw (players-modify-set i (take_seat m p) slots (some p) (λ s. refl))
          (Distinct-set-some p i (players slots) out v.distinct);
  }

vacate-player : (s : Slot) → (vacate s).player ≡ none
vacate-player s = ground arith

vacate-IsSeated : (s : Slot) → IsSeated (vacate s)
unfolding has_player
vacate-IsSeated s e = ground arith

module _ (i : ℕ) (slots : List Slot) (v : IsValid slots) where
  vacate-IsValid : IsValid (modify i vacate slots)
  vacate-IsValid = record {
    sixteen = length-modify i vacate slots ∙ v.sixteen;
    seated = All-modify IsSeated i vacate slots (λ s _ _. vacate-IsSeated s) v.seated;
    distinct =
        rw (players-modify-set i vacate slots none vacate-player)
          (Distinct-set-none i (players slots) v.distinct);
  }

  vacate-Absent :
      (p : ℕ) → get_slot_id p slots ≡ some i → Absent p (players (modify i vacate slots))
  vacate-Absent p e =
      rw (players-modify-set i vacate slots none vacate-player)
        (Absent-set-none_self p i (players slots) v.distinct (get_slot_id-seat p i slots e))

enter-slots :
    (i : ℕ) (r : Room)
    → ((enter i r).1.match.slots ≡ r.match.slots)
      ⊎ ((enter i r).1.match.slots ≡ modify i (take_seat r.match r.player.id) r.match.slots)
unfolding enter
enter-slots i r = ground arith

-- A player who sits nowhere joins, or fails to: the slots stay valid.
enter-IsValid :
    (i : ℕ) (r : Room) → IsValid r.match.slots → IsOutside r → IsValid (enter i r).1.match.slots
enter-IsValid i r v out = elim (enter-slots i r) [
  | inl same ↦ rw same v
  | inr taken ↦ rw taken (take_seat-IsValid r.match r.player.id i r.match.slots v out)
]

-- Whoever sits nowhere may try to join: with the outcome of every branch the slots stay valid.
pub join_match-IsValid :
    (online : ℕ → Bool) (passwd : Text) (r : Room)
    → IsValid r.match.slots
    → IsOutside r
    → IsValid (join_match online passwd r).1.match.slots
unfolding join_match
join_match-IsValid online passwd r v out =
    let at_host = enter-IsValid 0 r v out in
    elim (Option-cases (get_free r.match.slots)) [
      | inl full ↦ ground (arith, full, at_host)
      | inr (i, e) ↦ ground (arith, e, at_host, enter-IsValid i r v out)
    ]

-- The steps of `leave_match` after the slot is vacated leave the slots alone.
pass_host-slots :
    (online : ℕ → Bool) (r : Room) → (pass_host online r).1.match.slots ≡ r.match.slots
unfolding pass_host
pass_host-slots online r = ground arith

after_host-slots : (o : Result (Unit {0}) × Room) → (after_host o).1.match.slots ≡ o.1.match.slots
unfolding after_host
after_host-slots (ok u, r) = ground arith
after_host-slots (err e, r) = refl

leave_chat-slots : (r : Room) → (leave_chat r).match.slots ≡ r.match.slots
unfolding leave_chat
leave_chat-slots r = ground arith

forget-finished-slots : (r : Room) → (forget_match (finished r)).match.slots ≡ r.match.slots
unfolding forget_match finished
forget-finished-slots r = elim (Option-cases r.lobby) [
  | inl missing ↦ rw missing refl
  | inr (ids, there) ↦ rw there refl
]

module _ (online : ℕ → Bool) (r : Room) where
  leave-slots :
      (i : ℕ)
      → get_slot_id r.player.id r.match.slots ≡ some i
      → is_none r.player.match_id ≡ false
      → (leave_match online r).1.match.slots ≡ modify i vacate r.match.slots
  unfolding leave_match
  leave-slots i here h =
      let seat_free = record r { match = modify_slot i vacate r.match } in
      let left = leave_chat seat_free in
      rw here (
        ground (
          arith,
          h,
          leave_chat-slots seat_free,
          forget-finished-slots left,
          after_host-slots (pass_host online left),
          pass_host-slots online left,
        ))

  -- A player who is in a match with valid slots, and sits in one of them, leaves it: the slots are
  -- valid afterwards, and the player sits in none of them.
  pub leave_match_vacates :
      (i : ℕ)
      → IsValid r.match.slots
      → get_slot_id r.player.id r.match.slots ≡ some i
      → is_none r.player.match_id ≡ false
      → let slots = (leave_match online r).1.match.slots in
        IsValid slots × Absent r.player.id (players slots)
  leave_match_vacates i v here h =
      rw (leave-slots i here h)
        (vacate-IsValid i r.match.slots v, vacate-Absent i r.match.slots v r.player.id here)

first_player-seat :
    (slots : List Slot)
    → all_empty slots ≡ false
    → (p : ℕ) × (first_player slots ≡ some p)
      × (j : ℕ) × (get_elem? (players slots) j ≡ some (some p))
first_player-seat [] h = cc
first_player-seat (s ∷ slots) h = elim (Option-cases s.player) [
  | inl free ↦
      let (p, e, j, q) = first_player-seat slots (ground (arith, free)) in
      (p, ground (arith, free, e), suc j, q)
  | inr (p, taken) ↦ (p, ground (arith, taken), 0, ap some taken)
]

pass_host-host_id :
    (online : ℕ → Bool) (r : Room) (p : ℕ)
    → online r.match.host_id ≡ true
    → (r.player.id == r.match.host_id) ≡ true
    → first_player r.match.slots ≡ some p
    → (pass_host online r).1.match.host_id ≡ p
unfolding pass_host
pass_host-host_id online r p h k e = ground (arith, h, k, e)

after_host-host_id :
    (o : Result (Unit {0}) × Room) → (after_host o).1.match.host_id ≡ o.1.match.host_id
unfolding after_host
after_host-host_id (ok u, r) = ground arith
after_host-host_id (err e, r) = refl

leave_chat-host_id : (r : Room) → (leave_chat r).match.host_id ≡ r.match.host_id
unfolding leave_chat
leave_chat-host_id r = ground arith

leave_chat-player : (r : Room) → (leave_chat r).player.id ≡ r.player.id
unfolding leave_chat
leave_chat-player r = ground arith

module _ (online : ℕ → Bool) (r : Room) (i : ℕ) where
  leave-host_id :
      (p : ℕ)
      → get_slot_id r.player.id r.match.slots ≡ some i
      → is_none r.player.match_id ≡ false
      → online r.match.host_id ≡ true
      → r.player.id ≡ r.match.host_id
      → all_empty (modify i vacate r.match.slots) ≡ false
      → first_player (modify i vacate r.match.slots) ≡ some p
      → (leave_match online r).1.match.host_id ≡ p
  unfolding leave_match
  leave-host_id p here h on host others e =
      let seat_free = record r { match = modify_slot i vacate r.match } in
      let left = leave_chat seat_free in
      let is_host : (left.player.id == left.match.host_id) ≡ true =
        rw (leave_chat-player seat_free, leave_chat-host_id seat_free)
          ((==_iff r.player.id r.match.host_id).1 host) in
      let passed =
        pass_host-host_id online left p (rw (leave_chat-host_id seat_free) on) is_host
          (rw (leave_chat-slots seat_free) e) in
      rw here (
        ground (
          arith,
          h,
          ap all_empty (leave_chat-slots seat_free),
          others,
          after_host-host_id (pass_host online left),
          passed,
        ))

-- The host, online, leaves a match in which somebody else still sits: the new host sits in it.
pub leave_match_passes_host :
    (online : ℕ → Bool) (r : Room) (i : ℕ)
    → get_slot_id r.player.id r.match.slots ≡ some i
    → is_none r.player.match_id ≡ false
    → online r.match.host_id ≡ true
    → r.player.id ≡ r.match.host_id
    → all_empty (modify i vacate r.match.slots) ≡ false
    → let m = (leave_match online r).1.match in
      (j : ℕ) × (get_elem? (players m.slots) j ≡ some (some m.host_id))
leave_match_passes_host online r i here h on host others =
    let (p, e, j, q) = first_player-seat (modify i vacate r.match.slots) others in
    (j, rw (leave-slots online r i here h, leave-host_id online r i p here h on host others e) q)
