-- ===== src/Relationships/Steps.antt =====
-- Any sequence of changes of friends and blocks, from the game and from the web site, and what the
-- service of app/services/relationships.py makes of a block.
use bancho_prism_1_0_0_prod.Base.{
  ℕ, ◌≡◌, refl, sym, ◌∙◌, ap, Bool, true, false, not, Option, none, some, ◌==◌, ==_iff, Bool-cases,
  inl, inr,
}
use bancho_prism_1_0_0_prod.Replay.Build.{Identity, can_view_player}
use bancho_prism_1_0_0_prod.Relationships.{
  RelationshipType, friend, block, Session, State, bot_id, is_friend, is_block, set_row,
  with_friend, login, logout, friend_add, friend_remove, done, block_command, unblock_command,
}
use bancho_prism_1_0_0_prod.Relationships.Service.{
  added, cache_friend, befriend, befriend_user, add_friend_service, remove_friend_service,
}
use bancho_prism_1_0_0_prod.Relationships.Cached.{
  IsCached, written-IsCached, row-IsCached, apart_friend, at_target, friend_not_block,
}
use bancho_prism_1_0_0_prod.Relationships.Handlers.{
  own, add_from-IsCached, remove_from-IsCached, block_from-IsCached, unblock_from-IsCached,
  login-IsCached, logout-IsCached,
}

-- A row that becomes a friendship or nothing, with the set of the session where there is one.
cache_friend-IsCached :
    (p target : ℕ) (type : Option RelationshipType) (s : State)
    → IsCached s
    → is_block (s.row p target) ≡ false
    → is_block type ≡ false
    → (self : Option Session) → s.session p ≡ self
    → IsCached (cache_friend p target (is_friend type) self (set_row p target type s))
cache_friend-IsCached p target type s v before now none there = row-IsCached p target type s v there
cache_friend-IsCached p target type s v before now (some self) there =
    let agrees = own p self s v there in
    written-IsCached p target type (with_friend target (is_friend type) self) s
      (λ q x apart k u. own q x s v k u)
      (λ u apart. apart_friend self (s.row p) target (is_friend type) u apart (agrees u))
      (λ k. at_target target (is_friend type) self.friends) ((agrees target).1 ∙ before ∙ sym now)

remove_friend_service-IsCached :
    (p target : ℕ) (s : State) → IsCached s → IsCached (remove_friend_service p target s)
unfolding remove_friend_service
remove_friend_service-IsCached p target s v = elim (Bool-cases (is_friend (s.row p target))) [
  | inr strangers ↦ rw strangers v
  | inl friends ↦ rw friends (
      cache_friend-IsCached p target none s v (friend_not_block (s.row p target) friends) refl
        (s.session p) refl)
]

befriend-IsCached :
    (p target : ℕ) (type : Option RelationshipType) (s : State)
    → IsCached s
    → s.row p target ≡ type
    → is_block type ≡ false
    → IsCached (befriend p target type s).1
befriend-IsCached p target none s v row free =
    cache_friend-IsCached p target (some friend) s v (ap is_block row) refl (s.session p) refl
befriend-IsCached p target (some friend) s v row free = v
befriend-IsCached p target (some block) s v row free = absurd cc

befriend_user-IsCached :
    (viewer : Identity) (target : ℕ) (priv : Option ℕ) (s : State)
    → IsCached s
    → is_block (s.row viewer.id target) ≡ false
    → IsCached (befriend_user viewer target priv s).1
befriend_user-IsCached viewer target none s v free = v
befriend_user-IsCached viewer target (some priv) s v free =
    elim (Bool-cases (not (can_view_player (some viewer) target priv))) [
      | inl hidden ↦ rw hidden v
      | inr visible ↦
          rw visible (befriend-IsCached viewer.id target (s.row viewer.id target) s v refl free)
    ]

add_friend_service-IsCached :
    (viewer : Identity) (target : ℕ) (s : State)
    → IsCached s
    → is_block (s.row viewer.id target) ≡ false
    → IsCached (add_friend_service viewer target s).1
unfolding add_friend_service
add_friend_service-IsCached viewer target s v free = elim (Bool-cases (target == viewer.id)) [
  | inl self ↦ rw self v
  | inr other ↦ rw other (befriend_user-IsCached viewer target (s.priv target) s v free)
]

-- A change of friends or blocks. Who logs in has no session yet: the login of cho.py ends the one
-- that there is, but for a tourney client, which may be the second of its user. The web site befriends
-- a user who is not blocked.
pub data Step : State → State → Type 0 where
  logs_in : (p : ℕ) (s : State) → s.session p ≡ none → Step s (login p s)
  logs_out : (p : ℕ) (s : State) → Step s (logout p s)
  adds : (p user_id : ℕ) (s : State) → Step s (friend_add p user_id s)
  removes : (p user_id : ℕ) (s : State) → Step s (friend_remove p user_id s)
  blocks : (p : ℕ) (target : Option ℕ) (s : State) → Step s (block_command p target s).1
  unblocks : (p : ℕ) (target : Option ℕ) (s : State) → Step s (unblock_command p target s).1
  web_removes : (p target : ℕ) (s : State) → Step s (remove_friend_service p target s)
  web_adds :
      (viewer : Identity) (target : ℕ) (s : State)
      → is_block (s.row viewer.id target) ≡ false
      → Step s (add_friend_service viewer target s).1

pub data Steps : State → State → Type 0 where
  stay : (s : State) → Steps s s
  go : (s t u : State) → Step s t → Steps t u → Steps s u

Step-IsCached : (s t : State) → Step s t → IsCached s → IsCached t
unfolding friend_add friend_remove block_command unblock_command
Step-IsCached s t (logs_in p _ alone) v = login-IsCached p s v
Step-IsCached s t (logs_out p _) v = logout-IsCached p s v
Step-IsCached s t (adds p user_id _) v = add_from-IsCached (s.session p) p user_id s v refl
Step-IsCached s t (removes p user_id _) v = remove_from-IsCached (s.session p) p user_id s v refl
Step-IsCached s t (blocks p target _) v = block_from-IsCached (s.session p) p target s v refl
Step-IsCached s t (unblocks p target _) v = unblock_from-IsCached (s.session p) p target s v refl
Step-IsCached s t (web_removes p target _) v = remove_friend_service-IsCached p target s v
Step-IsCached s t (web_adds viewer target _ free) v =
    add_friend_service-IsCached viewer target s v free

-- While nobody logs in who has a session already, as a second tourney client of a user would, and
-- while the web site befriends nobody who is blocked: whatever players log in and out, befriend,
-- unfriend, block and unblock in the game, and whatever the web site changes of their friends, where
-- each user's session had the friends and blocks of its rows before, it has them afterwards, the bot
-- aside, which is a friend without a row.
pub Steps-IsCached : (s t : State) → Steps s t → IsCached s → IsCached t
Steps-IsCached s t (stay _) v = v
Steps-IsCached s t (go _ m _ step more) v = Steps-IsCached m t more (Step-IsCached s m step v)

-- A test of the session of somebody who is online.
abbrev pub says : (Session → Bool) → Option Session → Bool
says test none = false
says test (some self) = test self

-- Where the sessions agree with their rows, a user who is online and has blocked another befriends
-- that user, visible to it and not the bot, on the web site: the row is a friendship then, but the
-- session still has the block, and a command to lift the block deletes the friendship, while the
-- session keeps the friend.
pub add_friend_service_keeps_block :
    (viewer : Identity) (target priv : ℕ) (self : Session) (s : State)
    → IsCached s
    → s.session viewer.id ≡ some self
    → s.row viewer.id target ≡ some block
    → s.priv target ≡ some priv
    → can_view_player (some viewer) target priv ≡ true
    → (target == viewer.id) ≡ false
    → (target == bot_id) ≡ false
    → let r = add_friend_service viewer target s in
      let t = unblock_command viewer.id (some target) r.1 in
      (r.0 ≡ added)
      × (r.1.row viewer.id target ≡ some friend)
      × (says (λ x. x.blocks target) (r.1.session viewer.id) ≡ true)
      × (t.0 ≡ done)
      × (t.1.row viewer.id target ≡ none)
      × (says (λ x. x.friends target) (t.1.session viewer.id) ≡ true)
unfolding add_friend_service unblock_command
add_friend_service_keeps_block viewer target priv self s v online blocked known visible apart
      person =
    let me : (viewer.id == viewer.id) ≡ true = (==_iff viewer.id viewer.id).1 refl in
    let it : (target == target) ≡ true = (==_iff target target).1 refl in
    let listed : self.blocks target ≡ true =
      (own viewer.id self s v online target).1 ∙ ap is_block blocked in
    rw (apart, known, visible, blocked, online, me, it, person, listed)
      (rw (apart, me, it) (refl, refl, refl, refl, refl, refl))
