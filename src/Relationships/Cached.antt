-- ===== src/Relationships/Cached.antt =====
-- What a session caches of the table of relationships, under one change of both.
use bancho_prism_1_0_0_prod.Base.{
  ℕ, ◌≡◌, refl, sym, ◌∙◌, ap, Bool, true, false, Option, none, some, ◌==◌, ==_iff, Bool-cases, inl,
  inr,
}
use bancho_prism_1_0_0_prod.Spectators.{update}
use bancho_prism_1_0_0_prod.Relationships.{
  RelationshipType, friend, block, Session, State, bot_id, is_friend, is_block, set_row,
  put_session, with_friend, with_block,
}

-- A session says of a user what its row does; the bot is a friend without a row.
abbrev pub Agrees : Session → (ℕ → Option RelationshipType) → ℕ → Type 0
Agrees self row u =
    ((u == bot_id) ≡ false → self.friends u ≡ is_friend (row u))
    × (self.blocks u ≡ is_block (row u))

unfoldable pub IsCached : State → Type 0
IsCached s = (p : ℕ) (self : Session) → s.session p ≡ some self → (u : ℕ) → Agrees self (s.row p) u

-- The sessions of all players but one agree with their rows.
abbrev pub OthersCached : ℕ → State → Type 0
OthersCached p s =
    (q : ℕ) (self : Session)
    → (q == p) ≡ false
    → s.session q ≡ some self
    → (u : ℕ) → Agrees self (s.row q) u

others : (p : ℕ) (s : State) → IsCached s → OthersCached p s
unfolding IsCached
others p s v q self apart there u = v q self there u

pub others_put :
    (p : ℕ) (self : Session) (s : State) → IsCached s → OthersCached p (put_session p self s)
others_put p self s v q x apart there u = others p s v q x apart (rw apart at there) u

pub put-IsCached :
    (p : ℕ) (self : Session) (s : State)
    → OthersCached p s
    → ((u : ℕ) → Agrees self (s.row p) u)
    → IsCached (put_session p self s)
unfolding IsCached
put-IsCached p self s v own q x there u = elim (Bool-cases (q == p)) [
  | inr other ↦ v q x other (rw other at there) u
  | inl here ↦
      let e : q ≡ p = (==_iff q p).0 here in
      let given : some self ≡ some x = rw here at there in
      let same : self ≡ x = cc in rw (← same, e) (own u)
]

-- The row of one user and the session change together.
pub written-IsCached :
    (p target : ℕ) (type : Option RelationshipType) (self : Session) (s : State)
    → OthersCached p s
    → ((u : ℕ) → (u == target) ≡ false → Agrees self (s.row p) u)
    → ((target == bot_id) ≡ false → self.friends target ≡ is_friend type)
    → self.blocks target ≡ is_block type
    → IsCached (set_row p target type (put_session p self s))
unfolding IsCached
written-IsCached p target type self s v rest f b q x there u = elim (Bool-cases (q == p)) [
  | inr other ↦ rw other (v q x other (rw other at there) u)
  | inl own ↦
      let here : some self ≡ some x = rw own at there in
      let same : self ≡ x = cc in
      elim (Bool-cases (u == target)) [
        | inr apart ↦ rw (own, apart) (rw (← same) (rest u apart))
        | inl hit ↦
            let e : u ≡ target = (==_iff u target).0 hit in rw (own, hit) (rw (← same, e) (f, b))
      ]
]

-- The row of a user who is not online.
pub row-IsCached :
    (p target : ℕ) (type : Option RelationshipType) (s : State)
    → IsCached s
    → s.session p ≡ none
    → IsCached (set_row p target type s)
unfolding IsCached
row-IsCached p target type s v away q x there u = elim (Bool-cases (q == p)) [
  | inr other ↦ rw other (v q x there u)
  | inl own ↦
      let e : q ≡ p = (==_iff q p).0 own in
      let f : none ≡ some x = sym away ∙ (ap s.session (sym e) ∙ there) in absurd cc
]

-- A set that changes at one id says the same of the others.
pub apart_friend :
    (self : Session) (row : ℕ → Option RelationshipType) (target : ℕ) (there : Bool) (u : ℕ)
    → (u == target) ≡ false
    → Agrees self row u
    → Agrees (with_friend target there self) row u
apart_friend self row target there u apart h = rw apart h

pub apart_block :
    (self : Session) (row : ℕ → Option RelationshipType) (target : ℕ) (there : Bool) (u : ℕ)
    → (u == target) ≡ false
    → Agrees self row u
    → Agrees (with_block target there self) row u
apart_block self row target there u apart h = rw apart h

pub at_target : (target : ℕ) (b : Bool) (f : ℕ → Bool) → update target b f target ≡ b
at_target target b f =
    let self : (target == target) ≡ true = (==_iff target target).1 refl in rw self refl

-- A friend is not blocked, and the other way round.
pub friend_not_block :
    (type : Option RelationshipType) → is_friend type ≡ true → is_block type ≡ false
friend_not_block none h = absurd cc
friend_not_block (some friend) h = refl
friend_not_block (some block) h = absurd cc

pub block_not_friend :
    (type : Option RelationshipType) → is_block type ≡ true → is_friend type ≡ false
block_not_friend none h = refl
block_not_friend (some friend) h = absurd cc
block_not_friend (some block) h = refl
