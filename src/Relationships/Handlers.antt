-- ===== src/Relationships/Handlers.antt =====
-- The handlers of app/api/domains/cho.py, the commands of app/commands.py and the logins keep the
-- caches of the sessions in agreement with the table of relationships.
use bancho_prism_1_0_0_prod.Base.{
  ℕ, ◌≡◌, refl, sym, ◌∙◌, arith, Bool, true, false, ◌||◌, Option, none, some, ◌==◌, ==_iff,
  Bool-cases, inl, inr,
}
use bancho_prism_1_0_0_prod.Match.{is_none}
use bancho_prism_1_0_0_prod.Relationships.{
  friend, block, Session, State, bot_id, is_friend, put_session, with_friend, with_block, login,
  logout, add_from, remove_from, block_from, unblock_from,
}
use bancho_prism_1_0_0_prod.Relationships.Cached.{
  Agrees, IsCached, others_put, put-IsCached, written-IsCached, apart_friend, apart_block,
  at_target, friend_not_block, block_not_friend,
}

-- What a session that is online says.
pub own :
    (p : ℕ) (self : Session) (s : State)
    → IsCached s
    → s.session p ≡ some self
    → (u : ℕ) → Agrees self (s.row p) u
unfolding IsCached
own p self s v there u = v p self there u

neither : (a b : Bool) → (a || b) ≡ false → (a ≡ false) × (b ≡ false)
neither a b h = ground arith

pub add_from-IsCached :
    (self : Option Session) (p target : ℕ) (s : State)
    → IsCached s
    → s.session p ≡ self
    → IsCached (add_from self p target s)
add_from-IsCached none p target s v there = v
add_from-IsCached (some self) p target s v there =
    let unblocked = with_block target false self in
    let agrees = own p self s v there in
    let rest : (u : ℕ) → (u == target) ≡ false → Agrees unblocked (s.row p) u =
      λ u apart. apart_block self (s.row p) target false u apart (agrees u) in
    elim (Bool-cases (is_none (s.session target) || target == bot_id)) [
      | inl nobody ↦ rw nobody v
      | inr somebody ↦
          let (online, person) = neither (is_none (s.session target)) (target == bot_id) somebody in
          let row : self.friends target ≡ is_friend (s.row p target) = (agrees target).0 person in
          let cleared : unblocked.blocks target ≡ false = at_target target false self.blocks in
          elim (Bool-cases (self.friends target)) [
            | inl friends ↦
                rw (somebody, friends)
                  (put-IsCached p unblocked s (λ q x apart k u. own q x s v k u)
                    (λ u. elim (Bool-cases (u == target)) [
                      | inr apart ↦ rest u apart
                      | inl hit ↦
                          let e : u ≡ target = (==_iff u target).0 hit in
                          rw e (
                            (λ k. row),
                            cleared ∙ sym (friend_not_block (s.row p target) (sym row ∙ friends)),
                          )
                    ]))
            | inr strangers ↦
                rw (somebody, strangers)
                  (written-IsCached p target (some friend) (with_friend target true unblocked)
                    (put_session p unblocked s) (others_put p unblocked s v)
                    (λ u apart. apart_friend unblocked (s.row p) target true u apart (rest u apart))
                    (λ k. at_target target true self.friends) cleared)
          ]
    ]

pub remove_from-IsCached :
    (self : Option Session) (p target : ℕ) (s : State)
    → IsCached s
    → s.session p ≡ self
    → IsCached (remove_from self p target s)
remove_from-IsCached none p target s v there = v
remove_from-IsCached (some self) p target s v there =
    let agrees = own p self s v there in
    elim (Bool-cases (is_none (s.session target) || target == bot_id)) [
      | inl nobody ↦ rw nobody v
      | inr somebody ↦
          let (online, person) = neither (is_none (s.session target)) (target == bot_id) somebody in
          elim (Bool-cases (self.friends target)) [
            | inr strangers ↦ rw (somebody, strangers) v
            | inl friends ↦
                let row = sym ((agrees target).0 person) ∙ friends in
                rw (somebody, friends)
                  (written-IsCached p target none (with_friend target false self) s
                    (λ q x apart k u. own q x s v k u)
                    (λ u apart. apart_friend self (s.row p) target false u apart (agrees u))
                    (λ k. at_target target false self.friends)
                    ((agrees target).1 ∙ friend_not_block (s.row p target) row))
          ]
    ]

pub block_from-IsCached :
    (self : Option Session) (p : ℕ) (target : Option ℕ) (s : State)
    → IsCached s
    → s.session p ≡ self
    → IsCached (block_from self p target s).1
block_from-IsCached none p target s v there = v
block_from-IsCached (some self) p none s v there = v
block_from-IsCached (some self) p (some target) s v there =
    let unfriended = with_friend target false self in
    let agrees = own p self s v there in
    elim (Bool-cases (target == bot_id || target == p)) [
      | inl refused ↦ rw refused v
      | inr person ↦ elim (Bool-cases (self.blocks target)) [
        | inl blocked ↦ rw (person, blocked) v
        | inr unblocked ↦
            rw (person, unblocked)
              (written-IsCached p target (some block) (with_block target true unfriended)
                (put_session p unfriended s) (others_put p unfriended s v)
                (λ u apart.
                  apart_block unfriended (s.row p) target true u apart
                    (apart_friend self (s.row p) target false u apart (agrees u)))
                (λ k. at_target target false self.friends) (at_target target true self.blocks))
      ]
    ]

pub unblock_from-IsCached :
    (self : Option Session) (p : ℕ) (target : Option ℕ) (s : State)
    → IsCached s
    → s.session p ≡ self
    → IsCached (unblock_from self p target s).1
unblock_from-IsCached none p target s v there = v
unblock_from-IsCached (some self) p none s v there = v
unblock_from-IsCached (some self) p (some target) s v there =
    let agrees = own p self s v there in
    elim (Bool-cases (target == bot_id || target == p)) [
      | inl refused ↦ rw refused v
      | inr person ↦ elim (Bool-cases (self.blocks target)) [
        | inr unblocked ↦ rw (person, unblocked) v
        | inl blocked ↦
            let row = sym (agrees target).1 ∙ blocked in
            rw (person, blocked)
              (written-IsCached p target none (with_block target false self) s
                (λ q x apart k u. own q x s v k u)
                (λ u apart. apart_block self (s.row p) target false u apart (agrees u))
                (λ k. (agrees target).0 k ∙ block_not_friend (s.row p target) row)
                (at_target target false self.blocks))
      ]
    ]

pub login-IsCached : (p : ℕ) (s : State) → IsCached s → IsCached (login p s)
unfolding login
login-IsCached p s v =
    put-IsCached p _ s (λ q x apart k u. own q x s v k u) (λ u. (λ person. rw person refl, refl))

pub logout-IsCached : (p : ℕ) (s : State) → IsCached s → IsCached (logout p s)
unfolding IsCached
logout-IsCached p s v q x there u = elim (Bool-cases (q == p)) [
  | inl gone ↦ let f : none ≡ some x = rw gone at there in absurd cc
  | inr other ↦ v q x (rw other at there) u
]
