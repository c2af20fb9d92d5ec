-- ===== src/Spectators/Kept.antt =====
-- The invariant of the spectators of app/objects/player.py, and that joining and leaving a spectator
-- channel, watching and not watching keep it.
use bancho_prism_1_0_0_prod.Base.{
  ℕ, ◌+◌, ◌≤◌, ◌<◌, ◌≡◌, ◌∙◌, refl, ap, Bool, true, false, ◌&&◌, none, some, arith, ◌==◌,
  if◌then◌else◌, ==_iff, Option-cases, inl, inr,
}
use bancho_prism_1_0_0_prod.Match.{is_none}
use bancho_prism_1_0_0_prod.Match.Complete.{contains}
use bancho_prism_1_0_0_prod.Match.Membership.{remove}
use bancho_prism_1_0_0_prod.Spectators.{
  Sessions, players_of, join_channel, leave_channel, watch, unwatch,
}
use bancho_prism_1_0_0_prod.Spectators.Times.{
  times, times-append, times_absent, times-remove, times-is_empty,
}

abbrev pub watches : Sessions → (p host : ℕ) → Bool
watches s p host = elim (s.spectating p) [ none ↦ false | some current ↦ current == host ]

-- A player is once in the spectators of the host that it watches and in no others, and whoever
-- watches is in the host's channel.
pub record IsConsistent (s : Sessions) : Type 0 where
  pub watched : (host p : ℕ) → times p (s.spectators host) ≡ (if watches s p host then 1 else 0)
  pub in_channel :
      (host p : ℕ) → times p (s.spectators host) ≤ times p (players_of (s.channel host))

module _ (priv : ℕ → ℕ) (host p : ℕ) (s : Sessions) where
  pub join-spectators : (join_channel priv host p s).1.spectators ≡ s.spectators
  unfolding join_channel
  join-spectators = ground arith

  pub join-spectating : (join_channel priv host p s).1.spectating ≡ s.spectating
  unfolding join_channel
  join-spectating = ground arith

  -- Joining takes nobody out of a channel, and puts the player in if it says so.
  pub join-channel :
      (h q : ℕ)
      → times q (players_of (s.channel h))
          + (if (join_channel priv host p s).0 && h == host && p == q then 1 else 0)
        ≤ times q (players_of ((join_channel priv host p s).1.channel h))
  unfolding join_channel
  join-channel h q =
      let same : (h == host) ≡ true → s.channel h ≡ s.channel host =
        λ e. ap s.channel ((==_iff h host).0 e) in
      ground (arith, times-append q p (players_of (s.channel host)), same)

module _ (host p : ℕ) (s : Sessions) where
  pub leave-spectators : (leave_channel host p s).spectators ≡ s.spectators
  unfolding leave_channel
  leave-spectators = ground arith

  pub leave-spectating : (leave_channel host p s).spectating ≡ s.spectating
  unfolding leave_channel
  leave-spectating = ground arith

  -- Leaving takes the player out once.
  leave-channel :
      (h q : ℕ)
      → times q (players_of (s.channel h))
        ≤ times q (players_of ((leave_channel host p s).channel h))
          + (if h == host && p == q then 1 else 0)
  unfolding leave_channel
  leave-channel h q =
      let ids = players_of (s.channel host) in
      let same : (h == host) ≡ true → s.channel h ≡ s.channel host =
        λ e. ap s.channel ((==_iff h host).0 e) in
      ground (arith, times-remove q p ids, times-is_empty q (remove p ids), same)

module _ (host p : ℕ) (s : Sessions) (v : IsConsistent s) where
  -- Whoever watches nobody starts to watch the host in whose channel it is.
  pub watch-IsConsistent :
      s.spectating p ≡ none
      → times p (s.spectators host) < times p (players_of (s.channel host))
      → IsConsistent (watch host p s)
  watch-IsConsistent free inside = record {
    watched = λ h q.
        let same : (h == host) ≡ true → s.spectators h ≡ s.spectators host =
          λ e. ap s.spectators ((==_iff h host).0 e) in
        let nobody : (q == p) ≡ true → s.spectating q ≡ none =
          λ e. ap s.spectating ((==_iff q p).0 e) ∙ free in
        ground (arith, same, nobody, v.watched h q, times-append q p (s.spectators host));
    in_channel = λ h q.
        let same : (h == host) ≡ true → s.channel h ≡ s.channel host =
          λ e. ap s.channel ((==_iff h host).0 e) in
        let room : (p == q) ≡ true
            → times q (s.spectators host) < times q (players_of (s.channel host)) =
          λ e. let who : p ≡ q = (==_iff p q).0 e in rw (← who) inside in
        ground (
          arith,
          same,
          room,
          v.in_channel h q,
          v.in_channel host q,
          times-append q p (s.spectators host),
        );
  }

  pub contains_watched : s.spectating p ≡ some host → contains p (s.spectators host) ≡ true
  contains_watched here =
      let once = v.watched host p in
      let unlisted = times_absent p (s.spectators host) in ground (arith, here, once, unlisted)

  pub channel_watched : s.spectating p ≡ some host → is_none (s.channel host) ≡ false
  channel_watched here = elim (Option-cases (s.channel host)) [
    | inr (ids, e) ↦ rw e refl
    | inl nothing ↦
        let empty : times p (players_of (s.channel host)) ≡ 0 = rw nothing (unfold times in refl) in
        ground (arith, here, v.watched host p, v.in_channel host p, empty)
  ]

  pub unwatch-IsConsistent : s.spectating p ≡ some host → IsConsistent (unwatch host p s)
  unwatch-IsConsistent here = record {
    watched = λ h q.
        let same : (h == host) ≡ true → s.spectators h ≡ s.spectators host =
          λ e. ap s.spectators ((==_iff h host).0 e) in
        let there : (q == p) ≡ true → s.spectating q ≡ some host =
          λ e. ap s.spectating ((==_iff q p).0 e) ∙ here in
        let fewer = times-remove q p (s.spectators host) (contains_watched here) in
        ground (arith, same, there, v.watched h q, v.watched host q, fewer);
    in_channel = λ h q.
        let same : (h == host) ≡ true → s.spectators h ≡ s.spectators host =
          λ e. ap s.spectators ((==_iff h host).0 e) in
        let fewer = times-remove q p (s.spectators host) (contains_watched here) in
        ground (arith, same, v.in_channel h q, fewer);
  }

  -- Who watched the host is no longer among its spectators.
  pub unwatched : s.spectating p ≡ some host → times p ((unwatch host p s).spectators host) ≡ 0
  unwatched here =
      let none_left = (unwatch-IsConsistent here).watched host p in
      ground (arith, none_left, (==_iff p p).1 refl)

-- What leaves the spectators alone and takes nobody out of a channel.
pub grow-IsConsistent :
    (s r : Sessions)
    → IsConsistent s
    → r.spectators ≡ s.spectators
    → r.spectating ≡ s.spectating
    → ((h q : ℕ) → times q (players_of (s.channel h)) ≤ times q (players_of (r.channel h)))
    → IsConsistent r
grow-IsConsistent s r v same_spectators same_spectating grown = record {
  watched = λ h q. rw (same_spectators, same_spectating) (v.watched h q);
  in_channel = λ h q.
      let before = v.in_channel h q in let after = grown h q in rw same_spectators (omega arith);
}

pub leave-IsConsistent :
    (host p : ℕ) (s : Sessions)
    → IsConsistent s
    → times p (s.spectators host) ≡ 0
    → IsConsistent (leave_channel host p s)
leave-IsConsistent host p s v gone = record {
  watched = λ h q. rw (leave-spectators host p s, leave-spectating host p s) (v.watched h q);
  in_channel = λ h q.
      let before = v.in_channel h q in
      let after = leave-channel host p s h q in
      let none_there : (h == host) ≡ true → (p == q) ≡ true → times q (s.spectators h) ≡ 0 = λ e k.
        let at : h ≡ host = (==_iff h host).0 e in
        let who : p ≡ q = (==_iff p q).0 k in rw (at, ← who) gone in
      rw (leave-spectators host p s) (ground (arith, before, after, none_there));
}
