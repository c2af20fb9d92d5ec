-- ===== src/Spectators/Requests.antt =====
-- The handlers START_SPECTATING and STOP_SPECTATING of app/api/domains/cho.py, and any sequence of
-- them.
use bancho_prism_1_0_0_prod.Base.{
  ℕ, ◌<◌, ◌≡◌, ◌∙◌, refl, ap, List, [], ◌∷◌, Bool, true, none, some, arith, ◌==◌, ==_iff, Result,
  ok, err, Bool-cases, Option-cases, inl, inr,
}
use bancho_prism_1_0_0_prod.Base.Int.{ℤ, pos, negsuc}
use bancho_prism_1_0_0_prod.Match.{is_none}
use bancho_prism_1_0_0_prod.Spectators.{
  Sessions, players_of, is_empty, join_channel, leave_channel, open_channel, announce,
  add_spectator, unwatch, parted, remove_spectator, write_channel, stop_spectating,
  start_spectating, then_add,
}
use bancho_prism_1_0_0_prod.Spectators.Times.{times, times-is_empty}
use bancho_prism_1_0_0_prod.Spectators.Kept.{
  IsConsistent, join-spectators, join-spectating, join-channel, leave-spectating, contains_watched,
  channel_watched, watch-IsConsistent, unwatch-IsConsistent, unwatched, grow-IsConsistent,
  leave-IsConsistent,
}

module _ (host p : ℕ) (s : Sessions) (v : IsConsistent s) where
  parted-IsConsistent : IsConsistent (parted host p s)
  parted-IsConsistent = elim (Bool-cases (is_empty (s.spectators host))) [
    | inl alone ↦
        rw alone (leave-IsConsistent host host s v (times-is_empty host (s.spectators host) alone))
    | inr others ↦ rw others (grow-IsConsistent s _ v refl refl (λ h q. omega arith))
  ]

  parted-spectating : (parted host p s).spectating ≡ s.spectating
  parted-spectating = ground (arith, leave-spectating host host s)

module _ (host p : ℕ) (s : Sessions) (v : IsConsistent s) where
  -- A player who watches the host is taken from its spectators, without an error.
  remove-IsConsistent :
      s.spectating p ≡ some host
      → let r = remove_spectator host p s in
        (r.0 ≡ ok tt) × IsConsistent r.1 × (r.1.spectating p ≡ none)
  unfolding remove_spectator
  remove-IsConsistent here =
      let alone = unwatch host p s in
      let a = unwatch-IsConsistent host p s v here in
      let out = leave_channel host p alone in
      let b = leave-IsConsistent host p alone a (unwatched host p s v here) in
      rw (contains_watched host p s v here, channel_watched host p s v here)
        (
          refl,
          grow-IsConsistent (parted host p out) _ (parted-IsConsistent host p out b) refl refl
              (λ h q. omega arith),
          ap (λ f. f p) (parted-spectating host p out b ∙ leave-spectating host p alone)
              ∙ rw ((==_iff p p).1 refl) refl,
        )

nobody_there : (q : ℕ) → times q [] ≡ 0
unfolding times
nobody_there q = refl

module _ (priv : ℕ → ℕ) (host : ℕ) (s : Sessions) (v : IsConsistent s) where
  join-IsConsistent : (p : ℕ) → IsConsistent (join_channel priv host p s).1
  join-IsConsistent p =
      grow-IsConsistent s _ v (join-spectators priv host p s) (join-spectating priv host p s)
        (λ h q. omega (arith, join-channel priv host p s h q))

  -- An empty channel where there was none.
  opened-IsConsistent :
      is_none (s.channel host) ≡ true → IsConsistent (write_channel host (some []) s)
  opened-IsConsistent h = grow-IsConsistent s _ v refl refl (λ k q.
      let same : (k == host) ≡ true → is_none (s.channel k) ≡ true =
        λ e. ap (λ x. is_none (s.channel x)) ((==_iff k host).0 e) ∙ h in
      let nobody : is_none (s.channel k) ≡ true → times q (players_of (s.channel k)) ≡ 0 =
        λ e. ground (arith, e, nobody_there q) in
      ground (arith, same, nobody, nobody_there q))

module _ (priv : ℕ → ℕ) (host : ℕ) (s : Sessions) (v : IsConsistent s) where
  open-IsConsistent : IsConsistent (open_channel priv host s)
  open-IsConsistent = elim (Bool-cases (is_none (s.channel host))) [
    | inl closed ↦ rw closed (
        join-IsConsistent priv host (write_channel host (some []) s)
          (opened-IsConsistent priv host s v closed) host)
    | inr opened ↦ rw opened v
  ]

  open-spectating : (open_channel priv host s).spectating ≡ s.spectating
  open-spectating = ground (arith, join-spectating priv host host (write_channel host (some []) s))

announce-IsConsistent :
    (stealth : ℕ → Bool) (host p : ℕ) (s : Sessions)
    → IsConsistent s
    → IsConsistent (announce stealth host p s)
announce-IsConsistent stealth host p s v = elim (Bool-cases (stealth p)) [
  | inl hidden ↦ rw hidden (grow-IsConsistent s _ v refl refl (λ h q. omega arith))
  | inr shown ↦ rw shown (grow-IsConsistent s _ v refl refl (λ h q. omega arith))
]

announce-fields :
    (stealth : ℕ → Bool) (host p : ℕ) (s : Sessions)
    → ((announce stealth host p s).spectators ≡ s.spectators)
      × ((announce stealth host p s).spectating ≡ s.spectating)
      × ((announce stealth host p s).channel ≡ s.channel)
announce-fields stealth host p s = ground arith

module _ (priv : ℕ → ℕ) (stealth : ℕ → Bool) (host p : ℕ) (s : Sessions) (v : IsConsistent s) where
  -- A player who watches nobody starts to watch the host, if it may join the channel.
  add-IsConsistent : s.spectating p ≡ none → IsConsistent (add_spectator priv stealth host p s)
  unfolding add_spectator
  add-IsConsistent free =
      let o = open_channel priv host s in
      let a = open-IsConsistent priv host s v in
      let tried = join_channel priv host p o in
      let b = join-IsConsistent priv host o a p in
      elim (Bool-cases tried.0) [
        | inr refused ↦ rw refused b
        | inl joined ↦
            let told = announce stealth host p tried.1 in
            let c = announce-IsConsistent stealth host p tried.1 b in
            let (as_before, watching, rooms) = announce-fields stealth host p tried.1 in
            let still_free : told.spectating p ≡ none =
              ap (λ f. f p)
                (watching ∙ join-spectating priv host p o ∙ open-spectating priv host s v)
              ∙ free in
            let more = join-channel priv host p o host p in
            let before = a.in_channel host p in
            let inside : times p (told.spectators host) < times p (players_of (told.channel host)) =
              rw (as_before, rooms, join-spectators priv host p o)
                (ground
                  (arith, joined, more, before, (==_iff host host).1 refl, (==_iff p p).1 refl)) in
            rw joined (watch-IsConsistent host p told c still_free inside)
      ]

-- The two packets.
pub data SpectatorRequest : Type 0 where
  start_request : ℤ → SpectatorRequest
  stop_request : SpectatorRequest

-- What comes next, unless an exception was raised.
abbrev pub unless_raised :
    Result (Unit {0}) × Sessions
    → (Sessions → Result (Unit {0}) × Sessions)
    → Result (Unit {0}) × Sessions
unless_raised (err e, s) next = (err e, s)
unless_raised (ok u, s) next = next s

module _ (priv : ℕ → ℕ) (stealth online : ℕ → Bool) where
  unfoldable pub spectator_request :
      (p : ℕ) → SpectatorRequest → Sessions → Result (Unit {0}) × Sessions
  spectator_request p (start_request target_id) s =
      start_spectating priv stealth online p target_id s
  spectator_request p stop_request s = stop_spectating p s

  -- Requests of players one after another, to the first that raises.
  unfoldable pub spectator_requests :
      List (ℕ × SpectatorRequest) → Sessions → Result (Unit {0}) × Sessions
  spectator_requests [] s = (ok tt, s)
  spectator_requests ((p, r) ∷ requests) s =
      unless_raised (spectator_request p r s) (spectator_requests requests)

-- A request that raises nothing and leaves the sessions consistent.
abbrev pub IsKept : Result (Unit {0}) × Sessions → Type 0
IsKept r = (r.0 ≡ ok tt) × IsConsistent r.1

stop-IsKept : (p : ℕ) (s : Sessions) → IsConsistent s → IsKept (stop_spectating p s)
unfolding stop_spectating
stop-IsKept p s v = elim (Option-cases (s.spectating p)) [
  | inl nobody ↦ rw (nobody, stop_spectating) (refl, v)
  | inr (host, e) ↦
      let (a, b, c) = remove-IsConsistent host p s v e in rw (e, stop_spectating) (a, b)
]

module _ (priv : ℕ → ℕ) (stealth online : ℕ → Bool) (p : ℕ) where
  then_add-IsKept :
      (host : ℕ) (r : Result (Unit {0}) × Sessions)
      → (r.0 ≡ ok tt) × IsConsistent r.1 × (r.1.spectating p ≡ none)
      → IsKept (then_add priv stealth host p r)
  then_add-IsKept host (err e, s) (a, b, c) = cc
  then_add-IsKept host (ok u, s) (a, b, c) = (refl, add-IsConsistent priv stealth host p s b c)

  start-IsKept :
      (target_id : ℤ) (s : Sessions)
      → IsConsistent s
      → IsKept (start_spectating priv stealth online p target_id s)
  unfolding start_spectating
  start-IsKept (negsuc n) s v = (refl, v)
  start-IsKept (pos host) s v = elim (Bool-cases (online host)) [
    | inr offline ↦ rw offline (refl, v)
    | inl there ↦ elim (Option-cases (s.spectating p)) [
      | inl nobody ↦ rw (there, nobody) (refl, add-IsConsistent priv stealth host p s v nobody)
      | inr (current, e) ↦ elim (Bool-cases (current == host)) [
        | inr other ↦
            rw (there, e, other)
              (then_add-IsKept host (remove_spectator current p s)
                (remove-IsConsistent current p s v e))
        | inl same ↦ elim (Bool-cases (stealth p)) [
          | inl hidden ↦ rw (there, e, same, hidden) (refl, v)
          | inr shown ↦
              rw (there, e, same, shown)
                (refl, grow-IsConsistent s _ v refl refl (λ h q. omega arith))
        ]
      ]
    ]
  ]

unless_raised-IsKept :
    (r : Result (Unit {0}) × Sessions) (next : Sessions → Result (Unit {0}) × Sessions)
    → IsKept r
    → ((s : Sessions) → IsConsistent s → IsKept (next s))
    → IsKept (unless_raised r next)
unless_raised-IsKept (err e, s) next (a, b) h = cc
unless_raised-IsKept (ok u, s) next (a, b) h = h s b

module _ (priv : ℕ → ℕ) (stealth online : ℕ → Bool) where
  spectator_request-IsKept :
      (p : ℕ) (r : SpectatorRequest) (s : Sessions)
      → IsConsistent s
      → IsKept (spectator_request priv stealth online p r s)
  unfolding spectator_request
  spectator_request-IsKept p (start_request t) s v = start-IsKept priv stealth online p t s v
  spectator_request-IsKept p stop_request s v = stop-IsKept p s v

-- From consistent sessions, whatever players start and stop spectating in whatever order, no request
-- raises, and the sessions stay consistent: whoever watches a host is once among the host's
-- spectators and in the host's channel, and nobody else is a spectator.
pub spectator_requests-IsKept :
    (priv : ℕ → ℕ) (stealth online : ℕ → Bool) (requests : List (ℕ × SpectatorRequest))
    (s : Sessions)
    → IsConsistent s
    → IsKept (spectator_requests priv stealth online requests s)
unfolding spectator_requests
spectator_requests-IsKept priv stealth online [] s v = (refl, v)
spectator_requests-IsKept priv stealth online ((p, r) ∷ requests) s v =
    unless_raised-IsKept (spectator_request priv stealth online p r s) _
      (spectator_request-IsKept priv stealth online p r s v)
      (λ t w. spectator_requests-IsKept priv stealth online requests t w)
