-- ===== src/Tests/Friends.antt =====
-- Runs of friends and blocks.
use bancho_prism_1_0_0_prod.Base.{◌≡◌, refl, true, ◌&&◌, none, some, ◌==◌, if◌then◌else◌}
use bancho_prism_1_0_0_prod.Replay.Build.{Identity, can_view_player}
use bancho_prism_1_0_0_prod.Relationships.{
  friend, block, Session, State, bot_id, is_friend, is_block, login, friend_add, block_command,
  unblock_command, done,
}
use bancho_prism_1_0_0_prod.Relationships.Service.{added, add_friend_service}
use bancho_prism_1_0_0_prod.Relationships.Cached.{IsCached}
use bancho_prism_1_0_0_prod.Relationships.Handlers.{login-IsCached}
use bancho_prism_1_0_0_prod.Relationships.Steps.{
  stay, go, logs_in, adds, blocks, says, Steps-IsCached, add_friend_service_keeps_block,
}

-- Player 2 has blocked player 3; nobody is online.
abbrev nobody_online : State
nobody_online = record {
  row = λ p u. if p == 2 && u == 3 then some block else none;
  session = λ p. none;
  priv = λ p. some 3;
}

nobody_online-IsCached : IsCached nobody_online
unfolding IsCached
nobody_online-IsCached p self there u = absurd cc

abbrev two_online : State
two_online = login 3 (login 2 nobody_online)

third_offline : (login 2 nobody_online).session 3 ≡ none
unfolding login
third_offline = refl

Steps-IsCached_example : IsCached (block_command 2 (some 3) (friend_add 2 3 two_online)).1
Steps-IsCached_example =
    Steps-IsCached nobody_online (block_command 2 (some 3) (friend_add 2 3 two_online)).1
      (go nobody_online (login 2 nobody_online) _ (logs_in 2 nobody_online refl) (
        go (login 2 nobody_online) two_online _ (logs_in 3 (login 2 nobody_online) third_offline) (
          go two_online (friend_add 2 3 two_online) _ (adds 2 3 two_online) (
            go (friend_add 2 3 two_online) (block_command 2 (some 3) (friend_add 2 3 two_online)).1
              _ (blocks 2 (some 3) (friend_add 2 3 two_online)) (stay _)))))
      nobody_online-IsCached

abbrev viewer : Identity
viewer = record { id = 2; priv = 3 }

abbrev own_session : Session
own_session = record {
  friends = λ u. if u == bot_id then true else is_friend (nobody_online.row 2 u);
  blocks = λ u. is_block (nobody_online.row 2 u);
}

viewer_online : (login 2 nobody_online).session 2 ≡ some own_session
unfolding login
viewer_online = refl

viewer_blocks : (login 2 nobody_online).row 2 3 ≡ some block
unfolding login
viewer_blocks = refl

target_known : (login 2 nobody_online).priv 3 ≡ some 3
unfolding login
target_known = refl

target_visible : can_view_player (some viewer) 3 3 ≡ true
unfolding can_view_player
target_visible = refl

add_friend_service_keeps_block_example :
    let r = add_friend_service viewer 3 (login 2 nobody_online) in
    let t = unblock_command 2 (some 3) r.1 in
    (r.0 ≡ added)
    × (r.1.row 2 3 ≡ some friend)
    × (says (λ x. x.blocks 3) (r.1.session 2) ≡ true)
    × (t.0 ≡ done)
    × (t.1.row 2 3 ≡ none)
    × (says (λ x. x.friends 3) (t.1.session 2) ≡ true)
add_friend_service_keeps_block_example =
    add_friend_service_keeps_block viewer 3 3 own_session (login 2 nobody_online)
      (login-IsCached 2 nobody_online nobody_online-IsCached) viewer_online viewer_blocks
      target_known target_visible refl refl
