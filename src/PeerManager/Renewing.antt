-- ===== src/PeerManager/Renewing.antt =====
-- A peer that was renewed is left alone for ten seconds.
use Prim.Native.String.{String}
use logos_messaging_js.Prelude.{
  ℕ, ◌+◌, ◌≤◌, ◌<◌, ◌≡◌, refl, ap, ◌∙◌, Bool, true, false, some, List, [], ◌∷◌, any, ◌===◌, ===_iff,
  ===_refl, arith,
}
use logos_messaging_js.Prelude.Maps.{lookup, lookup-insert}
use logos_messaging_js.PeerManager.{
  Peer, PeerManager, has, unlock_peer, qualifying, select, get_peers, renew_peer,
  is_peer_available_for_use,
}
use logos_messaging_js.PeerManager.Selecting.{select_lem, lookup-select}

-- The id was unlocked at a time that is not ten seconds ago.
IsResting : String → ℕ → PeerManager → Type 0
IsResting id now s =
    (value : ℕ) × (lookup id s.unlocked_peers ≡ some value) × (0 < value) × (now < value + 10000)

resting_unavailable :
    (id : String) (now : ℕ) (s : PeerManager)
    → IsResting id now s
    → is_peer_available_for_use id now s ≡ false
unfolding is_peer_available_for_use IsResting
resting_unavailable id now s (value, e, set, soon) =
    rw (e, is_peer_available_for_use) (ground arith)

module _ (has_shard_info : String → Bool) (is_peer_on_topic : String → String → Bool) where
  qualifying-available :
      (q : String) (peers : List Peer) (codec topic : String) (now : ℕ) (s : PeerManager)
      → is_peer_available_for_use q now s ≡ false
      → has q (qualifying has_shard_info is_peer_on_topic peers codec topic now s) ≡ false
  unfolding qualifying
  qualifying-available q [] codec topic now s h = refl
  qualifying-available q (p ∷ peers) codec topic now s h = ground (
    arith,
    h,
    qualifying-available q peers codec topic now s h,
    ===_iff p.id q,
    ap (λ x. is_peer_available_for_use x now s) {x = p.id} {y = q},
  )

  resting_left :
      (id : String) (peers : List Peer) (codec topic : String) (now : ℕ) (s : PeerManager)
      → IsResting id now s
      → (has id (get_peers has_shard_info is_peer_on_topic peers codec topic now s).0 ≡ false)
        × (lookup id
              (get_peers has_shard_info is_peer_on_topic peers codec topic now s).1.unlocked_peers
            ≡ lookup id s.unlocked_peers)
  unfolding get_peers
  resting_left id peers codec topic now s r =
      let results = qualifying has_shard_info is_peer_on_topic peers codec topic now s in
      let out : has id results ≡ false =
        qualifying-available id peers codec topic now s (resting_unavailable id now s r) in
      let (chosen, locked) = (select_lem results s).1 id in
      let unselected : has id (select results s).0 ≡ false =
        ground (arith, out, λ (h : has id (select results s).0 ≡ true). (chosen h).0) in
      (unselected, lookup-select id results s unselected)

  -- A connected peer that is renewed at a time that is not 0 is not among the peers that getPeers
  -- returns, for any protocol and topic, less than ten seconds later.
  pub renewed_resting :
      (id : String) (peers later_peers : List Peer) (codec later_codec topic later_topic : String)
      (now later : ℕ) (s : PeerManager)
      → any (λ p. p.id === id) peers ≡ true
      → 0 < now
      → now ≤ later
      → later < now + 10000
      → has id
          (get_peers has_shard_info is_peer_on_topic later_peers later_codec later_topic later
            (renew_peer has_shard_info is_peer_on_topic id peers codec topic now s)).0
        ≡ false
  unfolding renew_peer unlock_peer IsResting
  renewed_resting id peers later_peers codec later_codec topic later_topic now later s connected set
        order soon =
      let unlocked = unlock_peer id now s in
      let at : lookup id unlocked.unlocked_peers ≡ some now =
        lookup-insert id id now s.unlocked_peers ∙ rw (===_refl id) refl in
      let (out, kept) =
        resting_left id peers codec topic now unlocked (now, at, set, omega arith) in
      rw connected
        (resting_left id later_peers later_codec later_topic later _ (now, kept ∙ at, set, soon)).0
