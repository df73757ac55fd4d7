-- ===== src/PeerManager.antt =====
-- packages/sdk/src/peer_manager/peer_manager.ts: which peers a protocol uses. A peer id is its text; the
-- codecs, the connected peers and what the connection manager knows of their topics are parameters.
-- `getPeers` waits for them before it selects, and the state is that after the last of these waits.
pub mod Selecting
pub mod Renewing
use Prim.Native.String.{String}
use logos_messaging_js.Prelude.{
  ℕ, zero, suc, ◌+◌, ◌-◌, Bool, true, false, not, ◌&&◌, ◌||◌, Option, none, some, List, [], ◌∷◌,
  ◌++◌, length, take, any, map, filter, find, ltb, leb, ◌==◌, ◌===◌, if◌then◌else◌,
}
use logos_messaging_js.Prelude.Maps.{lookup, insert, delete}

pub record Peer : Type 0 where
  pub id : String
  pub protocols : List String

pub record Connection : Type 0 where
  pub remote_peer : String
  pub tags : List String

abbrev pub connection_locked_tag : String
connection_locked_tag = "locked"

abbrev pub default_num_peers_to_use : ℕ
default_num_peers_to_use = 2

pub record PeerManager : Type 0 where
  pub num_peers_to_use : ℕ
  pub locked_peers : List String
  pub unlocked_peers : List (String × ℕ)
  -- `libp2p.getConnections()`
  pub connections : List Connection

-- The constructor: 0 or no number of peers is replaced by the default.
unfoldable pub init : Option ℕ → List Connection → PeerManager
init num_peers_to_use connections = record {
  num_peers_to_use = elim num_peers_to_use as (λ _. ℕ) [
    | none ↦ default_num_peers_to_use
    | some n ↦ if n == 0 then default_num_peers_to_use else n
  ];
  locked_peers = [];
  unlocked_peers = [];
  connections = connections;
}

abbrev pub has : String → List String → Bool
has id ids = any (λ x. x === id) ids

unfoldable pub is_peer_locked : String → PeerManager → Bool
is_peer_locked id s = has id s.locked_peers

-- `value && now - value < 10_000` is the time in which a peer is not used.
unfoldable pub is_peer_available_for_use : String → ℕ → PeerManager → Bool
is_peer_available_for_use id now s = elim (lookup id s.unlocked_peers) [
  | none ↦ true
  | some value ↦ (value == 0) || leb 10000 (now - value)
]

unfoldable pub has_peer_protocol : Peer → String → Bool
has_peer_protocol peer codec = has codec peer.protocols

-- `set.add(id)`
abbrev add_id : String → List String → List String
add_id id ids = if has id ids then ids else ids ++ id ∷ []

abbrev push_tag : String → Connection → Connection
push_tag id c =
    if c.remote_peer === id then record c { tags = c.tags ++ connection_locked_tag ∷ [] } else c

abbrev drop_tag : String → Connection → Connection
drop_tag id c =
    if c.remote_peer === id
    then record c { tags = filter (λ t. not (t === connection_locked_tag)) c.tags }
    else c

unfoldable pub lock_peer : String → PeerManager → PeerManager
lock_peer id s = record s {
  locked_peers = add_id id s.locked_peers;
  connections = map (push_tag id) s.connections;
  unlocked_peers = delete id s.unlocked_peers;
}

unfoldable pub unlock_peer : String → ℕ → PeerManager → PeerManager
unlock_peer id now s = record s {
  locked_peers = filter (λ x. not (x === id)) s.locked_peers;
  connections = map (drop_tag id) s.connections;
  unlocked_peers = insert id now s.unlocked_peers;
}

unfoldable pub lock_all : List String → PeerManager → PeerManager
unfolding lock_peer
lock_all [] s = s
lock_all (id ∷ ids) s = lock_all ids (lock_peer id s)

-- The selection among the peers that qualify.
unfoldable pub select : List String → PeerManager → List String × PeerManager
unfolding is_peer_locked lock_all
select results s =
    let locked = filter (λ id. is_peer_locked id s) results in
    let not_locked = filter (λ id. not (is_peer_locked id s)) results in
    if leb s.num_peers_to_use (length locked) then (take s.num_peers_to_use locked, s) else (
      take s.num_peers_to_use (locked ++ not_locked),
      lock_all (take s.num_peers_to_use (locked ++ not_locked)) s,
    )

-- `connectionManager.hasShardInfo` and `isPeerOnTopic`.
module _ (has_shard_info : String → Bool) (is_peer_on_topic : String → String → Bool) where
  unfoldable pub is_peer_on_pubsub : String → String → Bool
  is_peer_on_pubsub id pubsub_topic =
      if has_shard_info id then is_peer_on_topic id pubsub_topic else true

  -- The peers that qualify.
  unfoldable pub qualifying : List Peer → String → String → ℕ → PeerManager → List String
  unfolding is_peer_on_pubsub has_peer_protocol is_peer_available_for_use
  qualifying peers codec pubsub_topic now s =
      map (λ p. p.id)
        (filter
          (λ p.
            has_peer_protocol p codec
            && (is_peer_on_pubsub p.id pubsub_topic && is_peer_available_for_use p.id now s))
          peers)

  unfoldable pub get_peers :
      List Peer → String → String → ℕ → PeerManager → List String × PeerManager
  unfolding qualifying select
  get_peers peers codec pubsub_topic now s = select (qualifying peers codec pubsub_topic now s) s

  unfoldable pub renew_peer : String → List Peer → String → String → ℕ → PeerManager → PeerManager
  unfolding get_peers unlock_peer
  renew_peer id peers codec pubsub_topic now s =
      if any (λ p. p.id === id) peers
      then (get_peers peers codec pubsub_topic now (unlock_peer id now s)).1
      else s
