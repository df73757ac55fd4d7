-- ===== src/Tests/Peers.antt =====
-- Peers, nodes and content topics.
use Prim.Native.String.{String}
use logos_messaging_js.Prelude.{
  ℕ, suc, ◌≤◌, ◌≡◌, refl, true, false, ◌||◌, Option, none, some, List, [], ◌∷◌, length, filter, all,
  is_some, ◌===◌, arith,
}
use Prim.Native.Nat.{min}
use logos_messaging_js.PeerManager.{
  Peer, PeerManager, init, has, select, is_peer_locked, get_peers, renew_peer,
}
use logos_messaging_js.PeerManager.Selecting.{select_lem}
use logos_messaging_js.PeerManager.Renewing.{renewed_resting}
use logos_messaging_js.Discovery.FetchNodes.{Enr, fetch_nodes}
use logos_messaging_js.Discovery.FetchNodes.Distinct.{IsNew, fetch_nodes_lem}
use logos_messaging_js.Sharding.Topics.{
  content_topic_to_pubsub_topic, topics_at, content_topics_by_pubsub_topic,
}
use logos_messaging_js.Sharding.Topics.Grouping.{is_at, content_topics_by_pubsub_topic_lem}

abbrev peer : String → Peer
peer id = record { id = id; protocols = "store" ∷ "filter" ∷ [] }

abbrev three_peers : List Peer
three_peers = peer "a" ∷ peer "b" ∷ peer "c" ∷ []

abbrev manager : PeerManager
manager = record (init none []) { locked_peers = "b" ∷ [] }

abbrev three_ids : List String
three_ids = "a" ∷ "b" ∷ "c" ∷ []

select_lem_example :
    (length (select three_ids manager).0 ≡ min manager.num_peers_to_use (length three_ids))
    × ((q : String)
        → (has q (select three_ids manager).0 ≡ true
            → (has q three_ids ≡ true) × (is_peer_locked q (select three_ids manager).1 ≡ true))
          × (is_peer_locked q (select three_ids manager).1
              ≡ (is_peer_locked q manager || has q (select three_ids manager).0)))
select_lem_example = select_lem three_ids manager

-- The locked peer comes first.
select_locked : (select three_ids manager).0 ≡ "b" ∷ "a" ∷ []
unfolding select init ◌===◌
select_locked = refl

renewed_resting_example :
    has "b"
      (get_peers
        (λ id. false)
        (λ id topic. true)
        three_peers
        "filter"
        "/waku/2/rs/1/0"
        1700000009999
        (renew_peer
          (λ id. false)
          (λ id topic. true)
          "b"
          three_peers
          "store"
          "/waku/2/rs/1/0"
          1700000000000
          manager)).0
    ≡ false
unfolding ◌===◌
renewed_resting_example =
    renewed_resting (λ id. false) (λ id topic. true) "b" three_peers three_peers "store" "filter"
      "/waku/2/rs/1/0" "/waku/2/rs/1/0" 1700000000000 1700000009999 manager refl (omega arith)
      (omega arith) (omega arith)

abbrev node : String → Option Enr
node id = some (record { node_id = some id; has_waku2 = true })

-- The state is the list of nodes that are still found.
abbrev next_node : List (Option Enr) → Option Enr × List (Option Enr)
next_node [] = (none, [])
next_node (n ∷ nodes) = (n, nodes)

fetch_nodes_lem_example :
    IsNew [] (fetch_nodes next_node 3 10 (node "x" ∷ none ∷ node "x" ∷ node "y" ∷ [])).nodes
    × (length (fetch_nodes next_node 3 10 (node "x" ∷ none ∷ node "x" ∷ node "y" ∷ [])).nodes
        ≤ (fetch_nodes next_node 3 10 (node "x" ∷ none ∷ node "x" ∷ node "y" ∷ [])).calls)
    × ((fetch_nodes next_node 3 10 (node "x" ∷ none ∷ node "x" ∷ node "y" ∷ [])).calls ≤ 10)
fetch_nodes_lem_example =
    fetch_nodes_lem next_node 3 10 (node "x" ∷ none ∷ node "x" ∷ node "y" ∷ [])

-- As a hash, one number for each text.
abbrev text_length : String → ℕ
text_length String.[] = 0
text_length (String.◌∷◌ c s) = suc (text_length s)

abbrev some_topics : List String
some_topics = "/app/1/chat/proto" ∷ "/other/1/chat/proto" ∷ "/app/1/news/proto" ∷ []

content_topics_by_pubsub_topic_lem_example :
    (is_some
        (content_topics_by_pubsub_topic (λ bytes. bytes) (λ s. text_length s ∷ []) some_topics 1 8)
      ≡ all
          (λ t.
            is_some
              (content_topic_to_pubsub_topic (λ bytes. bytes) (λ s. text_length s ∷ []) t 1 8))
          some_topics)
    × ((groups : List (String × List String))
        → content_topics_by_pubsub_topic (λ bytes. bytes) (λ s. text_length s ∷ []) some_topics 1 8
          ≡ some groups
        → (p : String)
        → topics_at p groups
          ≡ filter (is_at (λ bytes. bytes) (λ s. text_length s ∷ []) 1 8 p) some_topics)
content_topics_by_pubsub_topic_lem_example =
    content_topics_by_pubsub_topic_lem (λ bytes. bytes) (λ s. text_length s ∷ []) 1 8 some_topics
