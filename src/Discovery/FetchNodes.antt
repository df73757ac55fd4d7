-- ===== src/Discovery/FetchNodes.antt =====
-- packages/discovery/src/dns/fetch_nodes.ts: `fetchNodes`. `getNode` is an effect on a state of its own,
-- which does not throw.
pub mod Distinct
use Prim.Native.String.{String}
use logos_messaging_js.Prelude.{
  ℕ, zero, suc, ◌+◌, ◌-◌, ◌<◌, ◌≤◌, ◌≡◌, refl, Bool, true, false, not, ◌&&◌, ◌||◌, Option, none,
  some, List, [], ◌∷◌, ◌++◌, any, map, ltb, ◌===◌, if◌then◌else◌, length, arith, Bool-cases, inl,
  inr,
}

-- What the search looks at in an ENR.
pub record Enr : Type 0 where
  pub node_id : Option String
  pub has_waku2 : Bool

-- The nodes that are yielded, and how often `getNode` was called.
pub record Found : Type 0 where
  pub nodes : List Enr
  pub calls : ℕ

abbrev called : Found → Found
called found = record found { calls = suc found.calls }

abbrev yielded : Enr → Found → Found
yielded peer found = record { nodes = peer ∷ found.nodes; calls = suc found.calls }

abbrev pub named : Enr → Option String → Option (Enr × String)
named peer none = none
named peer (some id) = if id === "" then none else some (peer, id)

-- `!peer || !peer.nodeId` is `none`.
abbrev pub id_of : Option Enr → Option (Enr × String)
id_of none = none
id_of (some peer) = named peer peer.node_id

module _ {S : Type 0} (get_node : S → Option Enr × S) (max_errors : ℕ) where
  -- The loop, with the calls that are left, the errors so far and the ids that were seen.
  unfoldable pub search_nodes : ℕ → ℕ → List String → S → Found
  search_nodes zero errors seen s = record { nodes = []; calls = 0 }
  search_nodes (suc left) errors seen s =
      if ltb errors max_errors
      then elim (id_of (get_node s).0) [
        | none ↦ called (search_nodes left (suc errors) seen (get_node s).1)
        | some found ↦
            (if any (λ id. id === found.1) seen
              then called (search_nodes left errors seen (get_node s).1)
              else if found.0.has_waku2
              then yielded found.0 (search_nodes left errors (seen ++ found.1 ∷ []) (get_node s).1)
              else called (search_nodes left errors (seen ++ found.1 ∷ []) (get_node s).1))
      ]
      else record { nodes = []; calls = 0 }

  unfoldable pub fetch_nodes : ℕ → S → Found
  unfolding search_nodes
  fetch_nodes max_get s = search_nodes max_get 0 [] s
