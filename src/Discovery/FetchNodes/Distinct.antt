-- ===== src/Discovery/FetchNodes/Distinct.antt =====
-- What the search yields.
use Prim.Native.String.{String}
use logos_messaging_js.Prelude.{
  ℕ, zero, suc, ◌≤◌, ◌≡◌, refl, ◌∙◌, true, false, Option, none, some, List, [], ◌∷◌, ◌++◌, any,
  any-append, ltb, ◌===◌, length, arith, Bool-cases, Option-cases, inl, inr,
}
use logos_messaging_js.Discovery.FetchNodes.{Enr, named, id_of, search_nodes, fetch_nodes}

-- Nodes that support Waku, each with an id that is neither among the given ones nor that of an earlier
-- node.
abbrev pub IsNew : List String → List Enr → Type 0
IsNew seen [] = Unit
IsNew seen (peer ∷ nodes) =
    (id : String) × (peer.node_id ≡ some id)
    × (any (λ x. x === id) seen ≡ false)
    × (peer.has_waku2 ≡ true)
    × IsNew (seen ++ id ∷ []) nodes

IsNew-weaken :
    (seen more : List String) (nodes : List Enr)
    → ((id : String) → any (λ x. x === id) more ≡ false → any (λ x. x === id) seen ≡ false)
    → IsNew more nodes
    → IsNew seen nodes
IsNew-weaken seen more [] f h = tt
IsNew-weaken seen more (peer ∷ nodes) f (id, e, new, waku, rest) = (
  id,
  e,
  f id new,
  waku,
  IsNew-weaken (seen ++ id ∷ []) (more ++ id ∷ []) nodes
      (λ j g.
        any-append (λ x. x === j) seen (id ∷ [])
        ∙ ground (arith, f j, g, any-append (λ x. x === j) more (id ∷ [])))
      rest,
)

named_lem :
    (q p : Enr) (o : Option String) (id : String)
    → q.node_id ≡ o
    → named q o ≡ some (p, id)
    → p.node_id ≡ some id
named_lem q p none id f e = absurd (ground arith)
named_lem q p (some j) id f e = ground (arith, f, e)

id_of_lem :
    (peer : Option Enr) (p : Enr) (id : String) → id_of peer ≡ some (p, id) → p.node_id ≡ some id
id_of_lem none p id e = absurd (ground arith)
id_of_lem (some q) p id e = named_lem q p q.node_id id refl e

module _ {S : Type 0} (get_node : S → Option Enr × S) (max_errors : ℕ) where
  search_nodes_lem :
      (left errors : ℕ) (seen : List String) (s : S)
      → IsNew seen (search_nodes get_node max_errors left errors seen s).nodes
        × (length (search_nodes get_node max_errors left errors seen s).nodes
            ≤ (search_nodes get_node max_errors left errors seen s).calls)
        × ((search_nodes get_node max_errors left errors seen s).calls ≤ left)
  unfolding search_nodes
  search_nodes_lem zero errors seen s = (tt, omega arith, omega arith)
  search_nodes_lem (suc left) errors seen s = elim (Bool-cases (ltb errors max_errors)) [
    | inr stop ↦ rw stop (tt, omega arith, omega arith)
    | inl more ↦ rw more (elim (Option-cases (id_of (get_node s).0)) [
      | inl e ↦
          let (new, fewer, bound) = search_nodes_lem left (suc errors) seen (get_node s).1 in
          rw e (new, omega arith, omega arith)
      | inr (found, e) ↦ rw e (elim (Bool-cases (any (λ id. id === found.1) seen)) [
        | inl old ↦
            let (new, fewer, bound) = search_nodes_lem left errors seen (get_node s).1 in
            rw old (new, omega arith, omega arith)
        | inr fresh ↦
            let (new, fewer, bound) =
              search_nodes_lem left errors (seen ++ found.1 ∷ []) (get_node s).1 in
            rw fresh (elim (Bool-cases found.0.has_waku2) [
              | inl waku ↦ rw waku (
                (found.1, id_of_lem (get_node s).0 found.0 found.1 e, fresh, refl, new),
                omega arith,
                omega arith,
              )
              | inr other ↦ rw other (
                IsNew-weaken seen (seen ++ found.1 ∷ []) _
                    (λ j g. ground (arith, g, any-append (λ x. x === j) seen (found.1 ∷ []))) new,
                omega arith,
                omega arith,
              )
            ])
      ])
    ])
  ]

  -- For any getNode, fetchNodes calls it at most maxGet times, and the nodes that it yields
  -- support Waku and have ids, no two of them the same.
  pub fetch_nodes_lem :
      (max_get : ℕ) (s : S)
      → IsNew [] (fetch_nodes get_node max_errors max_get s).nodes
        × (length (fetch_nodes get_node max_errors max_get s).nodes
            ≤ (fetch_nodes get_node max_errors max_get s).calls)
        × ((fetch_nodes get_node max_errors max_get s).calls ≤ max_get)
  unfolding fetch_nodes
  fetch_nodes_lem max_get s = search_nodes_lem max_get 0 [] s
