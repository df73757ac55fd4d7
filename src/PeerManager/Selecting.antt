-- ===== src/PeerManager/Selecting.antt =====
-- The peers that `getPeers` selects.
use Prim.Native.Nat.{min}
use Prim.Native.String.{String}
use logos_messaging_js.Prelude.{
  ℕ, zero, suc, ◌+◌, ◌≡◌, refl, ap, ◌∙◌, Bool, true, false, not, ◌&&◌, ◌||◌, List, [], ◌∷◌, ◌++◌,
  length, length-append, take, any-append, filter, leb, leb→le, ◌===◌, ===_iff, arith, Bool-cases,
  inl, inr,
}
use logos_messaging_js.Prelude.Maps.{lookup, lookup-delete}
use logos_messaging_js.PeerManager.{PeerManager, has, is_peer_locked, lock_peer, lock_all, select}

length-take : {A : Type 0} (n : ℕ) (xs : List A) → length (take n xs) ≡ min n (length xs)
length-take zero xs = omega arith
length-take (suc n) [] = omega arith
length-take (suc n) (x ∷ xs) = omega (arith, length-take n xs)

length-both :
    (p : String → Bool) (xs : List String)
    → length (filter p xs) + length (filter (λ x. not (p x)) xs) ≡ length xs
length-both p [] = omega arith
length-both p (x ∷ xs) = ground (arith, length-both p xs)

has-take : (q : String) (n : ℕ) (xs : List String) → has q (take n xs) ≡ true → has q xs ≡ true
has-take q zero xs h = absurd (ground arith)
has-take q (suc n) [] h = absurd (ground arith)
has-take q (suc n) (x ∷ xs) h = ground (arith, has-take q n xs)

has-filter :
    (q : String) (p : String → Bool) (xs : List String) → has q (filter p xs) ≡ (has q xs && p q)
has-filter q p [] = refl
has-filter q p (x ∷ xs) = ground (arith, has-filter q p xs, ===_iff x q, ap p {x = x} {y = q})

locked-lock_peer :
    (q id : String) (s : PeerManager)
    → is_peer_locked q (lock_peer id s) ≡ (is_peer_locked q s || (id === q))
unfolding is_peer_locked lock_peer
locked-lock_peer q id s = elim (Bool-cases (has id s.locked_peers)) [
  | inl e ↦ rw e (ground (arith, e, ===_iff id q, ap (λ x. has x s.locked_peers) {x = id} {y = q}))
  | inr e ↦ rw e (any-append (λ x. x === q) s.locked_peers (id ∷ []) ∙ ground arith)
]

-- After the lock a peer is locked if it was or is one of those.
locked-lock_all :
    (q : String) (ids : List String) (s : PeerManager)
    → is_peer_locked q (lock_all ids s) ≡ (is_peer_locked q s || has q ids)
unfolding lock_all
locked-lock_all q [] s = ground arith
locked-lock_all q (id ∷ ids) s =
    locked-lock_all q ids (lock_peer id s) ∙ ground (arith, locked-lock_peer q id s)

pub lookup-lock_all :
    (q : String) (ids : List String) (s : PeerManager)
    → has q ids ≡ false
    → lookup q (lock_all ids s).unlocked_peers ≡ lookup q s.unlocked_peers
unfolding lock_all lock_peer
lookup-lock_all q [] s h = refl
lookup-lock_all q (id ∷ ids) s h =
    lookup-lock_all q ids (lock_peer id s) (ground arith)
    ∙ ground (arith, lookup-delete id q s.unlocked_peers)

-- Of the peers that qualify, getPeers returns as many as are wanted and there; each peer that it
-- returns qualifies and is locked afterwards, and the locked peers are then those that were locked
-- and those that it returns.
pub select_lem :
    (results : List String) (s : PeerManager)
    → let after = select results s in
      (length after.0 ≡ min s.num_peers_to_use (length results))
      × ((q : String)
          → (has q after.0 ≡ true → (has q results ≡ true) × (is_peer_locked q after.1 ≡ true))
            × (is_peer_locked q after.1 ≡ (is_peer_locked q s || has q after.0)))
unfolding select
select_lem results s =
    let locked = filter (λ id. is_peer_locked id s) results in
    let free = filter (λ id. not (is_peer_locked id s)) results in
    let n = s.num_peers_to_use in
    let both = length-both (λ id. is_peer_locked id s) results in
    elim (Bool-cases (leb n (length locked))) [
      | inl enough ↦ rw enough (
        omega (arith, length-take n locked, both, leb→le n (length locked) enough),
        λ q.
            let inside = has-take q n locked in
            let which = has-filter q (λ id. is_peer_locked id s) results in
            (λ h. ground (arith, inside h, which), ground (arith, inside, which)),
      )
      | inr few ↦ rw few (
        omega (arith, length-take n (locked ++ free), length-append locked free, both),
        λ q.
            let inside = has-take q n (locked ++ free) in
            let which = has-filter q (λ id. is_peer_locked id s) results in
            let others = has-filter q (λ id. not (is_peer_locked id s)) results in
            let after = locked-lock_all q (take n (locked ++ free)) s in
            (
              λ h.
                  ground (
                    arith,
                    h,
                    inside h,
                    any-append (λ x. x === q) locked free,
                    which,
                    others,
                    after,
                  ),
              after,
            ),
      )
    ]

pub lookup-select :
    (q : String) (results : List String) (s : PeerManager)
    → has q (select results s).0 ≡ false
    → lookup q (select results s).1.unlocked_peers ≡ lookup q s.unlocked_peers
unfolding select
lookup-select q results s h =
    let locked = filter (λ id. is_peer_locked id s) results in
    elim (Bool-cases (leb s.num_peers_to_use (length locked))) [
      | inl enough ↦ rw enough refl
      | inr few ↦ rw few (lookup-lock_all q _ s (rw few at h))
    ]
