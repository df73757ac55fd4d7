-- ===== src/Store/Paging/Forward.antt =====
-- A forward query of a store node that keeps to the protocol yields all of its messages, in order.
use Prim.Native.String.{String}
use mathlib.Core.List.{append_assoc}
use logos_messaging_js.Prelude.{
  ℕ, zero, suc, ◌-◌, ◌<◌, ◌≤◌, ◌≡◌, refl, ap, sym, ◌∙◌, Bool, true, false, Option, none, some, List,
  [], ◌∷◌, ◌++◌, length, length-drop, take, drop, map, arith,
}
use logos_messaging_js.Store.{
  QueryRequestParams, StoreQueryRequest, WakuMessage, WakuMessageKeyValue, Reply, create,
  criteria_error, done, decode, next_cursor, request_pages, query_per_page, response,
}
use logos_messaging_js.Store.Paging.{
  IsArchive, IsAccepted, length-take-le, take-append-drop, split_last, map-append,
  next_cursor_forward, round_empty, round_page, accepted_lem,
}

abbrev pub concat : {A : Type 0} → List (List A) → List A
concat [] = []
concat (xs ∷ pages) = xs ++ concat pages

module _ {H B D : Type 0} (is_aborted is_aborted_after : ℕ → Bool)
    (peer : ℕ → StoreQueryRequest H → Reply H B)
    (decoders : List (String × (String → WakuMessage B → Option D))) (params : QueryRequestParams H)
    (stored : List (WakuMessageKeyValue H B)) (size : ℕ)
    (archive : IsArchive peer params stored size) (forward : params.pagination_forward ≡ true)
    (running : (round : ℕ) → (is_aborted round ≡ false) × (is_aborted_after round ≡ false))
    (together : criteria_error params ≡ none) where
  forward_rounds :
      (n : ℕ)
      → size ≡ suc n
      → (fuel round : ℕ) (cursor : Option H) (before rest : List (WakuMessageKeyValue H B))
      → stored ≡ before ++ rest
      → length rest < fuel
      → ((k : ℕ) → peer k (create params cursor) ≡ response (some 200) (take size rest))
      → (concat
            (request_pages is_aborted is_aborted_after peer decoders params fuel round cursor).pages
          ≡ map (decode decoders) rest)
        × ((request_pages is_aborted is_aborted_after peer decoders params fuel round cursor).end
            ≡ done)
  forward_rounds n s zero round cursor before rest e lt answer = absurd (omega arith)
  forward_rounds n s (suc fuel) round cursor before [] e lt answer =
      let empty : peer round (create params cursor) ≡ response (some 200) [] =
        answer round ∙ rw s refl in
      rw
        (round_empty is_aborted is_aborted_after peer decoders params fuel round cursor
          (running round).0 together empty)
        (refl, refl)
  forward_rounds n s (suc fuel) round cursor before (x ∷ xs) e lt answer =
      let page = x ∷ take n xs in
      let behind = drop n xs in
      let answered : peer round (create params cursor) ≡ response (some 200) page =
        answer round ∙ rw s refl in
      let whole : page ++ behind ≡ x ∷ xs = ap (◌∷◌ x) (take-append-drop n xs) in
      let small : length page ≤ 100 = omega (arith, length-take-le n xs, archive.capped, s) in
      let (init, y, split, at_end) = split_last x (take n xs) in
      let cut : stored ≡ (before ++ init) ++ y ∷ behind =
        e
        ∙ ap (◌++◌ before)
            (sym whole ∙ ap (λ p. p ++ behind) split ∙ append_assoc init (y ∷ []) behind)
        ∙ sym (append_assoc before init (y ∷ behind)) in
      let (h, hashed, next) = archive.next_page (before ++ init) y behind cut in
      let cursor' : next_cursor params page ≡ some h =
        next_cursor_forward params page y forward at_end ∙ hashed in
      let (pages, end) =
        forward_rounds n s fuel (suc round) (some h) (before ++ page) behind
          (e ∙ ap (◌++◌ before) (sym whole) ∙ sym (append_assoc before page behind))
          (omega (arith, length-drop n xs)) (λ k. next k ∙ rw forward refl) in
      rw
        (
          round_page is_aborted is_aborted_after peer decoders params fuel round cursor x
              (take n xs) (running round).0 (running round).1 together answered small,
          cursor',
        )
        (
          ap (◌++◌ (map (decode decoders) page)) pages
              ∙ sym (map-append (decode decoders) page behind)
              ∙ ap (map (decode decoders)) whole,
          end,
        )

module _ {H B D : Type 0} (is_aborted is_aborted_after : ℕ → Bool)
    (peer : ℕ → StoreQueryRequest H → Reply H B)
    (decoders : List (String × (String → WakuMessage B → Option D))) (params : QueryRequestParams H)
    (stored : List (WakuMessageKeyValue H B)) (size : ℕ) where
  -- A forward query that passes the checks of queryPerPage, is never aborted and asks a store node
  -- that keeps to the protocol (IsArchive) ends without an error, with more fuel than the node has
  -- messages, and its pages are together the decoded messages of the node, in their order, none
  -- missing and none twice.
  pub query_forward :
      IsArchive peer params stored size
      → IsAccepted decoders params
      → params.pagination_forward ≡ true
      → ((round : ℕ) → (is_aborted round ≡ false) × (is_aborted_after round ≡ false))
      → (fuel : ℕ) → length stored < fuel
      → (concat (query_per_page is_aborted is_aborted_after peer decoders params fuel).pages
          ≡ map (decode decoders) stored)
        × ((query_per_page is_aborted is_aborted_after peer decoders params fuel).end ≡ done)
  query_forward archive ok forward running fuel enough =
      let n : suc (size - 1) ≡ size = omega (arith, archive.positive) in
      rw (accepted_lem is_aborted is_aborted_after peer decoders params fuel ok) (
        forward_rounds is_aborted is_aborted_after peer decoders params stored size archive forward
          running ok.together (size - 1) (sym n) fuel 0 none [] stored refl enough
          (λ k. archive.first_page k ∙ rw forward refl))
