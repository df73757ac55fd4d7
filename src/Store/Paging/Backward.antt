-- ===== src/Store/Paging/Backward.antt =====
-- A backward query of a store node that keeps to the protocol yields all of its messages, the last
-- page first.
use Prim.Native.String.{String}
use mathlib.Core.List.{append_assoc, append-nil}
use logos_messaging_js.Prelude.{
  ℕ, zero, suc, ◌-◌, ◌<◌, ◌≤◌, ◌≡◌, refl, ap, sym, ◌∙◌, Bool, false, Option, none, some, List, [],
  ◌∷◌, ◌++◌, length, length-drop, take, drop, take_last, length-take_last, map, arith,
}
use logos_messaging_js.Store.{
  QueryRequestParams, StoreQueryRequest, WakuMessage, WakuMessageKeyValue, Reply, create,
  criteria_error, done, decode, next_cursor, request_pages, query_per_page, response,
}
use logos_messaging_js.Store.Paging.{
  IsArchive, IsAccepted, length-take-le, take-append-drop, map-append, next_cursor_backward,
  round_empty, round_page, accepted_lem,
}

-- The pages from the last to the first.
abbrev pub concat_backward : {A : Type 0} → List (List A) → List A
concat_backward [] = []
concat_backward (xs ∷ pages) = concat_backward pages ++ xs

-- The last elements of a list that has some.
last_page :
    {A : Type 0} (n : ℕ) (xs : List A)
    → 0 < length xs
    → (y : A) × (ys : List A) × (take_last (suc n) xs ≡ y ∷ ys)
      × (take (length xs - suc n) xs ++ y ∷ ys ≡ xs)
last_page n xs some_left = go (drop (length xs - suc n) xs) refl
  where
    go :
        (page : List _)
        → drop (length xs - suc n) xs ≡ page
        → (y : _) × (ys : List _) × (take_last (suc n) xs ≡ y ∷ ys)
          × (take (length xs - suc n) xs ++ y ∷ ys ≡ xs)
    go [] e = absurd (omega (arith, length-drop (length xs - suc n) xs, ap length e))
    go (y ∷ ys) e = (y, ys, e, rw (← e) (take-append-drop (length xs - suc n) xs))

module _ {H B D : Type 0} (is_aborted is_aborted_after : ℕ → Bool)
    (peer : ℕ → StoreQueryRequest H → Reply H B)
    (decoders : List (String × (String → WakuMessage B → Option D))) (params : QueryRequestParams H)
    (stored : List (WakuMessageKeyValue H B)) (size : ℕ)
    (archive : IsArchive peer params stored size) (backward : params.pagination_forward ≡ false)
    (running : (round : ℕ) → (is_aborted round ≡ false) × (is_aborted_after round ≡ false))
    (together : criteria_error params ≡ none) where
  backward_rounds :
      (n : ℕ)
      → size ≡ suc n
      → (fuel round : ℕ) (cursor : Option H) (rest after : List (WakuMessageKeyValue H B))
      → stored ≡ rest ++ after
      → length rest < fuel
      → ((k : ℕ) → peer k (create params cursor) ≡ response (some 200) (take_last size rest))
      → (concat_backward
            (request_pages is_aborted is_aborted_after peer decoders params fuel round cursor).pages
          ≡ map (decode decoders) rest)
        × ((request_pages is_aborted is_aborted_after peer decoders params fuel round cursor).end
            ≡ done)
  backward_rounds n s zero round cursor rest after e lt answer = absurd (omega arith)
  backward_rounds n s (suc fuel) round cursor [] after e lt answer =
      let none_left : 0 - suc n ≡ 0 = omega arith in
      let empty : peer round (create params cursor) ≡ response (some 200) [] =
        answer round ∙ rw s (ap (λ k. response (some 200) (drop k [])) none_left) in
      rw
        (round_empty is_aborted is_aborted_after peer decoders params fuel round cursor
          (running round).0 together empty)
        (refl, refl)
  backward_rounds n s (suc fuel) round cursor (x ∷ xs) after e lt answer =
      let rest = x ∷ xs in
      let (y, ys, page, whole) = last_page n rest (omega arith) in
      let left = take (length rest - suc n) rest in
      let answered : peer round (create params cursor) ≡ response (some 200) (y ∷ ys) =
        answer round ∙ rw s (ap (response (some 200)) page) in
      let counted = ap length page in
      let small : length (y ∷ ys) ≤ 100 =
        omega (arith, counted, length-take_last (suc n) rest, archive.capped, s) in
      let fewer : length left < fuel = omega (arith, length-take-le (length rest - suc n) rest) in
      let cut : stored ≡ left ++ y ∷ (ys ++ after) =
        e ∙ ap (λ r. r ++ after) (sym whole) ∙ append_assoc left (y ∷ ys) after in
      let (h, hashed, next) = archive.next_page left y (ys ++ after) cut in
      let cursor' : next_cursor params (y ∷ ys) ≡ some h =
        next_cursor_backward params (y ∷ ys) y backward refl ∙ hashed in
      let (pages, end) =
        backward_rounds n s fuel (suc round) (some h) left (y ∷ (ys ++ after)) cut fewer
          (λ k. next k ∙ rw backward refl) in
      rw
        (
          round_page is_aborted is_aborted_after peer decoders params fuel round cursor y ys
              (running round).0 (running round).1 together answered small,
          cursor',
        )
        (
          ap (λ p. p ++ map (decode decoders) (y ∷ ys)) pages
              ∙ sym (map-append (decode decoders) left (y ∷ ys))
              ∙ ap (map (decode decoders)) whole,
          end,
        )

module _ {H B D : Type 0} (is_aborted is_aborted_after : ℕ → Bool)
    (peer : ℕ → StoreQueryRequest H → Reply H B)
    (decoders : List (String × (String → WakuMessage B → Option D))) (params : QueryRequestParams H)
    (stored : List (WakuMessageKeyValue H B)) (size : ℕ) where
  -- A backward query that passes the checks of queryPerPage, is never aborted and asks a store
  -- node that keeps to the protocol (IsArchive) ends without an error, with more fuel than the
  -- node has messages, and its pages, the last one first, are together the decoded messages of the
  -- node, in their order, none missing and none twice.
  pub query_backward :
      IsArchive peer params stored size
      → IsAccepted decoders params
      → params.pagination_forward ≡ false
      → ((round : ℕ) → (is_aborted round ≡ false) × (is_aborted_after round ≡ false))
      → (fuel : ℕ) → length stored < fuel
      → (concat_backward
            (query_per_page is_aborted is_aborted_after peer decoders params fuel).pages
          ≡ map (decode decoders) stored)
        × ((query_per_page is_aborted is_aborted_after peer decoders params fuel).end ≡ done)
  query_backward archive ok backward running fuel enough =
      let n : suc (size - 1) ≡ size = omega (arith, archive.positive) in
      rw (accepted_lem is_aborted is_aborted_after peer decoders params fuel ok) (
        backward_rounds is_aborted is_aborted_after peer decoders params stored size archive
          backward running ok.together (size - 1) (sym n) fuel 0 none stored []
          (sym (append-nil stored)) enough (λ k. archive.first_page k ∙ rw backward refl))
