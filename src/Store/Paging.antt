-- ===== src/Store/Paging.antt =====
-- A store node that keeps to the protocol, and one round of a query of it.
pub mod Forward
pub mod Backward
use Prim.Native.String.{String}
use mathlib.Core.List.{append_assoc}
use logos_messaging_js.Prelude.{
  ℕ, zero, suc, ◌+◌, ◌-◌, ◌<◌, ◌≤◌, ◌≡◌, refl, ap, sym, ◌∙◌, Bool, true, false, not, ◌&&◌, ◌||◌,
  Option, none, some, List, [], ◌∷◌, ◌++◌, length, take, drop, take_last, map, ltb, leb, ◌==◌,
  ◌===◌, ===_refl, Bool-cases, if◌then◌else◌, arith, inl, inr,
}
use logos_messaging_js.Store.{
  QueryRequestParams, StoreQueryRequest, WakuMessage, WakuMessageKeyValue, Reply, create,
  criteria_error, to_text, time_diff_error, has_some, is_hash_query, last, first, Yields, End, done,
  decode, is_short_page, check_reply, is_success, next_cursor, request_pages, query_per_page,
  response, max_page_size, page_limit,
}

-- The messages that a store node with these messages returns at once, `size` at most: forward the
-- first ones, backward the last ones, the oldest first in both cases.
abbrev pub page_of : {A : Type 0} → Bool → ℕ → List A → List A
page_of true size messages = take size messages
page_of false size messages = take_last size messages

-- What is left behind a message in the direction of the query.
abbrev pub beyond : {A : Type 0} → Bool → List A → List A → List A
beyond true before after = after
beyond false before after = before

module _ {H B : Type 0} (peer : ℕ → StoreQueryRequest H → Reply H B)
    (params : QueryRequestParams H) where
  -- The peer answers each request of the query with the page that follows the cursor, and keeps to
  -- the largest size of a page.
  pub record IsArchive (stored : List (WakuMessageKeyValue H B)) (size : ℕ) : Type 0 where
    pub positive : 0 < size
    pub capped : size ≤ max_page_size
    pub first_page :
        (round : ℕ)
        → peer round (create params none)
          ≡ response (some 200) (page_of params.pagination_forward size stored)
    pub next_page :
        (before : List (WakuMessageKeyValue H B)) (x : WakuMessageKeyValue H B)
        (after : List (WakuMessageKeyValue H B))
        → stored ≡ before ++ x ∷ after
        → (h : H) × (x.message_hash ≡ some h)
          × ((round : ℕ)
              → peer round (create params (some h))
                ≡ response (some 200) (
                    page_of params.pagination_forward size
                      (beyond params.pagination_forward before after)))

-- The query passes the checks of `queryPerPage`, and starts at one end of the store.
pub record IsAccepted {H D : Type 0} (decoders : List (String × D)) (params : QueryRequestParams H)
    : Type 0 where
  pub in_range : time_diff_error params.time_start params.time_end ≡ false
  pub decoded : to_text params.content_topics ≡ to_text (map (λ d. d.0) decoders)
  pub together : criteria_error params ≡ none
  pub from_the_end : params.pagination_cursor ≡ none

pub length-take-le : {A : Type 0} (n : ℕ) (xs : List A) → length (take n xs) ≤ n
length-take-le zero xs = omega arith
length-take-le (suc n) [] = omega arith
length-take-le (suc n) (x ∷ xs) = omega (arith, length-take-le n xs)

pub take-append-drop : {A : Type 0} (n : ℕ) (xs : List A) → take n xs ++ drop n xs ≡ xs
take-append-drop zero xs = refl
take-append-drop (suc n) [] = refl
take-append-drop (suc n) (x ∷ xs) = ap (◌∷◌ x) (take-append-drop n xs)

pub split_last :
    {A : Type 0} (x : A) (xs : List A)
    → (init : List A) × (y : A) × (x ∷ xs ≡ init ++ y ∷ []) × (last (x ∷ xs) ≡ some y)
split_last x [] = ([], x, refl, refl)
split_last x (y ∷ xs) = let (init, z, e, f) = split_last y xs in (x ∷ init, z, ap (◌∷◌ x) e, f)

pub map-append :
    {A C : Type 0} (f : A → C) (xs ys : List A) → map f (xs ++ ys) ≡ map f xs ++ map f ys
map-append f [] ys = refl
map-append f (x ∷ xs) ys = ap (◌∷◌ (f x)) (map-append f xs ys)

module _ {H B : Type 0} (params : QueryRequestParams H) (messages : List (WakuMessageKeyValue H B))
    (y : WakuMessageKeyValue H B) where
  pub next_cursor_forward :
      params.pagination_forward ≡ true
      → last messages ≡ some y
      → next_cursor params messages ≡ y.message_hash
  unfolding next_cursor
  next_cursor_forward e f = rw e (rw (f, next_cursor) refl)

  pub next_cursor_backward :
      params.pagination_forward ≡ false
      → first messages ≡ some y
      → next_cursor params messages ≡ y.message_hash
  unfolding next_cursor
  next_cursor_backward e f = rw e (rw (f, next_cursor) refl)

module _ {H B D : Type 0} (is_aborted is_aborted_after : ℕ → Bool)
    (peer : ℕ → StoreQueryRequest H → Reply H B)
    (decoders : List (String × (String → WakuMessage B → Option D)))
    (params : QueryRequestParams H) where
  -- A round in which the peer has nothing left.
  pub round_empty :
      (fuel round : ℕ) (cursor : Option H)
      → is_aborted round ≡ false
      → criteria_error params ≡ none
      → peer round (create params cursor) ≡ response (some 200) []
      → request_pages is_aborted is_aborted_after peer decoders params (suc fuel) round cursor
        ≡ record { pages = []; end = done }
  unfolding request_pages check_reply is_success
  round_empty fuel round cursor a c e = rw (a, c, e) refl

  -- A round in which the peer answers with a page.
  pub round_page :
      (fuel round : ℕ) (cursor : Option H) (x : WakuMessageKeyValue H B)
      (xs : List (WakuMessageKeyValue H B))
      → is_aborted round ≡ false
      → is_aborted_after round ≡ false
      → criteria_error params ≡ none
      → peer round (create params cursor) ≡ response (some 200) (x ∷ xs)
      → length (x ∷ xs) ≤ max_page_size
      → request_pages is_aborted is_aborted_after peer decoders params (suc fuel) round cursor ≡ (
          let rest =
            request_pages is_aborted is_aborted_after peer decoders params fuel
              (suc round)
              (next_cursor params (x ∷ xs)) in
          record { pages = map (decode decoders) (x ∷ xs) ∷ rest.pages; end = rest.end })
  unfolding request_pages check_reply is_success is_short_page
  round_page fuel round cursor x xs a b c e small =
      let long : ltb max_page_size (length (x ∷ xs)) ≡ false = ground arith in
      rw (a, c, e, b, long) refl

  pub accepted_lem :
      (fuel : ℕ)
      → IsAccepted decoders params
      → query_per_page is_aborted is_aborted_after peer decoders params fuel
        ≡ request_pages is_aborted is_aborted_after peer decoders params fuel 0 none
  unfolding query_per_page
  accepted_lem fuel ok =
      rw (ok.in_range, ok.decoded, ===_refl (to_text (map (λ d. d.0) decoders)), ok.from_the_end)
        (elim (Bool-cases (is_hash_query params)) [ inl e ↦ rw e refl | inr e ↦ rw e refl ])
