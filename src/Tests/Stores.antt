-- ===== src/Tests/Stores.antt =====
-- A store node with three messages and pages of two.
use Prim.Native.String.{String}
use mathlib.Core.List.{head-eq_of_cons-eq, tail-eq_of_cons-eq}
use logos_messaging_js.Prelude.{
  ℕ, suc, length, length-append, ◌===◌, ◌+◌, ◌-◌, ◌*◌, ◌<◌, ◌≤◌, ◌≡◌, refl, sym, ap, Bool, true,
  false, ◌&&◌, Option, none, some, List, [], ◌∷◌, ◌++◌, map, take, drop, All, ltb, leb, arith,
}
use logos_messaging_js.Prelude.Maps.{lookup}
use logos_messaging_js.Store.{
  QueryRequestParams, StoreQueryRequest, WakuMessage, WakuMessageKeyValue, Reply, response, create,
  decode, done, query_per_page, time_diff_error, to_text, criteria_error, max_time_range,
}
use logos_messaging_js.Store.Paging.{IsArchive, IsAccepted, page_of, beyond}
use logos_messaging_js.Store.Paging.Forward.{concat, query_forward}
use logos_messaging_js.Store.Paging.Backward.{concat_backward, query_backward}
use logos_messaging_js.Store.Query.{sub_time_ranges}
use logos_messaging_js.Store.Query.Ranges.{asked, sub_time_ranges_lem}
use logos_messaging_js.Reliable.QueryOnConnect.{
  QueryOnConnect, init, query_time_range, max_time_range_query_ms,
}
use logos_messaging_js.Reliable.QueryOnConnect.Recent.{last_day_missed}

abbrev message : ℕ → WakuMessageKeyValue ℕ ℕ
message n = record {
  message_hash = some n;
  message = some (record { content_topic = "/app/1/chat/proto"; body = n });
  pubsub_topic = some "/waku/2/rs/1/0";
}

abbrev stored : List (WakuMessageKeyValue ℕ ℕ)
stored = message 1 ∷ message 2 ∷ message 3 ∷ []

abbrev before_hash : ℕ → List (WakuMessageKeyValue ℕ ℕ)
before_hash h = take (h - 1) stored

abbrev after_hash : ℕ → List (WakuMessageKeyValue ℕ ℕ)
after_hash h = drop h stored

-- It answers with the page after the cursor, in the direction of the request.
abbrev answer : Bool → Option ℕ → Reply ℕ ℕ
answer forward none = response (some 200) (page_of forward 2 stored)
answer forward (some h) =
    response (some 200) (page_of forward 2 (beyond forward (before_hash h) (after_hash h)))

abbrev node : ℕ → StoreQueryRequest ℕ → Reply ℕ ℕ
node round request = answer request.pagination_forward request.pagination_cursor

abbrev decoders : List (String × (String → WakuMessage ℕ → Option ℕ))
decoders = ("/app/1/chat/proto", λ topic m. some m.body) ∷ []

abbrev params : Bool → QueryRequestParams ℕ
params forward = record {
  include_data = true;
  pubsub_topic = "/waku/2/rs/1/0";
  content_topics = "/app/1/chat/proto" ∷ [];
  time_start = none;
  time_end = none;
  message_hashes = none;
  pagination_cursor = none;
  pagination_forward = forward;
  pagination_limit = none;
}

split_stored :
    (before : List (WakuMessageKeyValue ℕ ℕ)) (x : WakuMessageKeyValue ℕ ℕ)
    (after : List (WakuMessageKeyValue ℕ ℕ))
    → stored ≡ before ++ x ∷ after
    → (h : ℕ) × (x.message_hash ≡ some h) × (before_hash h ≡ before) × (after_hash h ≡ after)
split_stored [] x after e =
    (1, sym (ap (λ m. m.message_hash) (head-eq_of_cons-eq e)), refl, tail-eq_of_cons-eq e)
split_stored (a ∷ []) x after e =
    let rest = tail-eq_of_cons-eq e in
    (
      2,
      sym (ap (λ m. m.message_hash) (head-eq_of_cons-eq rest)),
      ap (λ m. m ∷ []) (head-eq_of_cons-eq e),
      tail-eq_of_cons-eq rest,
    )
split_stored (a ∷ b ∷ []) x after e =
    let rest = tail-eq_of_cons-eq e in
    let last = tail-eq_of_cons-eq rest in
    (
      3,
      sym (ap (λ m. m.message_hash) (head-eq_of_cons-eq last)),
      cc (head-eq_of_cons-eq e, head-eq_of_cons-eq rest),
      tail-eq_of_cons-eq last,
    )
split_stored (a ∷ b ∷ c ∷ before) x after e =
    absurd (omega (arith, ap length e, length-append before (x ∷ after)))

node-IsArchive : (forward : Bool) → IsArchive node (params forward) stored 2
unfolding create
node-IsArchive forward = record {
  positive = omega arith;
  capped = omega arith;
  first_page = λ round. refl;
  next_page = λ before x after e.
      let (h, hashed, left, right) = split_stored before x after e in
      (
        h,
        hashed,
        λ round.
            ap (λ rest. response (some 200) (page_of forward 2 rest))
              (sides forward before after h left right),
      );
}
  where
    sides :
        (forward : Bool) (before after : List (WakuMessageKeyValue ℕ ℕ)) (h : ℕ)
        → before_hash h ≡ before
        → after_hash h ≡ after
        → beyond forward (before_hash h) (after_hash h) ≡ beyond forward before after
    sides true before after h left right = right
    sides false before after h left right = left

params-IsAccepted : (forward : Bool) → IsAccepted decoders (params forward)
unfolding time_diff_error to_text criteria_error ◌===◌
params-IsAccepted forward = record {
  in_range = refl;
  decoded = refl;
  together = refl;
  from_the_end = refl;
}

query_forward_example :
    (concat (query_per_page (λ round. false) (λ round. false) node decoders (params true) 4).pages
      ≡ map (decode decoders) stored)
    × ((query_per_page (λ round. false) (λ round. false) node decoders (params true) 4).end ≡ done)
query_forward_example =
    query_forward (λ round. false) (λ round. false) node decoders (params true) stored 2
      (node-IsArchive true) (params-IsAccepted true) refl (λ round. (refl, refl)) 4 (omega arith)

query_backward_example :
    (concat_backward
        (query_per_page (λ round. false) (λ round. false) node decoders (params false) 4).pages
      ≡ map (decode decoders) stored)
    × ((query_per_page (λ round. false) (λ round. false) node decoders (params false) 4).end ≡ done)
query_backward_example =
    query_backward (λ round. false) (λ round. false) node decoders (params false) stored 2
      (node-IsArchive false) (params-IsAccepted false) refl (λ round. (refl, refl)) 4 (omega arith)

-- The pages of the forward query.
forward_pages :
    (query_per_page (λ round. false) (λ round. false) node decoders (params true) 4).pages
    ≡ (some 1 ∷ some 2 ∷ []) ∷ (some 3 ∷ []) ∷ []
unfolding query_per_page decode create time_diff_error to_text criteria_error lookup ◌===◌
forward_pages = refl

-- A range of 36 hours: the last twelve are not asked for.
sub_time_ranges_lem_example :
    (days : ℕ) × ((t : ℕ)
      → asked t (sub_time_ranges 1000000 130600000)
        ≡ (leb 1000000 t && ltb t (1000000 + days * max_time_range)))
    × All (λ r. r.1 - r.0 ≤ max_time_range) (sub_time_ranges 1000000 130600000)
    × (1000000 + days * max_time_range < 130600000)
    × (130600000 ≤ 1000000 + suc days * max_time_range)
sub_time_ranges_lem_example = sub_time_ranges_lem 1000000 130600000 (omega arith)

abbrev fresh : QueryOnConnect ℕ
fresh = init none

last_day_missed_example :
    asked 1699999990000 (
      sub_time_ranges
        (query_time_range 1700000000000 fresh).time_start
        (query_time_range 1700000000000 fresh).time_end)
    ≡ (leb (1700000000000 - max_time_range_query_ms) 1699999990000
        && ltb 1699999990000 (1700000000000 - max_time_range))
unfolding init
last_day_missed_example = last_day_missed 1700000000000 fresh (omega arith) 1699999990000
