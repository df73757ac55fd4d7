-- ===== src/History/Pushing.antt =====
-- What `push` makes of the local history.
use logos_messaging_js.Prelude.{
  ℕ, zero, suc, ◌+◌, ◌-◌, ◌≡◌, ◌≤◌, ◌⊎◌, refl, Bool, true, false, not, ◌||◌, List, [], ◌∷◌, ◌++◌,
  String, length, any, all, drop, arith, ◌∙◌, All, Bool-cases, inl, inr, ltb, length-append,
  length-drop, length-filter-le, any-append,
}
use logos_messaging_js.Prelude.Sorting.{
  IsSorted, drop-IsSorted, All-drop, All-append, All-sort, sort, sort-IsSorted, length-sort,
  any-sort,
}
use logos_messaging_js.Prelude.Effects.{ok, throw, library_error, state_of}
use logos_messaging_js.Platform.{Platform, IsCollation}
use logos_messaging_js.Message.{Message, is_content_message}
use logos_messaging_js.Message.Text.{value_of}
use logos_messaging_js.History.{LocalHistory, Lodash, has_id, has, older, drop_oldest, push}
use logos_messaging_js.History.Order.{
  KeepsFirst, keep_first, keep_first-Distinct, any-keep_first, keep_first-All, keep_first-IsSorted,
  IsValid, Distinct,
}

any-drop :
    (p : Message → Bool) (n : ℕ) (ms : List Message) → any p ms ≡ false → any p (drop n ms) ≡ false
any-drop p zero ms h = h
any-drop p (suc n) [] h = refl
any-drop p (suc n) (m ∷ ms) h = any-drop p n ms (ground arith)

drop-Distinct : (n : ℕ) (ms : List Message) → Distinct ms → Distinct (drop n ms)
drop-Distinct zero ms d = d
drop-Distinct (suc n) [] d = tt
drop-Distinct (suc n) (m ∷ ms) d = drop-Distinct n ms d.1

length-keep_first : (ms : List Message) → length (keep_first ms) ≤ length ms
unfolding keep_first
length-keep_first [] = omega arith
length-keep_first (m ∷ ms) = omega (
  arith,
  length-filter-le (λ x. not (has_id m.message_id x)) (keep_first ms),
  length-keep_first ms,
)

drop_oldest_cases :
    (P : List Message → Type 0) (n : ℕ) (ms : List Message)
    → P ms
    → ((k : ℕ) → P (drop k ms))
    → P (drop_oldest n ms)
unfolding drop_oldest
drop_oldest_cases P n ms h k = elim (Bool-cases (ltb n (length ms))) [
  | inl over ↦ rw over (k (length ms - n))
  | inr fits ↦ rw fits h
]

drop_oldest_fits : (n : ℕ) (ms : List Message) → length ms ≤ n → drop_oldest n ms ≡ ms
unfolding drop_oldest
drop_oldest_fits n ms h = ground arith

drop_oldest-bounded : (n : ℕ) (ms : List Message) → length (drop_oldest n ms) ≤ n
unfolding drop_oldest
drop_oldest-bounded n ms = ground (arith, length-drop (length ms - n) ms)

All-all :
    (ms : List Message)
    → all is_content_message ms ≡ true
    → All (λ m. is_content_message m ≡ true) ms
All-all [] h = tt
All-all (m ∷ ms) h = (ground arith, All-all ms (ground arith))

module _ ⦃platform : Platform⦄ ⦃lodash : Lodash⦄ where
  -- The messages after a push that does not throw.
  abbrev pushed : List Message → LocalHistory → List Message
  pushed new h = drop_oldest h.max_length (lodash.uniq_by_message_id (sort older (h.items ++ new)))

  -- A push that is not of content messages alone throws, and changes nothing.
  pub push_throws :
      (new : List Message) (h : LocalHistory)
      → all is_content_message new ≡ false
      → push new h ≡ throw library_error h
  unfolding push
  push_throws new h e = rw e

  push_content :
      (new : List Message) (h : LocalHistory)
      → all is_content_message new ≡ true
      → push new h ≡ ok (length (pushed new h)) (record h { items = pushed new h })
  unfolding push
  push_content new h e = rw e

  module _ (collation : IsCollation platform) (lodash_law : KeepsFirst lodash) where
    older_total : (a b : Message) → (older a b ≡ true) ⊎ (older b a ≡ true)
    unfolding older
    older_total a b = collation.total (value_of a) (value_of b)

    older_trans : (a b c : Message) → older a b ≡ true → older b c ≡ true → older a c ≡ true
    unfolding older
    older_trans a b c = collation.trans (value_of a) (value_of b) (value_of c)

    pushed-IsValid :
        (new : List Message) (h : LocalHistory)
        → IsValid h
        → all is_content_message new ≡ true
        → IsValid (record h { items = pushed new h })
    unfolding older
    pushed-IsValid new h v e =
        let all_items = sort older (h.items ++ new) in
        let uniq = keep_first all_items in
        let IsContent : Message → Type 0 = λ m. is_content_message m ≡ true in
        let is_sorted : IsSorted older uniq =
          keep_first-IsSorted older all_items
            (sort-IsSorted older older_total older_trans (h.items ++ new)) in
        let content : All IsContent uniq = keep_first-All IsContent all_items (
          All-sort older IsContent (h.items ++ new)
            (All-append IsContent h.items new v.content (All-all new e))) in
        rw (lodash_law.keeps_first all_items) (record {
          sorted =
              drop_oldest_cases (IsSorted older) h.max_length uniq is_sorted
                (λ k. drop-IsSorted older k uniq is_sorted);
          distinct =
              drop_oldest_cases Distinct h.max_length uniq (keep_first-Distinct all_items)
                (λ k. drop-Distinct k uniq (keep_first-Distinct all_items));
          bounded = drop_oldest-bounded h.max_length uniq;
          content =
              drop_oldest_cases (All IsContent) h.max_length uniq content
                (λ k. All-drop IsContent k uniq content);
        })

    -- If localeCompare is a total order and uniqBy keeps the first of each key, a push on a valid
    -- history keeps it sorted, free of duplicate ids, within its length and with content messages
    -- alone, whether it throws or not, also if more messages are pushed at once than it may hold.
    pub push-IsValid :
        (new : List Message) (h : LocalHistory) → IsValid h → IsValid (state_of (push new h))
    push-IsValid new h v = elim (Bool-cases (all is_content_message new)) [
      | inl e ↦ rw (push_content new h e) (pushed-IsValid new h v e)
      | inr e ↦ rw (push_throws new h e) v
    ]

    -- If localeCompare is a total order and uniqBy keeps the first of each key, after a push of
    -- content messages for which there is room, the history has the ids that it had, those of the
    -- new messages, and no other.
    pub has-push :
        (new : List Message) (h : LocalHistory) (q : String)
        → all is_content_message new ≡ true
        → length h.items + length new ≤ h.max_length
        → has q (state_of (push new h)) ≡ (has q h || any (has_id q) new)
    unfolding has
    has-push new h q e room =
        rw (push_content new h e, lodash_law.keeps_first (sort older (h.items ++ new)))
          (rw
            (drop_oldest_fits h.max_length (keep_first (sort older (h.items ++ new))) (
              omega (
                arith,
                length-keep_first (sort older (h.items ++ new)),
                length-sort older (h.items ++ new),
                length-append h.items new,
              )))
            (any-keep_first q (sort older (h.items ++ new))
              ∙ (any-sort older (has_id q) (h.items ++ new) ∙ any-append (has_id q) h.items new)))

    -- If localeCompare is a total order and uniqBy keeps the first of each key, an id that is
    -- neither in the history nor among the pushed messages is not in the history after the push.
    pub has-push_inv :
        (new : List Message) (h : LocalHistory) (q : String)
        → (has q h || any (has_id q) new) ≡ false
        → has q (state_of (push new h)) ≡ false
    unfolding has
    has-push_inv new h q absent = elim (Bool-cases (all is_content_message new)) [
      | inr e ↦ rw (push_throws new h e) (ground arith)
      | inl e ↦
          let all_items = sort older (h.items ++ new) in
          let gone : any (has_id q) (keep_first all_items) ≡ false =
            any-keep_first q all_items
            ∙ (any-sort older (has_id q) (h.items ++ new)
                ∙ (any-append (has_id q) h.items new ∙ absent)) in
          rw (push_content new h e, lodash_law.keeps_first all_items)
            (drop_oldest_cases (λ ms. any (has_id q) ms ≡ false) h.max_length (keep_first all_items)
              gone (λ k. any-drop (has_id q) k (keep_first all_items) gone))
    ]

    -- What holds of the messages before and of the pushed ones holds of the messages after.
    pub All-push :
        (P : Message → Type 0) (new : List Message) (h : LocalHistory)
        → All P h.items
        → All P new
        → All P (state_of (push new h)).items
    All-push P new h old added = elim (Bool-cases (all is_content_message new)) [
      | inr e ↦ rw (push_throws new h e) old
      | inl e ↦
          let all_items = sort older (h.items ++ new) in
          let kept : All P (keep_first all_items) =
            keep_first-All P all_items
              (All-sort older P (h.items ++ new) (All-append P h.items new old added)) in
          rw (push_content new h e, lodash_law.keeps_first all_items)
            (drop_oldest_cases (All P) h.max_length (keep_first all_items) kept
              (λ k. All-drop P k (keep_first all_items) kept))
    ]
