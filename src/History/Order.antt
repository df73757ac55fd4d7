-- ===== src/History/Order.antt =====
-- The invariant of the local history, and what lodash's `uniqBy` does by its documentation.
use logos_messaging_js.Prelude.{
  ◌≡◌, ◌≤◌, refl, Bool, true, false, not, ◌&&◌, List, [], ◌∷◌, String, length, any, filter, arith,
  ◌===◌, ===_iff, All,
}
use logos_messaging_js.Prelude.Sorting.{IsSorted, filter-IsSorted, All-filter}
use logos_messaging_js.Platform.{Platform}
use logos_messaging_js.Message.{Message, is_content_message}
use logos_messaging_js.Message.Text.{value_of}
use logos_messaging_js.History.{LocalHistory, Lodash, has_id}

-- The first message of each id, in order.
unfoldable pub keep_first : List Message → List Message
keep_first [] = []
keep_first (m ∷ ms) = m ∷ filter (λ x. not (has_id m.message_id x)) (keep_first ms)

-- `uniqBy` keeps the first element of each key, in the order of the array.
pub record KeepsFirst (lodash : Lodash) : Type 0 where
  pub keeps_first : (ms : List Message) → lodash.uniq_by_message_id ms ≡ keep_first ms

-- No two messages have one id.
abbrev pub Distinct : List Message → Type 0
Distinct [] = Unit {0}
Distinct (m ∷ ms) = (any (has_id m.message_id) ms ≡ false) × Distinct ms

any-filter_false :
    (p q : Message → Bool) (ms : List Message) → any p ms ≡ false → any p (filter q ms) ≡ false
any-filter_false p q [] h = refl
any-filter_false p q (m ∷ ms) h = ground (arith, any-filter_false p q ms)

filter-Distinct : (q : Message → Bool) (ms : List Message) → Distinct ms → Distinct (filter q ms)
filter-Distinct q [] d = tt
filter-Distinct q (m ∷ ms) d =
    ground (arith, any-filter_false (has_id m.message_id) q ms, filter-Distinct q ms d.1)

any-filter_other :
    (q id : String) (ms : List Message)
    → any (has_id q) (filter (λ x. not (has_id id x)) ms) ≡ (any (has_id q) ms && not (q === id))
any-filter_other q id [] = refl
any-filter_other q id (m ∷ ms) =
    ground (
      arith,
      ===_iff m.message_id q,
      ===_iff m.message_id id,
      ===_iff q id,
      any-filter_other q id ms,
    )

pub keep_first-Distinct : (ms : List Message) → Distinct (keep_first ms)
unfolding keep_first
keep_first-Distinct [] = tt
keep_first-Distinct (m ∷ ms) = (
  ground (
    arith,
    any-filter_other m.message_id m.message_id (keep_first ms),
    ===_iff m.message_id m.message_id,
  ),
  filter-Distinct _ (keep_first ms) (keep_first-Distinct ms),
)

-- No id is lost.
pub any-keep_first :
    (q : String) (ms : List Message) → any (has_id q) (keep_first ms) ≡ any (has_id q) ms
unfolding keep_first
any-keep_first q [] = refl
any-keep_first q (m ∷ ms) = ground (
  arith,
  any-filter_other q m.message_id (keep_first ms),
  any-keep_first q ms,
  ===_iff q m.message_id,
  ===_iff m.message_id q,
)

pub keep_first-All : (P : Message → Type 0) (ms : List Message) → All P ms → All P (keep_first ms)
unfolding keep_first
keep_first-All P [] h = tt
keep_first-All P (m ∷ ms) h = (h.0, All-filter P _ (keep_first ms) (keep_first-All P ms h.1))

pub keep_first-IsSorted :
    (le : Message → Message → Bool) (ms : List Message)
    → IsSorted le ms
    → IsSorted le (keep_first ms)
unfolding keep_first
keep_first-IsSorted le [] s = tt
keep_first-IsSorted le (m ∷ ms) s = (
  All-filter _ _ (keep_first ms) (keep_first-All _ ms s.0),
  filter-IsSorted le _ (keep_first ms) (keep_first-IsSorted le ms s.1),
)

module _ ⦃platform : Platform⦄ where
  -- The order that the messages are to have: by their texts, as localeCompare has it.
  abbrev pub in_text_order : Message → Message → Bool
  in_text_order a b = platform.locale_le (value_of a) (value_of b)

  pub record IsValid (h : LocalHistory) : Type 0 where
    pub sorted : IsSorted in_text_order h.items
    pub distinct : Distinct h.items
    pub bounded : length h.items ≤ h.max_length
    pub content : All (λ m. is_content_message m ≡ true) h.items
