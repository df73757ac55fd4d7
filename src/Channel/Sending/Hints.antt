-- ===== src/Channel/Sending/Hints.antt =====
-- `message.retrievalHint = hint` changes neither the order nor the ids of the messages.
use logos_messaging_js.Prelude.{
  ℕ, ◌≡◌, refl, Option, List, [], ◌∷◌, String, any, arith, Bool-cases, inl, inr, length,
  if◌then◌else◌, All,
}
use logos_messaging_js.Prelude.Sorting.{IsSorted}
use logos_messaging_js.Platform.{Platform}
use logos_messaging_js.Message.{Message, is_content_message}
use logos_messaging_js.Message.Text.{value_of}
use logos_messaging_js.History.{LocalHistory, has_id, older}
use logos_messaging_js.History.Order.{IsValid, Distinct}
use logos_messaging_js.Channel.Sending.{same_object, set_hint}

module _ (m : Message) (hint : Option (List ℕ)) where
  abbrev hinted : Message → Message
  hinted x = if same_object m x then record x { retrieval_hint = hint } else x

  -- What does not read the hint of a message stays true of it.
  pub set_hint-All :
      (P : Message → Type 0)
      → ((x : Message) → P x → P (record x { retrieval_hint = hint }))
      → (xs : List Message) → All P xs
      → All P (set_hint m hint xs)
  unfolding set_hint
  set_hint-All P keeps [] h = tt
  set_hint-All P keeps (x ∷ xs) h = elim (Bool-cases (same_object m x)) [
    | inl e ↦ rw e (keeps x h.0, set_hint-All P keeps xs h.1)
    | inr e ↦ rw e (h.0, set_hint-All P keeps xs h.1)
  ]

  length-set_hint : (xs : List Message) → length (set_hint m hint xs) ≡ length xs
  unfolding set_hint
  length-set_hint [] = refl
  length-set_hint (x ∷ xs) = omega (arith, length-set_hint xs)

  any-set_hint :
      (id : String) (xs : List Message) → any (has_id id) (set_hint m hint xs) ≡ any (has_id id) xs
  unfolding set_hint
  any-set_hint id [] = refl
  any-set_hint id (x ∷ xs) = elim (Bool-cases (same_object m x)) [
    | inl e ↦ rw (e, any-set_hint id xs) refl
    | inr e ↦ rw (e, any-set_hint id xs) refl
  ]

  set_hint-Distinct : (xs : List Message) → Distinct xs → Distinct (set_hint m hint xs)
  unfolding set_hint
  set_hint-Distinct [] d = tt
  set_hint-Distinct (x ∷ xs) d = elim (Bool-cases (same_object m x)) [
    | inl e ↦ rw (e, any-set_hint x.message_id xs) (d.0, set_hint-Distinct xs d.1)
    | inr e ↦ rw (e, any-set_hint x.message_id xs) (d.0, set_hint-Distinct xs d.1)
  ]

  module _ ⦃platform : Platform⦄ where
    set_hint-IsSorted :
        (xs : List Message) → IsSorted older xs → IsSorted older (set_hint m hint xs)
    unfolding set_hint older value_of
    set_hint-IsSorted [] s = tt
    set_hint-IsSorted (x ∷ xs) s = elim (Bool-cases (same_object m x)) [
      | inl e ↦ rw e (set_hint-All _ (λ y h. h) xs s.0, set_hint-IsSorted xs s.1)
      | inr e ↦ rw e (set_hint-All _ (λ y h. h) xs s.0, set_hint-IsSorted xs s.1)
    ]

    pub set_hint-IsValid :
        (h : LocalHistory) → IsValid h → IsValid (record h { items = set_hint m hint h.items })
    unfolding is_content_message older
    set_hint-IsValid h v = record {
      sorted = set_hint-IsSorted h.items v.sorted;
      distinct = set_hint-Distinct h.items v.distinct;
      bounded = omega (arith, length-set_hint h.items, v.bounded);
      content = set_hint-All _ (λ x h. h) h.items v.content;
    }
