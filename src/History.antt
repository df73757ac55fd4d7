-- ===== src/History.antt =====
-- packages/sds/src/message_channel/mem_local_history.ts: the local history, oldest message first.
pub mod Order
pub mod Pushing
use logos_messaging_js.Prelude.{
  ℕ, ◌-◌, Bool, true, false, not, Option, List, [], ◌∷◌, ◌++◌, String, length, drop, any, all,
  filter, find, ltb, if◌then◌else◌, ◌===◌, take_last, ◌==◌,
}
use logos_messaging_js.Prelude.Sorting.{sort}
use logos_messaging_js.Prelude.Effects.{Outcome, ok, throw, library_error, Eff}
use logos_messaging_js.Platform.{Platform}
use logos_messaging_js.Message.{Message, is_content_message}
use logos_messaging_js.Message.Text.{value_of}

-- `_.uniqBy(items, "messageId")` of lodash.
pub record Lodash : Type 0 where
  pub uniq_by_message_id : List Message → List Message

pub record LocalHistory : Type 0 where
  pub items : List Message
  pub max_length : ℕ

abbrev pub default_max_length : ℕ
default_max_length = 10000

unfoldable pub init : ℕ → LocalHistory
init max_length = record { items = []; max_length = max_length }

abbrev pub has_id : String → Message → Bool
has_id id m = m.message_id === id

-- `localHistory.some((m) => m.messageId === id)`
unfoldable pub has : String → LocalHistory → Bool
has id h = any (has_id id) h.items

unfoldable pub find_id : String → LocalHistory → Option Message
find_id id h = find (has_id id) h.items

-- `localHistory.slice(-n)`. At 0 that is `slice(-0)`, the whole history.
unfoldable pub slice_last : ℕ → LocalHistory → List Message
slice_last n h = if n == 0 then h.items else take_last n h.items

-- `this.items.splice(0, this.length - this.maxLength)` if there are too many.
unfoldable pub drop_oldest : ℕ → List Message → List Message
drop_oldest max_length items =
    if ltb max_length (length items) then drop (length items - max_length) items else items

module _ ⦃platform : Platform⦄ where
  -- `a.valueOf().localeCompare(b.valueOf()) <= 0`
  unfoldable pub older : Message → Message → Bool
  older a b = platform.locale_le (value_of a) (value_of b)

  module _ ⦃lodash : Lodash⦄ where
    unfoldable pub push : List Message → Eff LocalHistory ℕ
    unfolding drop_oldest
    push new h =
        if all is_content_message new
        then (let items =
              drop_oldest h.max_length (lodash.uniq_by_message_id (sort older (h.items ++ new))) in
            ok (length items) (record h { items = items }))
        else throw library_error h
