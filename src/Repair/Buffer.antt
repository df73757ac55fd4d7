-- ===== src/Repair/Buffer.antt =====
-- packages/sds/src/message_channel/repair/buffers.ts: what the two buffers have in common, an array
-- sorted by time with one entry for each message id. `Timed` names the fields that differ.
pub mod Order
pub mod Adding
pub mod Inserting
use logos_messaging_js.Prelude.{
  ℕ, ◌≡◌, Bool, true, false, not, List, [], ◌∷◌, ◌++◌, String, length, any, filter, drop_last, leb,
  if◌then◌else◌, ◌===◌,
}
use logos_messaging_js.Prelude.Sorting.{sort}
use logos_messaging_js.Prelude.Effects.{Outcome, ok, throw, type_error, Eff}

pub record Timed (A : Type 0) : Type 0 where
  pub message_id : A → String
  pub time : A → ℕ

pub record Buffer (A : Type 0) : Type 0 where
  pub items : List A
  pub max_size : ℕ

module _ {A : Type 0} ⦃timed : Timed A⦄ where
  abbrev pub is_about : String → A → Bool
  is_about id a = timed.message_id a === id

  -- The comparator `(a, b) => a.time - b.time`.
  abbrev pub earlier : A → A → Bool
  earlier a b = leb (timed.time a) (timed.time b)

  unfoldable pub has : String → Buffer A → Bool
  has id b = any (is_about id) b.items

  unfoldable pub remove : String → Buffer A → Buffer A
  remove id b = record b { items = filter (λ a. not (is_about id a)) b.items }

  -- `this.items.pop()!`, whose fields the warning then reads: on an empty array that throws.
  unfoldable pub evict : List A → Buffer A → Outcome (Buffer A) (List A)
  evict [] b = throw type_error b
  evict (x ∷ xs) b = ok (drop_last (x ∷ xs)) b

  unfoldable pub make_room : Eff (Buffer A) (List A)
  unfolding evict
  make_room b = if leb b.max_size (length b.items) then evict b.items b else ok b.items b

  unfoldable pub add : A → Eff (Buffer A) Bool
  unfolding has make_room
  add a b = if has (timed.message_id a) b then ok false b else elim (make_room b) [
    | throw e b' ↦ throw e b'
    | ok kept b' ↦ ok true (record b' { items = sort earlier (kept ++ a ∷ []) })
  ]
