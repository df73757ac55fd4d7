-- ===== src/Tests/Histories.antt =====
-- The local history at a length of three.
use logos_messaging_js.Prelude.{◌≡◌, refl, true, false, ◌||◌, List, [], ◌∷◌, arith, any, all, ◌===◌}
use logos_messaging_js.Prelude.Effects.{state_of}
use logos_messaging_js.Message.{Message, is_content_message, has_content}
use logos_messaging_js.History.{LocalHistory, has, has_id, push, older}
use logos_messaging_js.History.Order.{IsValid}
use logos_messaging_js.History.Pushing.{push-IsValid, has-push}
use logos_messaging_js.Message.Text.{value_of}
use logos_messaging_js.Tests.Fixtures.{
  small_platform, first_lodash, small_platform-IsCollation, first_lodash-KeepsFirst,
  content_message, entry,
}

abbrev short_history : LocalHistory
short_history = record {
  items = content_message "m1" 5 [] ∷ content_message "m2" 7 (entry "m1" ∷ []) ∷ [];
  max_length = 3;
}

-- One message that is there already, and one that is new.
abbrev more_messages : List Message
more_messages = content_message "m3" 6 [] ∷ []

short_history-IsValid : IsValid short_history
unfolding older value_of is_content_message has_content ◌===◌
short_history-IsValid = record {
  sorted = ((refl, tt), (tt, tt));
  distinct = (refl, (refl, tt));
  bounded = omega arith;
  content = (refl, (refl, tt));
}

push-IsValid_example : IsValid (state_of (push more_messages short_history))
push-IsValid_example =
    push-IsValid small_platform-IsCollation first_lodash-KeepsFirst more_messages short_history
      short_history-IsValid

are_content : all is_content_message more_messages ≡ true
unfolding is_content_message has_content
are_content = refl

has-push_example :
    has "m3" (state_of (push more_messages short_history))
    ≡ (has "m3" short_history || any (has_id "m3") more_messages)
has-push_example =
    has-push small_platform-IsCollation first_lodash-KeepsFirst more_messages short_history "m3"
      are_content (omega arith)

m4_absent : (has "m4" short_history || any (has_id "m4") more_messages) ≡ false
unfolding has ◌===◌
m4_absent = refl
