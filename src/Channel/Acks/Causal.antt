-- ===== src/Channel/Acks/Causal.antt =====
-- What the causal history of a received message takes out of the outgoing buffer.
use logos_messaging_js.Prelude.{
  ◌≡◌, refl, Bool, true, not, ◌&&◌, List, [], ◌∷◌, any, filter, arith, ◌===◌, ◌∙◌,
}
use logos_messaging_js.Message.{Message, HistoryEntry}
use logos_messaging_js.History.{has_id}
use logos_messaging_js.Channel.{Channel}
use logos_messaging_js.Channel.Acks.{acknowledge, acknowledge_all}

-- The message is named by some entry.
abbrev pub named_in : List HistoryEntry → Message → Bool
named_in es m = any (λ e. m.message_id === e.message_id) es

filter-filter :
    (p q r : Message → Bool)
    → ((m : Message) → (p m && q m) ≡ r m)
    → (ms : List Message) → filter q (filter p ms) ≡ filter r ms
filter-filter p q r same [] = refl
filter-filter p q r same (m ∷ ms) = ground (arith, same m, filter-filter p q r same ms)

filter_all :
    (p : Message → Bool) → ((m : Message) → p m ≡ true) → (ms : List Message) → filter p ms ≡ ms
filter_all p same [] = refl
filter_all p same (m ∷ ms) = ground (arith, same m, filter_all p same ms)

-- After the causal history of a received message is reviewed, the outgoing buffer holds, in its
-- order, exactly the messages that no entry names.
pub acknowledge_all_lem :
    (es : List HistoryEntry) (c : Channel)
    → (acknowledge_all es c).outgoing_buffer ≡ filter (λ m. not (named_in es m)) c.outgoing_buffer
unfolding acknowledge_all acknowledge
acknowledge_all_lem [] c = rw (filter_all (λ m. true) (λ m. refl) c.outgoing_buffer) refl
acknowledge_all_lem (e ∷ es) c =
    acknowledge_all_lem es (acknowledge e.message_id c)
    ∙ filter-filter (λ m. not (has_id e.message_id m)) (λ m. not (named_in es m))
        (λ m. not (named_in (e ∷ es) m)) (λ m. ground arith) c.outgoing_buffer
