-- ===== src/Channel/Sweeping/Outgoing.antt =====
-- `sweepOutgoingBuffer` splits the outgoing buffer.
use mathlib.Core.List.{Perm}
use mathlib.Core.List.Perm
use logos_messaging_js.Prelude.{
  ◌≡◌, Bool, true, not, List, [], ◌∷◌, ◌++◌, filter, Bool-cases, inl, inr, All,
}
use logos_messaging_js.Prelude.Maps.{contains}
use logos_messaging_js.Message.{Message}
use logos_messaging_js.Channel.{Channel}
use logos_messaging_js.Channel.Sweeping.{sweep_outgoing_buffer}

perm_middle : (m : Message) (us vs : List Message) → Perm (us ++ m ∷ vs) (m ∷ (us ++ vs))
perm_middle m [] vs = Perm.refl _
perm_middle m (u ∷ us) vs =
    Perm.trans (Perm.cons u (perm_middle m us vs)) (Perm.swap m u (us ++ vs))

split-perm :
    (p : Message → Bool) (ms : List Message) → Perm (filter (λ m. not (p m)) ms ++ filter p ms) ms
split-perm p [] = Perm.refl _
split-perm p (m ∷ ms) = elim (Bool-cases (p m)) [
  | inl e ↦ rw e (
      Perm.trans (perm_middle m (filter (λ m. not (p m)) ms) (filter p ms))
        (Perm.cons m (split-perm p ms)))
  | inr e ↦ rw e (Perm.cons m (split-perm p ms))
]

All-filter_test : (p : Message → Bool) (ms : List Message) → All (λ m. p m ≡ true) (filter p ms)
All-filter_test p [] = tt
All-filter_test p (m ∷ ms) = elim (Bool-cases (p m)) [
  | inl e ↦ rw e (e, All-filter_test p ms)
  | inr e ↦ rw e (All-filter_test p ms)
]

-- The two lists of sweepOutgoingBuffer are together a permutation of the outgoing buffer; each
-- message of the second has a count of possible acknowledgements and none of the first has one.
pub sweep_outgoing_buffer_lem :
    (c : Channel)
    → Perm ((sweep_outgoing_buffer c).0 ++ (sweep_outgoing_buffer c).1) c.outgoing_buffer
      × All (λ m. not (contains m.message_id c.possible_acks) ≡ true) (sweep_outgoing_buffer c).0
      × All (λ m. contains m.message_id c.possible_acks ≡ true) (sweep_outgoing_buffer c).1
unfolding sweep_outgoing_buffer
sweep_outgoing_buffer_lem c = (
  split-perm (λ m. contains m.message_id c.possible_acks) c.outgoing_buffer,
  All-filter_test _ c.outgoing_buffer,
  All-filter_test _ c.outgoing_buffer,
)
