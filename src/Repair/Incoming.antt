-- ===== src/Repair/Incoming.antt =====
-- `IncomingRepairBuffer` of buffers.ts: the repairs that this participant may have to answer.
pub mod Ready
use logos_messaging_js.Prelude.{
  ℕ, zero, suc, Bool, List, [], ◌∷◌, map, String, ltb, take, drop, length, if◌then◌else◌,
}
use logos_messaging_js.Prelude.Effects.{Eff}
use logos_messaging_js.Message.{HistoryEntry}
use logos_messaging_js.Repair.Buffer.{Timed, Buffer}
use logos_messaging_js.Repair.Buffer

pub record IncomingBufferEntry : Type 0 where
  pub entry : HistoryEntry
  pub t_resp : ℕ

instance abbrev pub incoming_timed : Timed IncomingBufferEntry
incoming_timed = record { message_id = λ i. i.entry.message_id; time = λ i. i.t_resp }

abbrev pub IncomingRepairBuffer : Type 0
IncomingRepairBuffer = Buffer IncomingBufferEntry

unfoldable pub init : ℕ → IncomingRepairBuffer
init max_size = record { items = []; max_size = max_size }

unfoldable pub add : HistoryEntry → ℕ → Eff IncomingRepairBuffer Bool
add entry t_resp = Buffer.add (record { entry = entry; t_resp = t_resp })

unfoldable pub remove : String → IncomingRepairBuffer → IncomingRepairBuffer
remove id b = Buffer.remove id b

unfoldable pub has : String → IncomingRepairBuffer → Bool
has id b = Buffer.has id b

-- The loop of `getReady`, at index `i`: the index of the first item that is not ready.
unfoldable pub cutoff_from : ℕ → ℕ → List IncomingBufferEntry → ℕ
cutoff_from now i [] = i
cutoff_from now i (item ∷ items) =
    let later = cutoff_from now (suc i) items in if ltb now item.t_resp then i else later

unfoldable pub get_ready : ℕ → IncomingRepairBuffer → List HistoryEntry × IncomingRepairBuffer
unfolding cutoff_from
get_ready now b =
    let cutoff = cutoff_from now 0 b.items in
    (map (λ i. i.entry) (take cutoff b.items), record b { items = drop cutoff b.items })

unfoldable pub size : IncomingRepairBuffer → ℕ
size b = length b.items

unfoldable pub clear : IncomingRepairBuffer → IncomingRepairBuffer
clear b = record b { items = [] }

unfoldable pub get_all : IncomingRepairBuffer → List HistoryEntry
get_all b = map (λ i. i.entry) b.items
