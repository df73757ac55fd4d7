-- ===== src/Repair/Outgoing.antt =====
-- `OutgoingRepairBuffer` of buffers.ts: the repairs that this participant may have to request.
pub mod Eligible
pub mod Requests
use logos_messaging_js.Prelude.{
  ℕ, suc, ◌+◌, Bool, true, false, not, ◌&&◌, List, [], ◌∷◌, map, String, ltb, leb, length,
  if◌then◌else◌,
}
use logos_messaging_js.Prelude.Effects.{Eff}
use logos_messaging_js.Message.{HistoryEntry}
use logos_messaging_js.Repair.Buffer.{Timed, Buffer}
use logos_messaging_js.Repair.Buffer

pub record OutgoingBufferEntry : Type 0 where
  pub entry : HistoryEntry
  pub t_req : ℕ
  pub requested : Bool

instance abbrev pub outgoing_timed : Timed OutgoingBufferEntry
outgoing_timed = record { message_id = λ i. i.entry.message_id; time = λ i. i.t_req }

abbrev pub OutgoingRepairBuffer : Type 0
OutgoingRepairBuffer = Buffer OutgoingBufferEntry

unfoldable pub init : ℕ → OutgoingRepairBuffer
init max_size = record { items = []; max_size = max_size }

unfoldable pub add : HistoryEntry → ℕ → Eff OutgoingRepairBuffer Bool
add entry t_req = Buffer.add (record { entry = entry; t_req = t_req; requested = false })

unfoldable pub remove : String → OutgoingRepairBuffer → OutgoingRepairBuffer
remove id b = Buffer.remove id b

unfoldable pub has : String → OutgoingRepairBuffer → Bool
has id b = Buffer.has id b

-- `!item.requested && eligible.length < maxRequests`, at `count` entries found so far.
unfoldable pub picks : OutgoingBufferEntry → ℕ → ℕ → Bool
picks item count max_requests = not item.requested && ltb count max_requests

-- The entries that the loop of `getEligible` returns from `items` on.
unfoldable pub eligible_from : ℕ → ℕ → ℕ → List OutgoingBufferEntry → List HistoryEntry
unfolding picks
eligible_from now max_requests count [] = []
eligible_from now max_requests count (item ∷ items) =
    let picked = picks item count max_requests in
    let count' = (if picked then suc count else count) in
    let later = eligible_from now max_requests count' items in
    let rest = (if leb max_requests count' then [] else later) in
    if ltb now item.t_req then [] else if picked then item.entry ∷ rest else rest

-- What the loop makes of the array: the flags of the returned items are set.
unfoldable pub marked_from : ℕ → ℕ → ℕ → List OutgoingBufferEntry → List OutgoingBufferEntry
unfolding picks
marked_from now max_requests count [] = []
marked_from now max_requests count (item ∷ items) =
    let picked = picks item count max_requests in
    let count' = (if picked then suc count else count) in
    let later = marked_from now max_requests count' items in
    let rest = (if leb max_requests count' then items else later) in
    if ltb now item.t_req
    then item ∷ items
    else if picked
    then record item { requested = true } ∷ rest
    else item ∷ rest

unfoldable pub get_eligible :
    ℕ → ℕ → OutgoingRepairBuffer → List HistoryEntry × OutgoingRepairBuffer
get_eligible now max_requests b = (
  eligible_from now max_requests 0 b.items,
  record b { items = marked_from now max_requests 0 b.items },
)

unfoldable pub size : OutgoingRepairBuffer → ℕ
size b = length b.items

unfoldable pub clear : OutgoingRepairBuffer → OutgoingRepairBuffer
clear b = record b { items = [] }

unfoldable pub get_all : OutgoingRepairBuffer → List HistoryEntry
get_all b = map (λ i. i.entry) b.items
