-- ===== src/Repair/Manager.antt =====
-- packages/sds/src/message_channel/repair/repair.ts and utils.ts: when this participant requests a
-- missing message and when it answers the requests of others. Times and the configuration are
-- natural numbers (milliseconds); `now` is what `Date.now()` returns during the call.
pub mod Timing
pub mod Validity
pub mod Answering
pub mod Readiness
use Prim.Native.Nat.{bit_xor, max}
use Prim.Native.String
use logos_messaging_js.Prelude.{
  ℕ, ◌+◌, ◌-◌, ◌*◌, ◌/◌, ◌%◌, ◌^◌, Bool, true, false, Option, none, some, List, [], ◌∷◌, ◌++◌,
  String, take, ltb, leb, ◌==◌, ◌===◌, if◌then◌else◌,
}
use logos_messaging_js.Prelude.Effects.{
  Outcome, ok, throw, range_error, library_error, JsError, Eff, ◌>>=◌, ◌>>◌, pure, modify,
}
use logos_messaging_js.Platform.{Platform}
use logos_messaging_js.Message.{HistoryEntry, Message}
use logos_messaging_js.History.{LocalHistory, find_id}
use logos_messaging_js.Prelude.Words.{be_read}
use logos_messaging_js.Repair.Outgoing
use logos_messaging_js.Repair.Outgoing.{OutgoingRepairBuffer}
use logos_messaging_js.Repair.Incoming
use logos_messaging_js.Repair.Incoming.{IncomingRepairBuffer}

pub record RepairConfig : Type 0 where
  pub t_min : ℕ
  pub t_max : ℕ
  pub num_response_groups : ℕ
  pub buffer_size : ℕ

abbrev pub default_repair_config : RepairConfig
default_repair_config = record {
  t_min = 30000;
  t_max = 120000;
  num_response_groups = 1;
  buffer_size = 1000;
}

abbrev pub max_safe_integer : ℕ
max_safe_integer = 2 ^ 53 - 1

abbrev pub participants_per_response_group : ℕ
participants_per_response_group = 128

pub record RepairManager : Type 0 where
  pub participant_id : String
  pub config : RepairConfig
  pub outgoing_buffer : OutgoingRepairBuffer
  pub incoming_buffer : IncomingRepairBuffer

unfoldable pub init : String → RepairConfig → RepairManager
init participant_id config = record {
  participant_id = participant_id;
  config = config;
  outgoing_buffer = Outgoing.init config.buffer_size;
  incoming_buffer = Incoming.init config.buffer_size;
}

-- `bigintToNumber`
unfoldable pub bigint_to_number : ℕ → ℕ
bigint_to_number value = value % max_safe_integer

-- A bigint remainder by 0 throws.
unfoldable pub big_rem : ℕ → ℕ → Option ℕ
big_rem a b = if b == 0 then none else some (a % b)

-- `BigInt(tMax - tMin)` may be negative; a remainder by it is that by its absolute value.
unfoldable pub range_of : RepairConfig → ℕ
range_of c = if ltb c.t_max c.t_min then c.t_min - c.t_max else c.t_max - c.t_min

abbrev or_throw : {S A : Type 0} → Option A → JsError → Eff S A
or_throw none e s = throw e s
or_throw (some a) e s = ok a s

-- A call on one of the two buffers.
abbrev on_outgoing : {A : Type 0} → Eff OutgoingRepairBuffer A → Eff RepairManager A
on_outgoing f m = elim (f m.outgoing_buffer) [
  | ok a b ↦ ok a (record m { outgoing_buffer = b })
  | throw e b ↦ throw e (record m { outgoing_buffer = b })
]

abbrev on_incoming : {A : Type 0} → Eff IncomingRepairBuffer A → Eff RepairManager A
on_incoming f m = elim (f m.incoming_buffer) [
  | ok a b ↦ ok a (record m { incoming_buffer = b })
  | throw e b ↦ throw e (record m { incoming_buffer = b })
]

module _ ⦃platform : Platform⦄ where
  -- The first 8 bytes of the SHA-256 hash of the text.
  unfoldable pub hash_to_integer : String → ℕ
  hash_to_integer input = be_read 0 (take 8 (platform.sha256 (platform.encode_text input)))

  unfoldable pub combined_hash : String → String → ℕ
  combined_hash participant_id message_id = hash_to_integer (String.◌++◌ participant_id message_id)

  unfoldable pub calculate_xor_distance : String → String → ℕ
  calculate_xor_distance id₁ id₂ = bit_xor (hash_to_integer id₁) (hash_to_integer id₂)

  -- `none` when the window is empty and the remainder throws.
  unfoldable pub calculate_t_req : RepairManager → String → ℕ → Option ℕ
  unfolding bigint_to_number big_rem range_of
  calculate_t_req m id now =
      elim (big_rem (combined_hash m.participant_id id) (range_of m.config)) [
        | none ↦ none
        | some r ↦ some (now + (bigint_to_number r + m.config.t_min))
      ]

  unfoldable pub calculate_t_resp : RepairManager → String → String → ℕ → Option ℕ
  unfolding bigint_to_number big_rem
  calculate_t_resp m sender_id id now =
      elim (big_rem (calculate_xor_distance m.participant_id sender_id * hash_to_integer id)
        m.config.t_max) [ none ↦ none | some r ↦ some (now + bigint_to_number r) ]

  unfoldable pub is_in_response_group : RepairManager → String → String → Bool
  is_in_response_group m sender_id id =
      let groups = m.config.num_response_groups in
      if sender_id === ""
      then false
      else if leb groups 1
      then true
      else combined_hash m.participant_id id % groups == combined_hash sender_id id % groups

  unfoldable pub mark_dependencies_missing : List HistoryEntry → ℕ → Eff RepairManager (Unit {0})
  mark_dependencies_missing [] now m = ok tt m
  mark_dependencies_missing (entry ∷ entries) now m =
      (do
        t_req ← or_throw (calculate_t_req m entry.message_id now) range_error
        added ← on_outgoing (Outgoing.add entry t_req)
        mark_dependencies_missing entries now)
        m

  -- What `processIncomingRepairRequests` does with one request.
  unfoldable pub process_request : HistoryEntry → LocalHistory → ℕ → Eff RepairManager (Unit {0})
  process_request request history now m =
      let m' = record m {
        outgoing_buffer = Outgoing.remove request.message_id m.outgoing_buffer;
      } in
      elim (find_id request.message_id history) [
        | none ↦ ok tt m'
        | some message ↦ elim request.sender_id [
          | none ↦ ok tt m'
          | some sender ↦
              if is_in_response_group m' sender request.message_id
              then (do
                t_resp ← or_throw (calculate_t_resp m' sender request.message_id now) range_error
                added ← on_incoming (Incoming.add request t_resp)
                pure tt)
                  m'
              else ok tt m'
        ]
      ]

  unfoldable pub process_incoming_repair_requests :
      List HistoryEntry → LocalHistory → ℕ → Eff RepairManager (Unit {0})
  process_incoming_repair_requests [] history now m = ok tt m
  process_incoming_repair_requests (request ∷ requests) history now m =
      (do
        process_request request history now
        process_incoming_repair_requests requests history now)
        m

unfoldable pub mark_message_received : String → RepairManager → RepairManager
mark_message_received id m = record m {
  outgoing_buffer =
      (if Outgoing.has id m.outgoing_buffer
        then Outgoing.remove id m.outgoing_buffer
        else m.outgoing_buffer);
  incoming_buffer =
      (if Incoming.has id m.incoming_buffer
        then Incoming.remove id m.incoming_buffer
        else m.incoming_buffer);
}

unfoldable pub get_repair_requests : ℕ → ℕ → RepairManager → List HistoryEntry × RepairManager
get_repair_requests max_requests now m =
    let (requests, b) = Outgoing.get_eligible now max_requests m.outgoing_buffer in
    (requests, record m { outgoing_buffer = b })

-- The messages of the history for the entries that are ready.
unfoldable pub find_all : List HistoryEntry → LocalHistory → List Message
find_all [] history = []
find_all (entry ∷ entries) history =
    let rest = find_all entries history in
    elim (find_id entry.message_id history) [ none ↦ rest | some message ↦ message ∷ rest ]

unfoldable pub sweep_incoming_buffer :
    LocalHistory → ℕ → RepairManager → List Message × RepairManager
unfolding find_all
sweep_incoming_buffer history now m =
    let (ready, b) = Incoming.get_ready now m.incoming_buffer in
    (find_all ready history, record m { incoming_buffer = b })

unfoldable pub clear : RepairManager → RepairManager
clear m = record m {
  outgoing_buffer = Outgoing.clear m.outgoing_buffer;
  incoming_buffer = Incoming.clear m.incoming_buffer;
}

-- `none` is a number that is negative, infinite or no integer.
unfoldable pub update_response_groups : Option ℕ → Eff RepairManager (Unit {0})
update_response_groups none m = throw library_error m
update_response_groups (some n) m =
    let capped = (if ltb max_safe_integer n then max_safe_integer else n) in
    let config = m.config in
    ok tt (record m {
      config = record config {
        num_response_groups = max 1 (capped / participants_per_response_group);
      };
    })

unfoldable pub has_requests_ready : ℕ → RepairManager → Bool
has_requests_ready now m = elim m.outgoing_buffer.items [
  | [] ↦ false
  | item ∷ items ↦ leb item.t_req now
]
