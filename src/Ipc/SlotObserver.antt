-- ===== src/Ipc/SlotObserver.antt =====
-- `BroadcastingSlotObserver` of crates/extension_slots/ipc/src/slot_observer.rs. The log is the list
-- of what was written to it, with its level.
pub mod Heard
use pingling.Prelude.{String, List, [], ◌∷◌, ◌++◌, Bool, true, str_eq, ◌||◌, if◌then◌else◌}
use pingling.Prelude.Text.{format}
use pingling.Domain.PluginSlot.{SlotObservation}
use pingling.Proxy.Json.{JsonValue, set_some, nat}
use pingling.Ipc.Protocol.{Notification}
use pingling.Ipc.Broadcaster.{EventBroadcaster, publish_custom}

pub data Level : Type 0 where
  warn debug trace : Level

pub record BroadcastingSlotObserver (V : Type 0) : Type 0 where
  pub broadcaster : EventBroadcaster (Notification V)
  pub log_enabled : Bool
  pub broadcast_enabled : Bool
  pub log : List (Level × SlotObservation V)

-- `match o.event { .. }`
unfoldable pub log_level : String → Level
log_level event =
    if str_eq event "error"
    then warn
    else if str_eq event "halt" || str_eq event "continue"
    then debug
    else trace

module _ {V : Type 0} where
  unfoldable pub new_observer : EventBroadcaster (Notification V) → BroadcastingSlotObserver V
  new_observer broadcaster = record {
    broadcaster = broadcaster;
    log_enabled = true;
    broadcast_enabled = true;
    log = [];
  }

  unfoldable pub set_log_enabled : BroadcastingSlotObserver V → Bool → BroadcastingSlotObserver V
  set_log_enabled self enabled = record self { log_enabled = enabled }

  unfoldable pub set_broadcast_enabled :
      BroadcastingSlotObserver V → Bool → BroadcastingSlotObserver V
  set_broadcast_enabled self enabled = record self { broadcast_enabled = enabled }

module _ {V : Type 0} ⦃j : JsonValue V⦄ where
  abbrev pub event_method : SlotObservation V → String
  event_method o = format ("event.slot." ∷ o.event ∷ [])

  unfoldable pub event_params : SlotObservation V → V
  event_params o = set_some "error" j.string o.error_message (
      j.object (
        ("slot", j.string o.slot)
        ∷ ("phase", j.string o.phase)
        ∷ ("wire_version", nat o.wire_version)
        ∷ ("invocation_id", j.string o.invocation_id)
        ∷ ("payload", o.payload_json)
        ∷ []))

  -- The two sinks, one after the other.
  unfoldable pub write_log :
      BroadcastingSlotObserver V → SlotObservation V → BroadcastingSlotObserver V
  write_log self o =
      if self.log_enabled
      then record self { log = self.log ++ (log_level o.event, o) ∷ [] }
      else self

  unfoldable pub broadcast :
      BroadcastingSlotObserver V → SlotObservation V → BroadcastingSlotObserver V
  broadcast self o =
      if self.broadcast_enabled
      then record self {
        broadcaster = publish_custom self.broadcaster (event_method o) (event_params o);
      }
      else self

  unfoldable pub observe :
      BroadcastingSlotObserver V → SlotObservation V → BroadcastingSlotObserver V
  observe self o = broadcast (write_log self o) o
