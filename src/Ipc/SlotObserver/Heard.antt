-- ===== src/Ipc/SlotObserver/Heard.antt =====
-- What the clients hear of the observations.
use pingling.Prelude.{
  ℕ, ◌≡◌, refl, sym, ap, subst, ◌∙◌, List, [], ◌∷◌, ◌++◌, map, true, In, Bool-cases, inl, inr,
  Option-cases, none, some, String,
}
use pingling.Prelude.Int.{pos}
use pingling.Prelude.Text.{format}
use pingling.Domain.PluginSlot.{SlotObservation}
use pingling.Proxy.Json.{JsonValue, set_some}
use pingling.Ipc.Protocol.{Notification, new_notification}
use pingling.Ipc.Broadcaster.{EventBroadcaster, publish, publish_custom}
use pingling.Ipc.Broadcaster.History.{publish_all, publish_all-In}
use pingling.Ipc.Broadcaster.Overlap.{receiving}
use pingling.Ipc.SlotObserver.{
  BroadcastingSlotObserver, event_method, event_params, write_log, broadcast, observe,
}

module _ {V : Type 0} ⦃j : JsonValue V⦄ where
  -- The fields that a client is to read of an observation, and the notification that holds them.
  abbrev pub fields : SlotObservation V → List (String × V)
  fields o =
      ("slot", j.string o.slot)
      ∷ ("phase", j.string o.phase)
      ∷ ("wire_version", j.number (pos o.wire_version))
      ∷ ("invocation_id", j.string o.invocation_id)
      ∷ ("payload", o.payload_json)
      ∷ []

  abbrev pub slot_event : SlotObservation V → Notification V
  slot_event o = record {
    jsonrpc = "2.0";
    method = format ("event.slot." ∷ o.event ∷ []);
    params = elim o.error_message [
      | none ↦ j.object (fields o)
      | some message ↦ j.set (j.object (fields o)) "error" (j.string message)
    ];
  }

  slot_event-eq :
      (o : SlotObservation V) → new_notification (event_method o) (event_params o) ≡ slot_event o
  unfolding new_notification event_params set_some
  slot_event-eq o = elim (Option-cases o.error_message) [
    | inl e ↦ rw (e, set_some) refl
    | inr (message, e) ↦ rw (e, set_some) refl
  ]

  abbrev pub observe_all :
      BroadcastingSlotObserver V → List (SlotObservation V) → BroadcastingSlotObserver V
  observe_all self [] = self
  observe_all self (o ∷ os) = observe_all (observe self o) os

  write_log-broadcaster :
      (self : BroadcastingSlotObserver V) (o : SlotObservation V)
      → (write_log self o).broadcaster ≡ self.broadcaster
  unfolding write_log
  write_log-broadcaster self o = elim (Bool-cases self.log_enabled) [
    | inl e ↦ rw (e, write_log) refl
    | inr e ↦ rw (e, write_log) refl
  ]

  write_log-enabled :
      (self : BroadcastingSlotObserver V) (o : SlotObservation V)
      → (write_log self o).broadcast_enabled ≡ self.broadcast_enabled
  unfolding write_log
  write_log-enabled self o = elim (Bool-cases self.log_enabled) [
    | inl e ↦ rw (e, write_log) refl
    | inr e ↦ rw (e, write_log) refl
  ]

  broadcast-publish :
      (self : BroadcastingSlotObserver V) (o : SlotObservation V)
      → self.broadcast_enabled ≡ true
      → (broadcast self o).broadcaster ≡ publish self.broadcaster (slot_event o)
  unfolding broadcast publish_custom
  broadcast-publish self o e =
      rw (e, broadcast) (ap (λ n. publish self.broadcaster n) (slot_event-eq o))

  broadcast-enabled :
      (self : BroadcastingSlotObserver V) (o : SlotObservation V)
      → (broadcast self o).broadcast_enabled ≡ self.broadcast_enabled
  unfolding broadcast
  broadcast-enabled self o = elim (Bool-cases self.broadcast_enabled) [
    | inl e ↦ rw (e, broadcast) refl
    | inr e ↦ rw (e, broadcast) refl
  ]

  observe-eq :
      (self : BroadcastingSlotObserver V) (o : SlotObservation V)
      → self.broadcast_enabled ≡ true
      → (observe self o).broadcaster ≡ publish self.broadcaster (slot_event o)
  unfolding observe
  observe-eq self o e =
      broadcast-publish (write_log self o) o (write_log-enabled self o ∙ e)
      ∙ ap (λ b. publish b (slot_event o)) (write_log-broadcaster self o)

  observe-enabled :
      (self : BroadcastingSlotObserver V) (o : SlotObservation V)
      → (observe self o).broadcast_enabled ≡ self.broadcast_enabled
  unfolding observe
  observe-enabled self o = broadcast-enabled (write_log self o) o ∙ write_log-enabled self o

  observe_all-eq :
      (self : BroadcastingSlotObserver V) (os : List (SlotObservation V))
      → self.broadcast_enabled ≡ true
      → (observe_all self os).broadcaster ≡ publish_all self.broadcaster (map slot_event os)
  observe_all-eq self [] e = refl
  observe_all-eq self (o ∷ os) e =
      observe_all-eq (observe self o) os (observe-enabled self o ∙ e)
      ∙ ap (λ b. publish_all b (map slot_event os)) (observe-eq self o e)

  -- While the broadcast is on, as it is at first, each client that is subscribed and keeps its
  -- receiver, and has heard what it has, goes on to hear one notification for each observation, in
  -- the order of the observations, of the method `event.slot.` with the event, and with the slot,
  -- the phase, the wire version, the invocation id, the payload and, if there is one, the error of
  -- the observation.
  pub observe_all-In :
      (self : BroadcastingSlotObserver V) (os : List (SlotObservation V)) (id : ℕ)
      (heard : List (Notification V))
      → self.broadcast_enabled ≡ true
      → In (receiving id heard) self.broadcaster.subs
      → In (receiving id (heard ++ map slot_event os)) (observe_all self os).broadcaster.subs
  observe_all-In self os id heard on i =
      subst
        (λ (c : EventBroadcaster (Notification V)).
          In (receiving id (heard ++ map slot_event os)) c.subs)
        (sym (observe_all-eq self os on))
        (publish_all-In self.broadcaster (map slot_event os) (receiving id heard) refl i)
