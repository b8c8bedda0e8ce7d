-- ===== src/Examples/Ipc.antt =====
-- Events, and a client that subscribes in between.
use pingling.Prelude.{String, List, [], ◌∷◌, ◌++◌, In, inl, inr, refl, true, false, map, none}
use pingling.Domain.PluginSlot.{SlotObservation}
use pingling.Ipc.Protocol.{Notification}
use pingling.Ipc.SlotObserver.{new_observer}
use pingling.Ipc.SlotObserver.Heard.{slot_event, observe_all, observe_all-In}
use pingling.Examples.Proxy.{Json, text, json}
use pingling.Ipc.Broadcaster.{
  EventBroadcaster, new_broadcaster, replay, register, subscribe, remember, send_all, publish,
}
use pingling.Ipc.Broadcaster.History.{last, publish_all}
use pingling.Ipc.Broadcaster.Received.{
  Action, publishes, subscribes, hangs_up, published, act_all, subscribe-In,
}
use pingling.Ipc.Broadcaster.Overlap.{receiving, overlap-In}

abbrev earlier : List String
earlier = "connecting" ∷ "connected" ∷ []

abbrev later : List String
later = "disconnected" ∷ []

abbrev busy : List (Action String)
busy =
    publishes "connecting" ∷ subscribes 3 ∷ publishes "connected" ∷ hangs_up 3 ∷ subscribes 5 ∷ []

abbrev busy_later : List (Action String)
busy_later = subscribes 9 ∷ publishes "disconnected" ∷ hangs_up 5 ∷ publishes "log" ∷ []

subscribe-In_example :
    In
      (record {
        id = 7;
        inbox = last 128 (published busy) ++ published busy_later;
        open_end = true;
      })
      (act_all busy_later (subscribe (act_all busy new_broadcaster) 7)).subs
subscribe-In_example = subscribe-In busy busy_later 7 (refl, tt)

overlap-In_example :
    In
      (receiving 7 ("connecting" ∷ "connected" ∷ "disconnected" ∷ []))
      (publish_all
        (register
          (publish (publish_all new_broadcaster earlier) "log")
          (replay (publish_all new_broadcaster earlier) 7))
        later).subs
    × In
        (receiving 7 ("connecting" ∷ "connected" ∷ "log" ∷ "log" ∷ "disconnected" ∷ []))
        (publish_all
          (send_all
            (register
              (remember (publish_all new_broadcaster earlier) "log")
              (replay (remember (publish_all new_broadcaster earlier) "log") 7))
            "log")
          later).subs
overlap-In_example = overlap-In earlier later "log" 7

abbrev seen : String → SlotObservation Json
seen event = record {
  slot = "vpn.connect";
  phase = "exec";
  wire_version = 1;
  invocation_id = "inv";
  event = event;
  payload_json = text "payload";
  error_message = none;
}

abbrev told : List (SlotObservation Json)
told = seen "enter" ∷ seen "continue" ∷ []

-- A client that hung up, and one that has heard an event.
abbrev two_clients : EventBroadcaster (Notification Json)
two_clients = record {
  subs =
      record { id = 3; inbox = []; open_end = false }
      ∷ receiving 7 (slot_event (seen "enter") ∷ [])
      ∷ [];
  history = slot_event (seen "enter") ∷ [];
  history_limit = 128;
}

observe_all-In_example :
    In
      (receiving 7 ((slot_event (seen "enter") ∷ []) ++ map slot_event told))
      (observe_all (new_observer two_clients) told).broadcaster.subs
unfolding new_observer
observe_all-In_example =
    observe_all-In (new_observer two_clients) told 7 (slot_event (seen "enter") ∷ []) refl
      (inr (inl refl))
