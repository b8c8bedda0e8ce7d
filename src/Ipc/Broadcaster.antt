-- ===== src/Ipc/Broadcaster.antt =====
-- `EventBroadcaster` of crates/extension_slots/ipc/src/broadcaster.rs.
--
-- A subscriber is its channel: what was sent into it so far, and whether the receiver still
-- exists. `subscribe` and `publish` each take two locks one after the other, so that each is two
-- steps here: `replay` and `register`, `remember` and `send_all`. A subscriber that was replayed
-- and is not registered yet is the local `tx` of `subscribe`.
pub mod History
pub mod Overlap
pub mod Received
use pingling.Prelude.{ℕ, String, List, [], ◌∷◌, ◌++◌, Bool, true, length, ltb, if◌then◌else◌}
use pingling.Contract.Package.{Json}
use pingling.Ipc.Protocol.{Notification, new_notification}

pub record Subscriber (N : Type 0) : Type 0 where
  pub id : ℕ
  pub inbox : List N
  pub open_end : Bool

pub record EventBroadcaster (N : Type 0) : Type 0 where
  pub subs : List (Subscriber N)
  pub history : List N
  pub history_limit : ℕ

module _ {N : Type 0} where
  unfoldable pub new_broadcaster : EventBroadcaster N
  new_broadcaster = record { subs = []; history = []; history_limit = 128 }

  -- `while history.len() > self.history_limit { history.pop_front(); }`
  unfoldable pub trim : ℕ → List N → List N
  trim limit [] = []
  trim limit (n ∷ ns) = if ltb limit (length (n ∷ ns)) then trim limit ns else n ∷ ns

  -- The first half of `subscribe`, under the lock of the history.
  unfoldable pub replay : EventBroadcaster N → ℕ → Subscriber N
  replay b id = record { id = id; inbox = b.history; open_end = true }

  -- The second half, under the lock of the subscribers.
  unfoldable pub register : EventBroadcaster N → Subscriber N → EventBroadcaster N
  register b s = record b { subs = b.subs ++ s ∷ [] }

  unfoldable pub subscribe : EventBroadcaster N → ℕ → EventBroadcaster N
  subscribe b id = register b (replay b id)

  -- The first half of `publish`.
  unfoldable pub remember : EventBroadcaster N → N → EventBroadcaster N
  remember b notif = record b { history = trim b.history_limit (b.history ++ notif ∷ []) }

  -- `subs.retain(|tx| tx.send(notif.clone()).is_ok())`
  unfoldable pub retain_sent : N → List (Subscriber N) → List (Subscriber N)
  retain_sent notif [] = []
  retain_sent notif (s ∷ ss) =
      let rest = retain_sent notif ss in
      if s.open_end then record s { inbox = s.inbox ++ notif ∷ [] } ∷ rest else rest

  -- The second half.
  unfoldable pub send_all : EventBroadcaster N → N → EventBroadcaster N
  send_all b notif = record b { subs = retain_sent notif b.subs }

  unfoldable pub publish : EventBroadcaster N → N → EventBroadcaster N
  publish b notif = send_all (remember b notif) notif

  unfoldable pub subscriber_count : EventBroadcaster N → ℕ
  subscriber_count b = length b.subs

module _ {V : Type 0} where
  unfoldable pub publish_custom :
      EventBroadcaster (Notification V) → String → V → EventBroadcaster (Notification V)
  publish_custom b method params = publish b (new_notification method params)

module _ {V : Type 0} ⦃j : Json V⦄ where
  unfoldable pub publish_state :
      EventBroadcaster (Notification V) → String → Bool → String → EventBroadcaster (Notification V)
  publish_state b state running core = publish b (
      new_notification "event.stateChanged" (
        j.object
          (("state", j.string state) ∷ ("running", j.bool running) ∷ ("core", j.string core) ∷ [])))

  unfoldable pub publish_log :
      EventBroadcaster (Notification V) → String → String → EventBroadcaster (Notification V)
  publish_log b level message = publish b (
      new_notification "event.log"
        (j.object (("level", j.string level) ∷ ("message", j.string message) ∷ [])))
