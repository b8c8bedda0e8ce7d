-- ===== src/Netwatch.antt =====
-- The network watcher: crates/shared/netwatch/src/watcher.rs, src/backend.rs and src/plugin.rs.
--
-- Of the types of the crate netwatcher, `Update` and the records in it have what the code reads. A map of
-- interfaces is a function; what is iterated over is a list, in the order in which the iteration gives it.
-- A channel is its receiver's inbox, and whether the receiver is still there.
pub mod Mirror
pub mod Subscribers
use pingling.Prelude.{
  ℕ, String, List, [], ◌∷◌, ◌++◌, map, Bool, true, false, Option, none, some, Result, ok, err,
  map_err, if◌then◌else◌,
}
use pingling.Prelude.Text.{format}

pub record IpAddrInfo : Type 0 where
  pub ip : String
  pub prefix_len : ℕ
  pub is_v4 : Bool

pub record IfaceSnapshot : Type 0 where
  pub index : ℕ
  pub name : String
  pub hw_addr : String
  pub ips : List IpAddrInfo

pub data UpdateEvent : Type 0 where
  added : IfaceSnapshot → UpdateEvent
  removed : (index : ℕ) (name : String) → UpdateEvent
  modified :
      (snapshot : IfaceSnapshot) (addrs_added addrs_removed : List IpAddrInfo)
      (hw_addr_changed : Bool)
      → UpdateEvent

-- `netwatcher::IpRecord`, with the text of its address and whether that is IPv4.
pub record IpRecord : Type 0 where
  pub ip_text : String
  pub is_ipv4 : Bool
  pub prefix_len : ℕ

-- `netwatcher::Interface`
pub record Interface : Type 0 where
  pub index : ℕ
  pub name : String
  pub hw_addr : String
  pub ips : List IpRecord

-- The difference of one interface in `netwatcher::Diff`.
pub record InterfaceDiff : Type 0 where
  pub addrs_added : List IpRecord
  pub addrs_removed : List IpRecord
  pub hw_addr_changed : Bool

-- `netwatcher::Update` with its difference.
pub record Update : Type 0 where
  pub interfaces : ℕ → Option Interface
  pub diff_added : List ℕ
  pub diff_removed : List ℕ
  pub diff_modified : List (ℕ × InterfaceDiff)

unfoldable pub ip_record_to_info : IpRecord → IpAddrInfo
ip_record_to_info rec = record {
  ip = rec.ip_text;
  prefix_len = rec.prefix_len;
  is_v4 = rec.is_ipv4;
}

unfoldable pub iface_to_snapshot : Interface → IfaceSnapshot
iface_to_snapshot iface = record {
  index = iface.index;
  name = iface.name;
  hw_addr = iface.hw_addr;
  ips = map ip_record_to_info iface.ips;
}

unfoldable pub added_events : (ℕ → Option Interface) → List ℕ → List UpdateEvent
added_events interfaces [] = []
added_events interfaces (idx ∷ rest) =
    let events = added_events interfaces rest in
    elim (interfaces idx) [ none ↦ events | some iface ↦ added (iface_to_snapshot iface) ∷ events ]

unfoldable pub removed_events : (ℕ → String) → List ℕ → List UpdateEvent
removed_events u32_text [] = []
removed_events u32_text (idx ∷ rest) =
    removed idx (format ("if" ∷ u32_text idx ∷ [])) ∷ removed_events u32_text rest

unfoldable pub modified_event : IfaceSnapshot → InterfaceDiff → UpdateEvent
modified_event snapshot diff =
    modified snapshot (map ip_record_to_info diff.addrs_added)
      (map ip_record_to_info diff.addrs_removed) diff.hw_addr_changed

unfoldable pub modified_events :
    (ℕ → Option Interface) → List (ℕ × InterfaceDiff) → List UpdateEvent
modified_events interfaces [] = []
modified_events interfaces ((idx, diff) ∷ rest) =
    let events = modified_events interfaces rest in
    elim (interfaces idx) [
      | none ↦ events
      | some iface ↦ modified_event (iface_to_snapshot iface) diff ∷ events
    ]

unfoldable pub events_from_update : (ℕ → String) → Update → List UpdateEvent
events_from_update u32_text update =
    added_events update.interfaces update.diff_added
    ++ (removed_events u32_text update.diff_removed
        ++ modified_events update.interfaces update.diff_modified)

pub record Subscriber : Type 0 where
  pub inbox : List UpdateEvent
  pub is_open : Bool

-- Whether the watch has been started, and the senders.
pub record NetwatcherBackend : Type 0 where
  pub started : Bool
  pub subs : List Subscriber

unfoldable pub new_backend : NetwatcherBackend
new_backend = record { started = false; subs = [] }

unfoldable pub send : UpdateEvent → Subscriber → Subscriber
send event sub = if sub.is_open then record sub { inbox = sub.inbox ++ event ∷ [] } else sub

unfoldable pub fan_out : List UpdateEvent → List Subscriber → List Subscriber
fan_out [] subs = subs
fan_out (event ∷ events) subs = fan_out events (map (send event) subs)

-- The callback of the watch.
unfoldable pub on_update : (ℕ → String) → NetwatcherBackend → Update → NetwatcherBackend
on_update u32_text self update = record self {
  subs = fan_out (events_from_update u32_text update) self.subs;
}

-- `watch_interfaces` is what starting the watch gives.
unfoldable pub ensure_started :
    Result (Unit {0}) String → NetwatcherBackend → Result (Unit {0}) String × NetwatcherBackend
ensure_started watch_interfaces self =
    if self.started then (ok tt, self) else elim watch_interfaces [
      | err e ↦ (err (format ("netwatcher: failed to start: " ∷ e ∷ [])), self)
      | ok u ↦ (ok tt, record self { started = true })
    ]

unfoldable pub subscribe :
    Result (Unit {0}) String → NetwatcherBackend → Result (Unit {0}) String × NetwatcherBackend
subscribe watch_interfaces self =
    let (watching, self') = ensure_started watch_interfaces self in
    elim watching [
      | err e ↦ (err e, self')
      | ok u ↦
          (ok tt, record self' { subs = self'.subs ++ record { inbox = []; is_open = true } ∷ [] })
    ]

unfoldable pub list_interfaces :
    Result (List (ℕ × Interface)) String → Result (List (ℕ × IfaceSnapshot)) String
list_interfaces raw = elim raw [
  | err e ↦ err (format ("netwatcher: list_interfaces: " ∷ e ∷ []))
  | ok ifaces ↦ ok (map (λ (entry : ℕ × Interface). (entry.0, iface_to_snapshot entry.1)) ifaces)
]

-- `NetwatchPlugin::process` as it is by default, for `PassthroughPlugin`.
unfoldable pub passthrough : UpdateEvent → List UpdateEvent
passthrough event = event ∷ []
