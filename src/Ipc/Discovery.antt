-- ===== src/Ipc/Discovery.antt =====
-- Discovery of a daemon: crates/extension_slots/ipc/src/discovery.rs.
--
-- The file system, the processes of the machine and serde_json are the parameter `Machine`, over a state
-- `D`. Names of files are those within the registry directory. A datagram is its list of bytes. The
-- lines of the log are left out.
pub mod Pruned
pub mod Published
pub mod Beacon
use Prim.Native.Char.{code}
use Prim.Native.String as String
use pingling.Prelude.{
  ℕ, String, List, [], ◌∷◌, ◌++◌, Bool, true, false, not, ◌||◌, ◌&&◌, ◌==◌, Option, none, some,
  Result, ok, err, str_eq, if◌then◌else◌,
}
use pingling.Prelude.Int.{ℤ, pos, parse_i32}
use pingling.Prelude.Text.{format, ends_with, trim_end_matches}

abbrev pub daemon_protocol_version : ℕ
daemon_protocol_version = 1

abbrev pub discovery_port : ℕ
discovery_port = 7878

abbrev pub probe_magic : String
probe_magic = "AVARS_DISCOVER_v1"

pub record DaemonAdvertisement : Type 0 where
  pub service : String
  pub protocol_version : ℕ
  pub pid : ℕ
  pub hostname : String
  pub tcp : Option String
  pub websocket : Option String
  pub uds : Option String
  pub log_file : Option String
  pub started_at : ℕ

-- `kill0` is `kill(pid, 0)`: nothing when it returns 0, and otherwise the last OS error, if it has a
-- number. A name that is not UTF-8 is none.
pub record Machine (D : Type 0) : Type 0 where
  pub process_id : ℕ
  pub daemon_log_file : Option String
  pub seconds_since_epoch : Option ℕ
  pub u32_text : ℕ → String
  pub to_vec : DaemonAdvertisement → Result String String
  pub create_dir_all : D → D
  pub read_dir : D → Option (List (Option String))
  pub write : String → String → D → Result (Unit {0}) String × D
  pub remove_file : String → D → Result (Unit {0}) String × D
  pub kill0 : ℤ → D → Option (Option ℤ)

unfoldable pub hostname : String
hostname = "localhost"

abbrev pub latest_name : String
latest_name = "latest.json"

-- The pid in the name of a registration file.
unfoldable pub entry_pid : String → Option ℤ
entry_pid file_name =
    if not (ends_with ".json" file_name) || str_eq file_name latest_name
    then none
    else parse_i32 (trim_end_matches ".json" file_name)

module _ {D : Type 0} (m : Machine D) where
  unfoldable pub with_websocket :
      Option String → Option String → Option String → DaemonAdvertisement
  with_websocket tcp uds websocket = record {
    service = "pingling";
    protocol_version = daemon_protocol_version;
    pid = m.process_id;
    hostname = hostname;
    tcp = tcp;
    websocket = websocket;
    uds = uds;
    log_file = m.daemon_log_file;
    started_at = elim m.seconds_since_epoch [ some secs ↦ secs | none ↦ 0 ];
  }

  unfoldable pub new_advertisement : Option String → Option String → DaemonAdvertisement
  new_advertisement tcp uds = with_websocket tcp uds none

  unfoldable pub to_json_bytes : DaemonAdvertisement → String
  to_json_bytes ad = elim (m.to_vec ad) [ ok bytes ↦ bytes | err e ↦ "{}" ]

  -- The name of this daemon's registration file.
  unfoldable pub registry_file_for_self : String
  registry_file_for_self = format (m.u32_text m.process_id ∷ ".json" ∷ [])

  -- Any error but ESRCH counts as alive.
  unfoldable pub pid_alive : ℤ → D → Bool
  pid_alive pid d = elim (m.kill0 pid d) [
    | none ↦ true
    | some errno ↦ elim errno [
      | none ↦ true
      | some code ↦ elim code [ pos n ↦ not (n == 3) | _ ↦ true ]
    ]
  ]

  unfoldable pub prune_entry : String → D → D
  prune_entry file_name d = elim (entry_pid file_name) [
    | none ↦ d
    | some pid ↦ if pid_alive pid d then d else (m.remove_file file_name d).1
  ]

  unfoldable pub prune_entries : List (Option String) → D → D
  prune_entries [] d = d
  prune_entries (none ∷ names) d = prune_entries names d
  prune_entries (some file_name ∷ names) d = prune_entries names (prune_entry file_name d)

  unfoldable pub prune_stale_entries : D → D
  prune_stale_entries d =
      let d1 = m.create_dir_all d in
      elim (m.read_dir d1) [ none ↦ d1 | some names ↦ prune_entries names d1 ]

  unfoldable pub publish_registry : DaemonAdvertisement → D → Result String String × D
  publish_registry ad d =
      let d1 = m.create_dir_all (prune_stale_entries d) in
      let (written, d2) = m.write registry_file_for_self (to_json_bytes ad) d1 in
      elim written [
        | err e ↦ (err e, d2)
        | ok u ↦ (
          ok registry_file_for_self,
          (m.write latest_name (to_json_bytes ad) (m.create_dir_all d2)).1,
        )
      ]

  unfoldable pub cleanup_registry : D → D
  cleanup_registry d = (m.remove_file registry_file_for_self (m.create_dir_all d)).1

-- `str::as_bytes`, for a text of ASCII characters.
unfoldable pub as_bytes : String → List ℕ
as_bytes String.[] = []
as_bytes (String.◌∷◌ c s) = code c ∷ as_bytes s

-- `payload.starts_with(prefix)`
unfoldable pub starts_with : List ℕ → List ℕ → Bool
starts_with [] payload = true
starts_with (b ∷ bs) [] = false
starts_with (b ∷ bs) (c ∷ cs) = b == c && starts_with bs cs

-- What `recv_from` gives the beacon: a datagram and its sender, a time-out, or another error.
pub data Received (Peer : Type 0) : Type 0 where
  datagram : List ℕ → Peer → Received Peer
  timed_out failed : Received Peer

module _ {D Peer : Type 0} (m : Machine D) (ad : DaemonAdvertisement) where
  -- A round of the beacon: the reply it sends, and to whom.
  unfoldable pub beacon_round : Received Peer → List (String × Peer)
  beacon_round (datagram payload peer) =
      if not (starts_with (as_bytes probe_magic) payload)
      then []
      else (to_json_bytes m ad, peer) ∷ []
  beacon_round timed_out = []
  beacon_round failed = []

  unfoldable pub beacon : List (Received Peer) → List (String × Peer)
  beacon [] = []
  beacon (r ∷ rs) = beacon_round r ++ beacon rs
