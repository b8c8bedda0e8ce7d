-- ===== src/Process.antt =====
-- `ProcessCore` of crates/cores/core-process/src/lib.rs, and `SingboxCore` of
-- crates/cores/core-singbox/src/lib.rs, which passes every call on to one.
--
-- `std::process`, the file system and `pingling_paths::which` are the parameter `Processes`, over a
-- state of the machine `W`. The channel is the list of the events sent so far, and whether the receiver
-- is still there to be taken. The threads that a start spawns are operations of their own here: `poll`
-- and `report` are a round of the reaper, `log_stdout` and `log_stderr` pass on a line of the process.
pub mod Spec
pub mod SingBox
pub mod Status
pub mod Threads
use pingling.Prelude.{
  ℕ, String, List, [], ◌∷◌, ◌++◌, map, Bool, true, false, not, ◌||◌, Option, none, some, Result, ok,
  err, if◌then◌else◌, ◌>>◌, reject_if,
}
use pingling.Prelude.Int.{ℤ, negsuc}
use pingling.Prelude.Text.{format, is_empty, contains_char, replace}
use pingling.Prelude.BTreeMap.{BTreeMap}
use pingling.Domain.Error.{
  VpnError, to_string, invalid_configuration, already_connected, not_connected,
  process_start_failed, process_stop_failed, prerequisite_missing, validation_error,
}
use pingling.Domain.State.{
  ConnectionState, disconnected, connecting, connected, disconnecting, is_active, is_connected,
  CoreEvent, log, error_log, crashed, CoreInfo, PrerequisiteCheck,
}
use pingling.Process.Spec.{ProcessCoreSpec, singbox_process_spec}

-- `std::process::Command`, without the pipes.
pub record Command : Type 0 where
  pub binary : String
  pub args : List String
  pub env : BTreeMap String

-- `std::process::Output`
pub record Output : Type 0 where
  pub success : Bool
  pub stderr : String

-- The errors are `std::io::Error` as a text. `try_wait` gives the code of a process that has exited,
-- when it has one.
pub record Processes (W Child : Type 0) : Type 0 where
  pub exists : W → String → Bool
  pub which : W → String → Option String
  pub spawn : Command → W → Result Child String × W
  pub kill : Child → W → Result (Unit {0}) String × W
  pub wait : Child → W → W
  pub try_wait : Child → W → Result (Option (Option ℤ)) String × W
  pub output : Command → W → Result Output String × W
  pub trim : String → String
  pub i32_text : ℤ → String

pub record ProcessCore (Child : Type 0) : Type 0 where
  pub spec : ProcessCoreSpec
  pub state : ConnectionState
  pub child : Option Child
  pub events : List CoreEvent
  pub receiver : Bool

module _ {Child : Type 0} where
  unfoldable pub new_core : ProcessCoreSpec → ProcessCore Child
  new_core spec = record {
    spec = spec;
    state = disconnected;
    child = none;
    events = [];
    receiver = true;
  }

  unfoldable pub set_state : ProcessCore Child → ConnectionState → ProcessCore Child
  set_state self state = record self { state = state }

  unfoldable pub set_child : ProcessCore Child → Option Child → ProcessCore Child
  set_child self child = record self { child = child }

  unfoldable pub send : ProcessCore Child → CoreEvent → ProcessCore Child
  send self event = record self { events = self.events ++ event ∷ [] }

  unfoldable pub status : ProcessCore Child → ConnectionState
  status self = self.state

  unfoldable pub running : ProcessCore Child → Bool
  running self = is_connected (status self)

  unfoldable pub info : ProcessCore Child → CoreInfo
  info self = record {
    name = self.spec.display_name;
    version = self.spec.version;
    supported_protocols = self.spec.supported_protocols;
  }

  -- Whether the receiver is handed out: only once.
  unfoldable pub subscribe : ProcessCore Child → Bool × ProcessCore Child
  subscribe self = (self.receiver, record self { receiver = false })

  unfoldable pub log_stdout : ProcessCore Child → String → ProcessCore Child
  log_stdout self line = send self (log line)

  unfoldable pub log_stderr : ProcessCore Child → String → ProcessCore Child
  log_stderr self line = send self (error_log line)

unfoldable pub expand_args : List String → String → List String
expand_args args config_path = map (λ arg. replace "{config}" config_path arg) args

unfoldable pub command : ProcessCoreSpec → String → List String → Command
command spec binary args = record { binary = binary; args = args; env = spec.env }

module _ {W Child : Type 0} (p : Processes W Child) where
  unfoldable pub resolve_binary : ProcessCoreSpec → W → Result String VpnError
  resolve_binary spec w =
      if contains_char b'/' spec.binary || contains_char b'\\' spec.binary
      then (if p.exists w spec.binary
          then ok spec.binary
          else err (prerequisite_missing (format ("binary not found: " ∷ spec.binary ∷ []))))
      else elim (p.which w spec.binary) [
        | some path ↦ ok path
        | none ↦ err (prerequisite_missing (format (spec.binary ∷ " not found in PATH" ∷ [])))
      ]

  unfoldable pub spawn_process : ProcessCoreSpec → List String → W → Result Child VpnError × W
  spawn_process spec args w = elim (resolve_binary spec w) [
    | err e ↦ (err e, w)
    | ok binary ↦
        let (spawned, w') = p.spawn (command spec binary args) w in
        elim spawned [
          | ok child ↦ (ok child, w')
          | err e ↦ (err (process_start_failed (format (binary ∷ ": " ∷ e ∷ []))), w')
        ]
  ]

  -- The checks of `start`.
  unfoldable pub may_start : ProcessCore Child → String → Result (Unit {0}) VpnError
  may_start self config_path =
      if is_empty config_path
      then err (invalid_configuration "config_path must not be empty")
      else elim self.child [ some child ↦ err already_connected | none ↦ ok tt ]

  -- What `start` does after them: the reaper of the new process is not part of the core.
  unfoldable pub bring_up :
      ProcessCore Child → String → W → Result (Unit {0}) VpnError × ProcessCore Child × W
  bring_up self config_path w =
      let (spawned, w') =
        spawn_process self.spec (expand_args self.spec.start_args config_path) w in
      elim spawned [
        | err e ↦ (err e, set_state self disconnected, w')
        | ok child ↦ (ok tt, set_state (set_child self (some child)) connected, w')
      ]

  unfoldable pub start :
      ProcessCore Child → String → W → Result (Unit {0}) VpnError × ProcessCore Child × W
  start self config_path w = elim (may_start self config_path) [
    | err e ↦ (err e, self, w)
    | ok u ↦ bring_up (set_state self connecting) config_path w
  ]

  -- What `stop` does with the child it has taken.
  unfoldable pub bring_down :
      ProcessCore Child → Child → W → Result (Unit {0}) VpnError × ProcessCore Child × W
  bring_down self child w =
      let (killed, w') = p.kill child w in
      elim killed [
        | err e ↦ (err (process_stop_failed e), self, w')
        | ok u ↦ (ok tt, set_state self disconnected, p.wait child w')
      ]

  unfoldable pub stop : ProcessCore Child → W → Result (Unit {0}) VpnError × ProcessCore Child × W
  stop self w = elim self.child [
    | none ↦ (err not_connected, self, w)
    | some child ↦ bring_down (set_state (set_child self none) disconnecting) child w
  ]

  unfoldable pub kill : ProcessCore Child → W → Result (Unit {0}) VpnError × ProcessCore Child × W
  kill self w = stop self w

  unfoldable pub validate_config : ProcessCore Child → String → W → Result (Unit {0}) VpnError × W
  validate_config self config_path w =
      if is_empty config_path
      then (err (invalid_configuration "config_path must not be empty"), w)
      else elim self.spec.validate_args [
        | [] ↦ (ok tt, w)
        | arg ∷ args ↦
            if not (p.exists w config_path)
            then (
              err (invalid_configuration (format ("config file not found: " ∷ config_path ∷ []))),
              w,
            )
            else elim (resolve_binary self.spec w) [
              | err e ↦ (err e, w)
              | ok binary ↦
                  let (run, w') =
                    p.output (command self.spec binary (expand_args (arg ∷ args) config_path)) w in
                  elim run [
                    | err e ↦ (err (validation_error (format (binary ∷ ": " ∷ e ∷ []))), w')
                    | ok output ↦ (
                      reject_if (not output.success) (validation_error (p.trim output.stderr)),
                      w',
                    )
                  ]
            ]
      ]

  unfoldable pub check_prerequisites : ProcessCore Child → W → List PrerequisiteCheck
  check_prerequisites self w = elim (resolve_binary self.spec w) [
    | ok path ↦
        record { name = "binary_exists"; passed = true; message = format ("found at " ∷ path ∷ []) }
        ∷ []
    | err e ↦ record { name = "binary_exists"; passed = false; message = to_string e } ∷ []
  ]

-- Where a reaper is: asleep, or between the locks with the code of the process it took; `told` has
-- written the state and not yet sent the event.
pub data Reaper : Type 0 where
  asleep : Reaper
  holds told : ℤ → Reaper

-- `status.code().unwrap_or(-1)`
abbrev pub exit_code : Option ℤ → ℤ
exit_code none = negsuc 0
exit_code (some code) = code

module _ {W Child : Type 0} (p : Processes W Child) where
  -- What a reaper does after its sleep, under the lock of the child: it ends, or goes on.
  unfoldable pub poll : ProcessCore Child → W → Option Reaper × ProcessCore Child × W
  poll self w = elim self.child [
    | none ↦ (none, self, w)
    | some child ↦
        let (waited, w') = p.try_wait child w in
        elim waited [
          | err e ↦ (none, self, w')
          | ok exited ↦ elim exited [
            | none ↦ (some asleep, self, w')
            | some exit_status ↦ (some (holds (exit_code exit_status)), set_child self none, w')
          ]
        ]
  ]

  unfoldable pub crash_event : ℤ → CoreEvent
  crash_event code = crashed (format ("exited unexpectedly (code " ∷ p.i32_text code ∷ ")" ∷ []))

  -- What it then does with the code, when no other thread gets in between.
  unfoldable pub report : ProcessCore Child → ℤ → ProcessCore Child
  report self code = send (set_state self disconnected) (crash_event code)

  -- `VpnCore::restart`
  unfoldable pub restart :
      ProcessCore Child → String → W → Result (Unit {0}) VpnError × ProcessCore Child × W
  restart self config_path w =
      if is_active (status self)
      then (let (stopped, self', w') = stop p self w in
          elim stopped [ err e ↦ (err e, self', w') | ok u ↦ start p self' config_path w' ])
      else start p self config_path w

module _ {Child : Type 0} where
  unfoldable pub new_singbox : String → ProcessCore Child
  new_singbox binary_path =
      new_core (singbox_process_spec (if is_empty binary_path then "sing-box" else binary_path))
