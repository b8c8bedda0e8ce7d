-- ===== src/PrimitiveHost.antt =====
-- The command line of crates/extension_slots_service/primitive-host/src/main.rs.
--
-- What is printed is the list of the lines, without the text of the help. `Box<dyn VpnCore>` is one of
-- the cores that `build_core` makes; the reapers of a process core take no turn during a command.
pub mod RoundTrip
pub mod Smoke
use pingling.Prelude.{
  ℕ, String, List, [], ◌∷◌, ◌++◌, map, any, is_empty, Bool, true, false, ◌||◌, Option, none, some,
  Result, ok, err, map_err, str_eq, if◌then◌else◌,
}
use pingling.Prelude.Text.{format, strip_prefix}
use pingling.Domain.Error.{VpnError, to_string}
use pingling.Domain.State.{ConnectionState, state_str, CoreInfo, PrerequisiteCheck}
use pingling.Mocks.Core as Mock
use pingling.Mocks.Core.{MockCore}
use pingling.Process.Spec.{ProcessCoreSpec, new_spec, with_start_args, with_validate_args}
use pingling.Process as Process
use pingling.Process.{Processes, ProcessCore, new_core, new_singbox}

pub record Options : Type 0 where
  pub core : String
  pub binary : Option String
  pub config : Option String
  pub command : String
  pub start_args : List String
  pub validate_args : List String

unfoldable pub default_options : Options
default_options = record {
  core = "mock";
  binary = none;
  config = none;
  command = "status";
  start_args = [];
  validate_args = [];
}

-- The arguments that take a value.
pub data Flag : Type 0 where
  core_flag binary_flag config_flag start_arg_flag validate_arg_flag : Flag

unfoldable pub flag_str : Flag → String
flag_str core_flag = "--core"
flag_str binary_flag = "--binary"
flag_str config_flag = "--config"
flag_str start_arg_flag = "--start-arg"
flag_str validate_arg_flag = "--validate-arg"

unfoldable pub flag_of : String → Option Flag
flag_of arg =
    if str_eq arg "--core"
    then some core_flag
    else if str_eq arg "--binary"
    then some binary_flag
    else if str_eq arg "--config"
    then some config_flag
    else if str_eq arg "--start-arg"
    then some start_arg_flag
    else if str_eq arg "--validate-arg"
    then some validate_arg_flag
    else none

unfoldable pub set_flag : Flag → String → Options → Options
set_flag core_flag value opts = record opts { core = value }
set_flag binary_flag value opts = record opts { binary = some value }
set_flag config_flag value opts = record opts { config = some value }
set_flag start_arg_flag value opts = record opts { start_args = opts.start_args ++ value ∷ [] }
set_flag validate_arg_flag value opts = record opts {
  validate_args = opts.validate_args ++ value ∷ [];
}

unfoldable pub is_command : String → Bool
is_command arg = str_eq arg "status" || str_eq arg "check" || str_eq arg "smoke"

-- `value.starts_with("--")`
unfoldable pub has_dashes : String → Bool
has_dashes value = elim (strip_prefix "--" value) [ some rest ↦ true | none ↦ false ]

abbrev pub requires_value : String → String
requires_value flag = format (flag ∷ " requires a value" ∷ [])

-- The value, when there is one that does not look like a flag.
unfoldable pub next_value : List String → String → Result String String
next_value [] flag = err (requires_value flag)
next_value (value ∷ rest) flag = if has_dashes value then err (requires_value flag) else ok value

-- An argument without a value, with what comes of the arguments after it.
unfoldable pub parse_word : String → Result Options String → Result Options String
parse_word arg rest =
    if is_command arg then rest else err (format ("unknown argument `" ∷ arg ∷ "`" ∷ []))

unfoldable pub parse_from : Options → List String → Result Options String
parse_from opts [] = ok opts
parse_from opts (arg ∷ []) = elim (flag_of arg) [
  | some flag ↦ err (requires_value arg)
  | none ↦ parse_word arg (ok (record opts { command = arg }))
]
parse_from opts (arg ∷ value ∷ rest) = elim (flag_of arg) [
  | some flag ↦ elim (next_value (value ∷ rest) arg) [
    | err e ↦ err e
    | ok v ↦ parse_from (set_flag flag v opts) rest
  ]
  | none ↦ parse_word arg (parse_from (record opts { command = arg }) (value ∷ rest))
]

unfoldable pub parse : List String → Result Options String
parse args = parse_from default_options args

pub data Core (Child : Type 0) : Type 0 where
  mock : MockCore → Core Child
  process : ProcessCore Child → Core Child

unfoldable pub process_spec : Options → String → ProcessCoreSpec
process_spec opts binary =
    let spec = new_spec "process" binary in
    let started = if is_empty opts.start_args then spec else with_start_args spec opts.start_args in
    if is_empty opts.validate_args then started else with_validate_args started opts.validate_args

unfoldable pub build_core : {Child : Type 0} → Options → Result (Core Child) String
build_core opts =
    if str_eq opts.core "mock"
    then ok (mock Mock.new_core)
    else if str_eq opts.core "singbox" || str_eq opts.core "sing-box"
    then ok (process (new_singbox (elim opts.binary [ some b ↦ b | none ↦ "sing-box" ])))
    else if str_eq opts.core "process"
    then elim opts.binary [
      | none ↦ err "process core requires --binary <path-or-name>"
      | some binary ↦ ok (process (new_core (process_spec opts binary)))
    ]
    else err (format ("unsupported core `" ∷ opts.core ∷ "`" ∷ []))

module _ {W Child : Type 0} (p : Processes W Child) where
  unfoldable pub core_status : Core Child → ConnectionState
  core_status (mock m) = Mock.status m
  core_status (process c) = Process.status c

  unfoldable pub core_info : Core Child → CoreInfo
  core_info (mock m) = Mock.info
  core_info (process c) = Process.info c

  unfoldable pub core_check : Core Child → W → List PrerequisiteCheck
  core_check (mock m) w = Mock.check_prerequisites
  core_check (process c) w = Process.check_prerequisites p c w

  unfoldable pub core_validate : Core Child → String → W → Result (Unit {0}) VpnError × W
  core_validate (mock m) config w = (Mock.validate_config m config, w)
  core_validate (process c) config w = Process.validate_config p c config w

  unfoldable pub core_start : Core Child → String → W → Result (Unit {0}) VpnError × Core Child × W
  core_start (mock m) config w = let (r, m') = Mock.start m config in (r, mock m', w)
  core_start (process c) config w =
      let (r, c', w') = Process.start p c config w in (r, process c', w')

  unfoldable pub core_stop : Core Child → W → Result (Unit {0}) VpnError × Core Child × W
  core_stop (mock m) w = let (r, m') = Mock.stop m in (r, mock m', w)
  core_stop (process c) w = let (r, c', w') = Process.stop p c w in (r, process c', w')

  unfoldable pub check_line : PrerequisiteCheck → String
  check_line check =
      format
        (check.name ∷ "\t" ∷ (if check.passed then "ok" else "fail") ∷ "\t" ∷ check.message ∷ [])

  -- What a command comes to: its result, the lines it printed, the core, and the machine.
  abbrev pub Outcome : Type 0
  Outcome = Result (Unit {0}) String × List String × Core Child × W

  unfoldable pub smoke : Core Child → String → W → Outcome
  smoke core config w =
      let (valid, w1) = core_validate core config w in
      elim valid [
        | err e ↦ (err (to_string e), [], core, w1)
        | ok u ↦
            let (started, core2, w2) = core_start core config w1 in
            elim started [
              | err e ↦ (err (to_string e), [], core2, w2)
              | ok u' ↦
                  let (stopped, core3, w3) = core_stop core2 w2 in
                  (
                    ok tt,
                    format ("started: " ∷ state_str (core_status core2) ∷ [])
                        ∷ format ("stopped: " ∷ state_str (core_status core3) ∷ [])
                        ∷ [],
                    core3,
                    w3,
                  )
            ]
      ]

  unfoldable pub run_command : Options → Core Child → W → Outcome
  run_command opts core w =
      if str_eq opts.command "status"
      then (
        ok tt,
        format (
              "core="
              ∷ (core_info core).name
              ∷ " version="
              ∷ (core_info core).version
              ∷ " status="
              ∷ state_str (core_status core)
              ∷ [])
            ∷ [],
        core,
        w,
      )
      else if str_eq opts.command "check"
      then (ok tt, map check_line (core_check core w), core, w)
      else if str_eq opts.command "smoke"
      then elim opts.config [
        | none ↦ (err "smoke requires --config <path>", [], core, w)
        | some config ↦ smoke core config w
      ]
      else (err (format ("unknown command `" ∷ opts.command ∷ "`" ∷ [])), [], core, w)

  -- The lines and the machine after `run`; the text of the help is a parameter.
  unfoldable pub run : String → List String → W → Result (Unit {0}) String × List String × W
  run help args w =
      if any (λ arg. str_eq arg "-h" || str_eq arg "--help") args
      then (ok tt, help ∷ [], w)
      else elim (parse args) [
        | err e ↦ (err e, [], w)
        | ok opts ↦ elim (build_core opts) [
          | err e ↦ (err e, [], w)
          | ok core ↦
              let (result, lines, core', w') = run_command opts core w in (result, lines, w')
        ]
      ]
