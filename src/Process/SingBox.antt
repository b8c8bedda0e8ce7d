-- ===== src/Process/SingBox.antt =====
-- What a `SingboxCore` of crates/cores/core-singbox/src/lib.rs runs.
use text.Mathlib.TextLemmas.{append-nil}
use pingling.Prelude.{
  String, [], ◌∷◌, ◌≡◌, ap, false, some, Result, ok, Result-cases, inl, inr, err, arith,
}
use pingling.Prelude.Text.{is_empty, replace, replace_from, strip_prefix, char_count, format}
use pingling.Domain.Error.{VpnError, process_start_failed}
use pingling.Domain.State.{connected}
use pingling.Process.Spec.{
  singbox_process_spec, new_spec, with_display_name, with_version, with_start_args,
  with_validate_args, with_supported_protocols,
}
use pingling.Process.{
  Processes, ProcessCore, Command, new_singbox, new_core, expand_args, resolve_binary, start,
  may_start, bring_up, spawn_process, command, set_state, set_child,
}

run-expand_args :
    (path : String) → expand_args ("run" ∷ "-c" ∷ "{config}" ∷ []) path ≡ "run" ∷ "-c" ∷ path ∷ []
unfolding expand_args replace replace_from strip_prefix char_count
run-expand_args path = ap (λ arg. "run" ∷ "-c" ∷ arg ∷ []) (append-nil path)

abbrev pub run_command : String → String → Command
run_command binary config_path = record {
  binary = binary;
  args = "run" ∷ "-c" ∷ config_path ∷ [];
  env = [];
}

module _ {W Child : Type 0} where
  -- What comes of a start when the system answers so to the spawning of its process.
  abbrev pub after_spawn :
      ProcessCore Child
      → String
      → Result Child String × W
      → Result (Unit {0}) VpnError × ProcessCore Child × W
  after_spawn core binary (ok child, w) =
      (ok tt, record core { state = connected; child = some child }, w)
  after_spawn core binary (err e, w) =
      (err (process_start_failed (format (binary ∷ ": " ∷ e ∷ []))), core, w)

  -- A sing-box core that has not been started runs `sing-box run -c <path>` when it is started with a
  -- path that is not empty, and its binary is found. When the process is spawned, the core holds it and
  -- is connected; when it is not, start gives the error, and the core is disconnected with no process.
  pub singbox-start :
      (p : Processes W Child) (binary_path config_path binary : String) (w : W)
      → is_empty config_path ≡ false
      → resolve_binary p (new_singbox {Child = Child} binary_path).spec w ≡ ok binary
      → start p (new_singbox binary_path) config_path w
        ≡ after_spawn (new_singbox binary_path) binary (p.spawn (run_command binary config_path) w)
  unfolding start may_start bring_up spawn_process command new_singbox new_core singbox_process_spec
      set_state set_child new_spec with_display_name with_version with_start_args with_validate_args
      with_supported_protocols
  singbox-start p binary_path config_path binary w filled r =
      elim (Result-cases (p.spawn (run_command binary config_path) w).0) [
        | inl (child, e) ↦ ground (arith, filled, r, e, run-expand_args config_path)
        | inr (error, e) ↦ ground (arith, filled, r, e, run-expand_args config_path)
      ]
