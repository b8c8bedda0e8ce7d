-- ===== src/Domain/PluginSlot/Errors.antt =====
-- What the adapters make of errors, phases and slot names.
use pingling.Prelude.{ℕ, String, ◌≡◌, refl, ◌↔◌, some, ok, err, str_eq, eq_iff, arith, false}
use pingling.Contract.Failure.{HostFailure, invalid_input}
use pingling.Contract.Token.{validate_token}
use pingling.Contract.Slot.{Slot, new_slot, SlotPhase, before, exec, after, phase_str}
use pingling.Runtime.Plugin.{
  Serde, call_plugin, handle_reply, run_plugin_phase, context, method_name,
}
use pingling.Runtime.Loaded.{Invocation}
use pingling.Runtime.Single.{run_single_plugin_slot_phase_observed, single_call}
use pingling.Domain.Error.{
  VpnError, to_string, code, invalid_configuration, unknown, process_start_failed,
  process_stop_failed, process_kill_failed, already_connected, not_connected, prerequisite_missing,
  storage_error, validation_error, core_not_found, permission_denied, outbound_not_found, cancelled,
}
use pingling.Domain.PluginSlot.{
  Plugin, SlotEnv, host_failure_from_vpn_error, vpn_error_from_host_failure, public_phase_from_str,
  adapt_plugin, adapt_run, run_slot_chain_observed, run_slot_phase_observed, fresh,
}

code_not_input : (e : VpnError) → str_eq (code e) "invalid_input" ≡ false
unfolding code
code_not_input (invalid_configuration m) = refl
code_not_input (process_start_failed m) = refl
code_not_input (process_stop_failed m) = refl
code_not_input (process_kill_failed m) = refl
code_not_input already_connected = refl
code_not_input not_connected = refl
code_not_input (prerequisite_missing m) = refl
code_not_input (storage_error m) = refl
code_not_input (validation_error m) = refl
code_not_input (core_not_found m) = refl
code_not_input (permission_denied m) = refl
code_not_input (outbound_not_found m) = refl
code_not_input cancelled = refl
code_not_input (unknown m) = refl

-- An error that a domain plugin reports comes back as `unknown` with its text, whichever it was.
pub bridged_error :
    (e : VpnError)
    → vpn_error_from_host_failure (host_failure_from_vpn_error e) ≡ unknown (to_string e)
unfolding vpn_error_from_host_failure host_failure_from_vpn_error
bridged_error e = rw (code_not_input e, vpn_error_from_host_failure) refl

phase_from_str : (p : SlotPhase) → public_phase_from_str (phase_str p) ≡ ok p
unfolding public_phase_from_str
phase_from_str before = refl
phase_from_str exec = refl
phase_from_str after = refl

phase_of_str :
    (name : String) (p : SlotPhase) → public_phase_from_str name ≡ ok p → name ≡ phase_str p
unfolding public_phase_from_str
phase_of_str name p h =
    ground (arith, eq_iff name "before", eq_iff name "exec", eq_iff name "after")

-- A phase name is read exactly when it is the name of a phase, and as that phase.
pub public_phase_from_str_iff :
    (name : String) (p : SlotPhase) → (public_phase_from_str name ≡ ok p) ↔ (name ≡ phase_str p)
public_phase_from_str_iff name p = (phase_of_str name p, λ h. rw h (phase_from_str p))

new_slot-code : (name : String) (f : HostFailure) → new_slot name ≡ err f → f.code ≡ "invalid_input"
unfolding new_slot validate_token invalid_input
new_slot-code name f h = ground arith

new_slot-invalid :
    (name : String) (f : HostFailure)
    → new_slot name ≡ err f
    → vpn_error_from_host_failure f ≡ invalid_configuration f.message
unfolding vpn_error_from_host_failure
new_slot-invalid name f h = ground (arith, eq_iff f.code "invalid_input", new_slot-code name f h)

module _ {V P W : Type 0} (s : Serde V P) (plugin : Plugin V W) (slot_name : String)
    (wire_version : ℕ) (invocation_id : String) (payload : P) (env : SlotEnv V W) where
  -- A chain at a name that is no slot is an invalid configuration: the plugin is not called and
  -- the observer is told nothing.
  pub run_slot_chain-invalid_slot :
      (f : HostFailure)
      → new_slot slot_name ≡ err f
      → run_slot_chain_observed s plugin slot_name wire_version invocation_id payload env
        ≡ (err (invalid_configuration f.message), env)
  unfolding run_slot_chain_observed
  run_slot_chain-invalid_slot f h =
      rw (h, run_slot_chain_observed, new_slot-invalid slot_name f h) refl

  abbrev pub here : Slot → Invocation
  here slot = record { slot = slot; wire_version = wire_version; invocation_id = invocation_id }

  -- The plugin gets the context of the phase and answers it with `e`.
  pub record Fails (slot : Slot) (phase : SlotPhase) (e : VpnError) : Type 0 where
    pub value : V
    pub serialised :
        s.context_to_value (context s (single_call plugin.name (here slot) phase) payload)
        ≡ ok value
    pub replied :
        (plugin.handle_ipc
          (method_name (single_call plugin.name (here slot) phase))
          value
          env.world).0
        ≡ some (err e)

  single-Fails :
      (slot : Slot) (phase : SlotPhase) (e : VpnError)
      → Fails slot phase e
      → (run_single_plugin_slot_phase_observed s plugin.name
          (adapt_plugin plugin)
          (here slot)
          phase
          payload
          (fresh env)).0
        ≡ err (host_failure_from_vpn_error e)
  unfolding run_single_plugin_slot_phase_observed run_plugin_phase call_plugin handle_reply
      adapt_plugin
  single-Fails slot phase e h = rw (h.serialised, run_plugin_phase, h.replied, handle_reply) refl

  -- When the plugin answers a phase with an error, whichever it is, the phase fails with `unknown`
  -- and the error's text.
  pub run_slot_phase-Fails :
      (slot : Slot) (phase : SlotPhase) (e : VpnError)
      → new_slot slot_name ≡ ok slot
      → Fails slot phase e
      → (run_slot_phase_observed s plugin slot_name
          (phase_str phase)
          wire_version
          invocation_id
          payload
          env).0
        ≡ err (unknown (to_string e))
  unfolding run_slot_phase_observed adapt_run
  run_slot_phase-Fails slot phase e valid h =
      rw
        (
          valid,
          run_slot_phase_observed,
          phase_from_str phase,
          adapt_run,
          single-Fails slot phase e h,
          bridged_error e,
        )
        refl
