-- ===== src/Runtime/Plugin/Policies.antt =====
-- What the policy of a binding makes of the answer of its plugin.
use pingling.Prelude.{◌≡◌, ◌⊎◌, true, ok, err, arith}
use pingling.Contract.Failure.{HostResult}
use pingling.Runtime.Plugin.{
  Plugin, Serde, Env, Call, PluginPhaseResult, not_handled, observed_only, handled, halted,
  apply_outcome, handle_outcome, handle_reply, call_plugin, run_plugin_phase, is_best_effort,
  ignores_output, context,
}

module _ {V P W : Type 0} (s : Serde V P) (c : Call) (plugin : Plugin V W) (payload : P)
    (env : Env V W) where
  -- The payload goes on as it was, noticed or not.
  abbrev pub Keeps : HostResult (PluginPhaseResult P) → Type 0
  Keeps r = (r ≡ ok (not_handled payload)) ⊎ (r ≡ ok (observed_only payload))

  -- A best-effort plugin never stops a run whose context can be serialised: whether it answers,
  -- refuses, fails, or answers with what cannot be parsed, the payload goes on unchanged.
  pub run_plugin_phase_best_effort :
      (v : V)
      → s.context_to_value (context s c payload) ≡ ok v
      → is_best_effort c ≡ true
      → Keeps (run_plugin_phase s c plugin payload env).0
  unfolding run_plugin_phase call_plugin handle_reply handle_outcome apply_outcome
  run_plugin_phase_best_effort v e h = ground arith

  -- The run fails, or goes on with the same payload.
  abbrev pub PassesOn : HostResult (PluginPhaseResult P) → Type 0
  PassesOn (err f) = Unit
  PassesOn (ok (not_handled p)) = p ≡ payload
  PassesOn (ok (observed_only p)) = p ≡ payload
  PassesOn (ok (handled p)) = ⊥
  PassesOn (ok (halted p)) = ⊥

  -- Under broadcast and best effort no answer changes the payload or ends the chain early with
  -- a value: the run fails, or passes the payload on as it was.
  pub run_plugin_phase_observers :
      ignores_output c ≡ true → PassesOn (run_plugin_phase s c plugin payload env).0
  unfolding run_plugin_phase call_plugin handle_reply handle_outcome apply_outcome
  run_plugin_phase_observers h = ground arith
