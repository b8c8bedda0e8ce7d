-- ===== src/Contract/Slot.antt =====
-- Slots, phases, policies, contexts and outcomes of host-contract/src/lib.rs.
use pingling.Prelude.{
  ℕ, String, List, [], ◌∷◌, Bool, true, false, ok, ◌>>◌, any, is_empty, reject_if, str_eq, ◌&&◌,
}
use pingling.Contract.Failure.{HostResult, invalid_input}
use pingling.Contract.Token.{validate_token}

pub record Slot : Type 0 where
  pub name : String

unfoldable pub new_slot : String → HostResult Slot
new_slot value = validate_token "slot" value >> ok (record { name = value })

unfoldable pub well_known : List String
well_known =
    "config.process" ∷ "deeplink.resolve" ∷ "auth.session" ∷ "vpn.connect" ∷ "vpn.disconnect"
    ∷ "plugin.load" ∷ "core.start" ∷ "core.stop" ∷ "profile.activate" ∷ "profile.persist"
    ∷ "daemon.startup" ∷ "daemon.shutdown" ∷ "outbound.select" ∷ "outbound.test_latency"
    ∷ "netwatch.event" ∷ "log.emit" ∷ "update.check" ∷ "config.validate" ∷ "config.transform"
    ∷ "runtime.command" ∷ "runtime.observe" ∷ "storage.lookup" ∷ "telemetry.observe" ∷ []

pub data SlotPhase : Type 0 where
  before exec after : SlotPhase

abbrev pub phase_order : List SlotPhase
phase_order = before ∷ exec ∷ after ∷ []

abbrev pub phase_str : SlotPhase → String
phase_str before = "before"
phase_str exec = "exec"
phase_str after = "after"

abbrev pub phase_eq : SlotPhase → SlotPhase → Bool
phase_eq before before = true
phase_eq exec exec = true
phase_eq after after = true
phase_eq _ _ = false

pub data SlotPolicy : Type 0 where
  pipeline first_success single_owner broadcast best_effort : SlotPolicy

abbrev pub default_policy : SlotPolicy
default_policy = pipeline

abbrev pub policy_eq : SlotPolicy → SlotPolicy → Bool
policy_eq pipeline pipeline = true
policy_eq first_success first_success = true
policy_eq single_owner single_owner = true
policy_eq broadcast broadcast = true
policy_eq best_effort best_effort = true
policy_eq _ _ = false

pub record SlotContext {ℓ} (P : Type ℓ) : Type ℓ where
  pub slot : Slot
  pub phase : SlotPhase
  pub wire_version : ℕ
  pub invocation_id : String
  pub payload : P

abbrev pub default_wire_version : ℕ
default_wire_version = 1

unfoldable pub new_context {ℓ} : {P : Type ℓ} → Slot → SlotPhase → String → P → SlotContext P
new_context slot phase invocation_id payload = record {
  slot = slot;
  phase = phase;
  wire_version = default_wire_version;
  invocation_id = invocation_id;
  payload = payload;
}

pub data SlotOutcome {ℓ} (P : Type ℓ) : Type ℓ where
  unchanged : SlotOutcome P
  continue : P → SlotOutcome P
  halt : P → SlotOutcome P
  error : String → SlotOutcome P
  unhandled : SlotOutcome P

unfoldable pub map_payload {ℓ κ} :
    {P : Type ℓ} {Q : Type κ} → (P → Q) → SlotOutcome P → SlotOutcome Q
map_payload f unchanged = unchanged
map_payload f (continue p) = continue (f p)
map_payload f (halt p) = halt (f p)
map_payload f (error message) = error message
map_payload f unhandled = unhandled

pub record SlotBinding : Type 0 where
  pub name : Slot
  pub phases : List SlotPhase
  pub policy : SlotPolicy

unfoldable pub new_binding : Slot → List SlotPhase → SlotPolicy → HostResult SlotBinding
new_binding name phases policy =
    reject_if (is_empty phases) (invalid_input "slot binding must include at least one phase")
    >> ok (record { name = name; phases = phases; policy = policy })

unfoldable pub contains_phase : SlotBinding → SlotPhase → Bool
contains_phase b phase = any (λ p. phase_eq p phase) b.phases

abbrev pub slot_eq : Slot → Slot → Bool
slot_eq a b = str_eq a.name b.name

abbrev phases_eq : List SlotPhase → List SlotPhase → Bool
phases_eq [] [] = true
phases_eq (p ∷ ps) (q ∷ qs) = phase_eq p q && phases_eq ps qs
phases_eq _ _ = false

-- the derived `==` of `SlotBinding`
unfoldable pub binding_eq : SlotBinding → SlotBinding → Bool
binding_eq a b = slot_eq a.name b.name && phases_eq a.phases b.phases && policy_eq a.policy b.policy
