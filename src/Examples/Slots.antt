-- ===== src/Examples/Slots.antt =====
-- The slot runner of the domain layer, and the names of outbounds.
use pingling.Prelude.{◌≡◌, refl, ℕ, String, [], some, ok, err}
use pingling.Prelude.Text.{chars_all}
use pingling.Contract.Token.{validate_token}
use pingling.Contract.Slot.{new_slot, exec}
use pingling.Domain.Error.{to_string, unknown, cancelled}
use pingling.Domain.Outbound.{transport_str, transport_from_str}
use pingling.Domain.Outbound.Names.{transport_from_str_again}
use pingling.Domain.PluginSlot.{Plugin, SlotEnv, run_slot_phase_observed}
use pingling.Domain.PluginSlot.Errors.{run_slot_phase-Fails}
use pingling.Examples.Samples.{serde, config_slot}

transport_from_str_again_example :
    transport_from_str (transport_str (transport_from_str "h2")) ≡ transport_from_str "h2"
transport_from_str_again_example = transport_from_str_again "h2"

abbrev cancels : Plugin String ℕ
cancels = record { name = "c"; handle_ipc = λ method params world. (some (err cancelled), world) }

abbrev no_events : SlotEnv String ℕ
no_events = record { world = 0; told = [] }

config_slot-valid : new_slot "config.process" ≡ ok config_slot
unfolding new_slot validate_token chars_all
config_slot-valid = refl

run_slot_phase-Fails_example :
    (run_slot_phase_observed serde cancels "config.process" "exec" 1 "inv" 5 no_events).0
    ≡ err (unknown (to_string cancelled))
run_slot_phase-Fails_example =
    run_slot_phase-Fails serde cancels "config.process" 1 "inv" 5 no_events config_slot exec
      cancelled config_slot-valid (record { value = "context"; serialised = refl; replied = refl })
