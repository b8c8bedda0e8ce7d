-- ===== src/Examples/Registry.antt =====
-- The registry at the sample manifests.
use pingling.Prelude.{String, ◌≡◌, ◌↔◌, refl, List, [], ◌∷◌, In, ok, err}
use pingling.Prelude.Text.{format}
use pingling.Contract.Failure.{invalid_input}
use pingling.Contract.Slot.{exec, SlotBinding, first_success}
use pingling.Contract.Manifest.{PluginManifest}
use pingling.Contract.Registry.{
  MethodBinding, method_bindings, manifests, PluginRegistry, register, empty_registry, bindings_for,
  to_binding,
}
use pingling.Contract.Registry.Methods.{to_method_binding, MethodOrigin, In-method_bindings}
use pingling.Contract.Registry.Bindings.{Origin, In-bindings_for, Ordered, bindings_for-Ordered}
use pingling.Contract.Registry.Invariant.{IsValid, register_all, register_all_empty-IsValid}
use pingling.Examples.Samples.{
  text_json, try_register, owner, rival, helper, config_slot, bind_exec,
}

abbrev three : List (PluginManifest String)
three = owner ∷ rival ∷ helper ∷ []

abbrev with_owner : PluginRegistry String
with_owner = record { plugins = ("b.owner", owner) ∷ [] }

abbrev two : PluginRegistry String
two = record { plugins = ("b.owner", owner) ∷ ("c.helper", helper) ∷ [] }

abbrev bind_helper : SlotBinding
bind_helper = bind_exec config_slot first_success

register-owner : register empty_registry owner ≡ ok with_owner
unfolding try_register
register-owner = refl

-- The rival wants a slot phase that has a single owner.
rival_refused :
    register with_owner rival
    ≡ err (invalid_input "slot auth.session phase exec already has owner b.owner")
unfolding try_register format
rival_refused = refl

register_all_empty-IsValid_example : IsValid (register_all empty_registry three)
register_all_empty-IsValid_example = register_all_empty-IsValid three

In-bindings_for_example :
    In (to_binding helper exec bind_helper) (bindings_for two config_slot exec)
    ↔ Origin two config_slot exec (to_binding helper exec bind_helper)
In-bindings_for_example = In-bindings_for two config_slot exec (to_binding helper exec bind_helper)

bindings_for-Ordered_example : Ordered (bindings_for two config_slot exec)
bindings_for-Ordered_example = bindings_for-Ordered two config_slot exec

abbrev identity_binding : MethodBinding
identity_binding = to_method_binding helper "identity.*"

In-method_bindings_example :
    In identity_binding (method_bindings two "identity.login")
    ↔ MethodOrigin "identity.login" (manifests two) identity_binding
In-method_bindings_example = In-method_bindings "identity.login" two identity_binding
