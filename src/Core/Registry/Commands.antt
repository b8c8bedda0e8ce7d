-- ===== src/Core/Registry/Commands.antt =====
-- A registry after any sequence of operations.
use pingling.Prelude.{String, inl, inr, List, [], ◌∷◌, ok, err, Result, Result-cases}
use pingling.Domain.Error.{VpnError}
use pingling.Core.Registry.{
  CoreDescriptor, FileSystem, CoreRegistry, new_registry, register, discover, switch,
  set_binary_path,
}
use pingling.Core.Registry.Active.{
  IsValid, new_registry-IsValid, register-IsValid, discover-IsValid, switch-IsValid,
  set_binary_path-IsValid,
}

-- What a host does to its registry; a command that looks at the file system has it as it then is.
pub data Command (C : Type 0) : Type 0 where
  do_register : CoreDescriptor → C → Command C
  do_discover : FileSystem → Command C
  do_switch : String → Command C
  do_set_binary_path : FileSystem → (core_type path : String) → Command C

module _ {C : Type 0} where
  -- A command that fails leaves the registry as it is.
  abbrev pub kept_or : CoreRegistry C → Result (CoreRegistry C) VpnError → CoreRegistry C
  kept_or r (ok r') = r'
  kept_or r (err e) = r

  abbrev pub step : CoreRegistry C → Command C → CoreRegistry C
  step r (do_register d c) = register r d c
  step r (do_discover fs) = discover fs r
  step r (do_switch t) = kept_or r (switch r t)
  step r (do_set_binary_path fs t path) = kept_or r (set_binary_path fs r t path)

  unfoldable pub run : CoreRegistry C → List (Command C) → CoreRegistry C
  run r [] = r
  run r (c ∷ cs) = run (step r c) cs

  step-IsValid : (r : CoreRegistry C) (c : Command C) → IsValid r → IsValid (step r c)
  step-IsValid r (do_register d c) v = register-IsValid r d c v
  step-IsValid r (do_discover fs) v = discover-IsValid fs r v
  step-IsValid r (do_switch t) v = elim (Result-cases (switch r t)) [
    | inl (r', e) ↦ rw e (switch-IsValid r r' t e v)
    | inr (f, e) ↦ rw e v
  ]
  step-IsValid r (do_set_binary_path fs t path) v =
      elim (Result-cases (set_binary_path fs r t path)) [
        | inl (r', e) ↦ rw e (set_binary_path-IsValid fs r r' t path e v)
        | inr (f, e) ↦ rw e v
      ]

  run-IsValid : (r : CoreRegistry C) (cs : List (Command C)) → IsValid r → IsValid (run r cs)
  unfolding run
  run-IsValid r [] v = v
  run-IsValid r (c ∷ cs) v = run-IsValid (step r c) cs (step-IsValid r c v)

  -- Whatever a host registers, discovers, switches to and links, in whatever order: the active
  -- type of its registry always has a core, every core has a descriptor, and there is no active
  -- type only while there are no cores.
  pub run_new-IsValid : (cs : List (Command C)) → IsValid (run new_registry cs)
  run_new-IsValid cs = run-IsValid new_registry cs new_registry-IsValid
