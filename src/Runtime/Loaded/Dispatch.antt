-- ===== src/Runtime/Loaded/Dispatch.antt =====
-- Which plugin answers a method call.
use pingling.Prelude.{
  String, ◌≡◌, refl, sym, ap, subst, inl, inr, List, [], ◌∷◌, ◌++◌, Option, none, some, In,
  Option-cases,
}
use pingling.Prelude.BTreeMap.{get}
use pingling.Contract.Failure.{HostResult}
use pingling.Contract.Package.{Json}
use pingling.Contract.Manifest.{PluginManifest}
use pingling.Contract.Registry.{MethodBinding, method_bindings}
use pingling.Contract.Registry.Methods.{In-method_bindings}
use pingling.Runtime.Plugin.{Plugin}
use pingling.Runtime.Loaded.{
  LoadedPluginRegistry, empty_loaded, dispatch_method_bindings, dispatch_method,
}
use pingling.Runtime.Loaded.Register.{register_all, register_all_empty-IsLoaded}

module _ {V W : Type 0} (r : LoadedPluginRegistry V W) (method : String) (params : V) where
  -- The plugins of the bindings are called one after the other and answer nothing.
  abbrev pub Decline : List MethodBinding → W → W → Type 0
  Decline [] world after = world ≡ after
  Decline (b ∷ bs) world after =
      (plugin : Plugin V W) × (get r.plugins b.plugin_id ≡ some plugin)
      × ((plugin.handle_ipc method params world).0 ≡ none)
      × Decline bs (plugin.handle_ipc method params world).1 after

  pub data Answers (bs : List MethodBinding) (world : W) (reply : Option (HostResult V)) (after : W)
      : Type 0 where
    nobody : Decline bs world after → reply ≡ none → Answers bs world reply after
    answered :
        (early : List MethodBinding) (b : MethodBinding) (rest : List MethodBinding)
        (plugin : Plugin V W) (reached : W) (result : HostResult V)
        → bs ≡ early ++ b ∷ rest
        → Decline early world reached
        → get r.plugins b.plugin_id ≡ some plugin
        → plugin.handle_ipc method params reached ≡ (some result, after)
        → reply ≡ some result
        → Answers bs world reply after

  Answers-first :
      (b : MethodBinding) (bs : List MethodBinding) (plugin : Plugin V W) (world : W)
      (reply : Option (HostResult V)) (after : W)
      → get r.plugins b.plugin_id ≡ some plugin
      → (plugin.handle_ipc method params world).0 ≡ none
      → Answers bs (plugin.handle_ipc method params world).1 reply after
      → Answers (b ∷ bs) world reply after
  Answers-first b bs plugin world reply after g e (nobody d n) = nobody (plugin, g, e, d) n
  Answers-first b bs plugin world reply after g e
        (answered early c rest p reached result s d f h n) =
      answered (b ∷ early) c rest p reached result (ap (λ xs. b ∷ xs) s) (plugin, g, e, d) f h n

  pub dispatch_bindings-Answers :
      (bs : List MethodBinding) (world : W)
      → ((b : MethodBinding)
          → In b bs
          → (plugin : Plugin V W) × (get r.plugins b.plugin_id ≡ some plugin))
      → Answers bs world
          (dispatch_method_bindings r bs method params world).0
          (dispatch_method_bindings r bs method params world).1
  unfolding dispatch_method_bindings
  dispatch_bindings-Answers [] world loaded = nobody refl refl
  dispatch_bindings-Answers (b ∷ bs) world loaded =
      let (plugin, found) = loaded b (inl refl) in
      elim (Option-cases (plugin.handle_ipc method params world).0) [
        | inl declined ↦
            rw (found, dispatch_method_bindings, declined)
              (Answers-first b bs plugin world _ _ found declined (
                dispatch_bindings-Answers bs (plugin.handle_ipc method params world).1
                  (λ c i. loaded c (inr i))))
        | inr (result, replied) ↦
            rw (found, dispatch_method_bindings, replied)
              (answered [] b bs plugin world result refl refl found
                (ap (λ reply. (reply, (plugin.handle_ipc method params world).1)) replied) refl)
      ]

module _ {V W : Type 0} ⦃j : Json V⦄ where
  -- Whatever plugins a host has loaded, a method call goes to the bound plugins in the order of
  -- `method_bindings`: the first that answers gives the reply and ends the search, those before it
  -- were called and declined, and without an answer all of them were. The call never fails because
  -- a bound plugin is not loaded.
  pub dispatch_method-Answers :
      (plugins : List (PluginManifest V × Plugin V W)) (method : String) (params : V) (world : W)
      → Answers
          (register_all empty_loaded plugins)
          method
          params
          (method_bindings (register_all empty_loaded plugins).registry method)
          world
          (dispatch_method (register_all empty_loaded plugins) method params world).0
          (dispatch_method (register_all empty_loaded plugins) method params world).1
  unfolding dispatch_method
  dispatch_method-Answers plugins method params world =
      let r = register_all empty_loaded plugins in
      dispatch_bindings-Answers r method params (method_bindings r.registry method) world (λ b i.
        let o = (In-method_bindings method r.registry b).0 i in
        subst (λ (x : MethodBinding). (p : Plugin V W) × (get r.plugins x.plugin_id ≡ some p))
          (sym o.made) (register_all_empty-IsLoaded plugins o.manifest o.registered))
