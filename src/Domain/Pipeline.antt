-- ===== src/Domain/Pipeline.antt =====
-- The hook pipeline of crates/domain/src/pipeline.rs, for an operation from `I` to `O`.
--
-- Handlers and hooks are functions of a world `W` that their calls may change. An argument `&mut`
-- is passed in and comes back, also with an error; a clone is the value itself. Forwarding through
-- `Arc` is the hook itself.

pub mod Wraps
pub mod Calls
pub mod Course
use pingling.Prelude.{
  String, List, [], ◌∷◌, ◌++◌, Option, none, some, Bool, ◌&&◌, map, is_empty, Result, ok, err,
  reverse,
}
use pingling.Domain.Error.{VpnError}

abbrev pub Handler : Type 0 → Type 0 → Type 0 → Type 0
Handler I O W = I → W → Result O VpnError × W

pub record Hook (I O W : Type 0) : Type 0 where
  pub name : String
  pub before : I → W → Result (Unit {0}) VpnError × I × W
  pub after : I → O → W → Result (Unit {0}) VpnError × O × W
  pub on_error : I → VpnError → W → W

pub record WrapHook (I O W : Type 0) : Type 0 where
  pub name : String
  pub handle : I → Handler I O W → W → Result O VpnError × W

pub record Pipeline (I O W : Type 0) : Type 0 where
  pub handler : Handler I O W
  pub hooks : List (Hook I O W)
  pub wraps : List (WrapHook I O W)

module _ {I O W : Type 0} where
  unfoldable pub new_pipeline : Handler I O W → Pipeline I O W
  new_pipeline handler = record { handler = handler; hooks = []; wraps = [] }

  unfoldable pub push_hook : Pipeline I O W → Hook I O W → Pipeline I O W
  push_hook p hook = record p { hooks = p.hooks ++ hook ∷ [] }

  unfoldable pub push_wrap : Pipeline I O W → WrapHook I O W → Pipeline I O W
  push_wrap p wrap = record p { wraps = p.wraps ++ wrap ∷ [] }

  unfoldable pub hook_names : Pipeline I O W → List String
  hook_names p = map (λ h. h.name) p.hooks

  unfoldable pub wrap_names : Pipeline I O W → List String
  wrap_names p = map (λ w. w.name) p.wraps

  unfoldable pub is_empty_pipeline : Pipeline I O W → Bool
  is_empty_pipeline p = is_empty p.hooks && is_empty p.wraps

  -- `for h in self.hooks.iter() { h.on_error(&input, &e); }`
  unfoldable pub run_on_error : List (Hook I O W) → I → VpnError → W → W
  run_on_error [] input e world = world
  run_on_error (h ∷ hs) input e world = run_on_error hs input e (h.on_error input e world)

  -- Phase 1 over the hooks that are left; `all` are the hooks that an error is told to.
  unfoldable pub run_before : List (Hook I O W) → List (Hook I O W) → I → W → Result I VpnError × W
  run_before all [] input world = (ok input, world)
  run_before all (h ∷ hs) input world =
      let (checked, input', world') = h.before input world in
      let rest = run_before all hs input' world' in
      elim checked [ ok u ↦ rest | err e ↦ (err e, run_on_error all input' e world') ]

  -- Phase 3a over the hooks that are left, the last registered first.
  unfoldable pub run_after :
      List (Hook I O W) → List (Hook I O W) → I → O → W → Result O VpnError × W
  run_after all [] snap output world = (ok output, world)
  run_after all (h ∷ hs) snap output world =
      let (checked, output', world') = h.after snap output world in
      let rest = run_after all hs snap output' world' in
      elim checked [ ok u ↦ rest | err e ↦ (err e, run_on_error all snap e world') ]

  -- `match self.handler.handle(input)`
  unfoldable pub after_handler :
      List (Hook I O W) → I → Result O VpnError → W → Result O VpnError × W
  after_handler hooks snap (ok output) world = run_after hooks (reverse hooks) snap output world
  after_handler hooks snap (err e) world = (err e, run_on_error hooks snap e world)

  -- What follows phase 1.
  unfoldable pub run_handler :
      Handler I O W → List (Hook I O W) → Result I VpnError → W → Result O VpnError × W
  run_handler handler hooks (err e) world = (err e, world)
  run_handler handler hooks (ok input) world =
      let (result, world') = handler input world in after_handler hooks input result world'

  unfoldable pub hook_runner : Handler I O W → List (Hook I O W) → Handler I O W
  hook_runner handler hooks input world =
      let (started, world') = run_before hooks hooks input world in
      run_handler handler hooks started world'

  unfoldable pub wrap_cursor : List (WrapHook I O W) → Handler I O W → Handler I O W
  wrap_cursor [] inner input world = inner input world
  wrap_cursor (head ∷ tail) inner input world = head.handle input (wrap_cursor tail inner) world

  unfoldable pub execute : Pipeline I O W → Handler I O W
  execute p = wrap_cursor p.wraps (hook_runner p.handler p.hooks)

-- A hook of closures; a missing one does nothing.
pub record FnHook (I O W : Type 0) : Type 0 where
  pub label : String
  pub before_fn : Option (I → W → Result (Unit {0}) VpnError × I × W)
  pub after_fn : Option (I → O → W → Result (Unit {0}) VpnError × O × W)
  pub on_error_fn : Option (I → VpnError → W → W)

module _ {I O W : Type 0} where
  unfoldable pub new_fn_hook : String → FnHook I O W
  new_fn_hook label = record {
    label = label;
    before_fn = none;
    after_fn = none;
    on_error_fn = none;
  }

  unfoldable pub fn_hook : FnHook I O W → Hook I O W
  fn_hook f = record {
    name = f.label;
    before = elim f.before_fn [ none ↦ λ input world. (ok tt, input, world) | some g ↦ g ];
    after = elim f.after_fn [ none ↦ λ input output world. (ok tt, output, world) | some g ↦ g ];
    on_error = elim f.on_error_fn [ none ↦ λ input e world. world | some g ↦ g ];
  }

  -- `FnWrapHook`: a closure in the place of `handle`.
  unfoldable pub fn_wrap_hook :
      String → (I → Handler I O W → W → Result O VpnError × W) → WrapHook I O W
  fn_wrap_hook label f = record { name = label; handle = f }
