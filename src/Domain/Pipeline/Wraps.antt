-- ===== src/Domain/Pipeline/Wraps.antt =====
-- How the wraps of a pipeline nest, and hooks that do nothing.
use mathlib.Core.List.{reverse-append}
use pingling.Prelude.{
  String, ◌≡◌, refl, ap, ◌∙◌, fun_ext, List, [], ◌∷◌, ◌++◌, Result, ok, err, reverse, arith,
  Result-cases, inl, inr,
}
use pingling.Domain.Error.{VpnError}
use pingling.Domain.Pipeline.{
  Handler, Hook, WrapHook, Pipeline, push_hook, push_wrap, run_on_error, run_before, run_after,
  run_handler, after_handler, hook_runner, wrap_cursor, execute, fn_hook, new_fn_hook,
}

module _ {I O W : Type 0} where
  wrap_cursor-append :
      (ws vs : List (WrapHook I O W)) (inner : Handler I O W)
      → wrap_cursor (ws ++ vs) inner ≡ wrap_cursor ws (wrap_cursor vs inner)
  unfolding wrap_cursor
  wrap_cursor-append [] vs inner = fun_ext (λ input. fun_ext (λ world. refl))
  wrap_cursor-append (w ∷ ws) vs inner = fun_ext (λ input.
      fun_ext (λ world. ap (λ next. w.handle input next world) (wrap_cursor-append ws vs inner)))

  wrap_cursor-nil : (inner : Handler I O W) → wrap_cursor [] inner ≡ inner
  unfolding wrap_cursor
  wrap_cursor-nil inner = fun_ext (λ input. fun_ext (λ world. refl))

  wrap_cursor-last :
      (wrap : WrapHook I O W) (inner : Handler I O W)
      → wrap_cursor (wrap ∷ []) inner ≡ (λ input world. wrap.handle input inner world)
  unfolding wrap_cursor
  wrap_cursor-last wrap inner = fun_ext (λ input.
      fun_ext (λ world. ap (λ next. wrap.handle input next world) (wrap_cursor-nil inner)))

  -- The wrap that is registered last is the innermost: it gets the handler with its hooks as its
  -- `next`, and the earlier wraps get it as theirs.
  pub execute-push_wrap :
      (p : Pipeline I O W) (wrap : WrapHook I O W)
      → execute (push_wrap p wrap)
        ≡ wrap_cursor p.wraps
            (λ input world. wrap.handle input (hook_runner p.handler p.hooks) world)
  unfolding execute push_wrap
  execute-push_wrap p wrap =
      wrap_cursor-append p.wraps (wrap ∷ []) (hook_runner p.handler p.hooks)
      ∙ ap (wrap_cursor p.wraps) (wrap_cursor-last wrap (hook_runner p.handler p.hooks))

  module _ (label : String) where
    run_on_error-neutral :
        (hs : List (Hook I O W)) (input : I) (e : VpnError) (world : W)
        → run_on_error (hs ++ fn_hook (new_fn_hook label) ∷ []) input e world
          ≡ run_on_error hs input e world
    unfolding run_on_error fn_hook new_fn_hook
    run_on_error-neutral [] input e world = refl
    run_on_error-neutral (h ∷ hs) input e world =
        run_on_error-neutral hs input e (h.on_error input e world)

    run_before-neutral :
        (all hs : List (Hook I O W)) (input : I) (world : W)
        → run_before
            (all ++ fn_hook (new_fn_hook label) ∷ [])
            (hs ++ fn_hook (new_fn_hook label) ∷ [])
            input
            world
          ≡ run_before all hs input world
    unfolding run_before fn_hook new_fn_hook
    run_before-neutral all [] input world = refl
    run_before-neutral all (h ∷ hs) input world =
        let (checked, input', world') = h.before input world in
        elim (Result-cases checked) [
          | inl (u, c) ↦ rw (c, run_before) (run_before-neutral all hs input' world')
          | inr (e, c) ↦
              rw (c, run_before) (ap (λ w. (err e, w)) (run_on_error-neutral all input' e world'))
        ]

    run_after-neutral :
        (all hs : List (Hook I O W)) (snap : I) (output : O) (world : W)
        → run_after (all ++ fn_hook (new_fn_hook label) ∷ []) hs snap output world
          ≡ run_after all hs snap output world
    unfolding run_after
    run_after-neutral all [] snap output world = refl
    run_after-neutral all (h ∷ hs) snap output world =
        let (checked, output', world') = h.after snap output world in
        elim (Result-cases checked) [
          | inl (u, c) ↦ ground (arith, c, run_after-neutral all hs snap output' world')
          | inr (e, c) ↦ ground (arith, c, run_on_error-neutral all snap e world')
        ]

    after_handler-neutral :
        (hooks : List (Hook I O W)) (snap : I) (result : Result O VpnError) (world : W)
        → after_handler (hooks ++ fn_hook (new_fn_hook label) ∷ []) snap result world
          ≡ after_handler hooks snap result world
    unfolding after_handler
    after_handler-neutral hooks snap (err e) world =
        rw (run_on_error-neutral hooks snap e world) refl
    after_handler-neutral hooks snap (ok output) world =
        rw (reverse-append hooks (fn_hook (new_fn_hook label) ∷ [])) (
          unfold run_after in
          unfold fn_hook in
          unfold new_fn_hook in run_after-neutral hooks (reverse hooks) snap output world)

    run_handler-neutral :
        (handler : Handler I O W) (hooks : List (Hook I O W)) (started : Result I VpnError)
        (world : W)
        → run_handler handler (hooks ++ fn_hook (new_fn_hook label) ∷ []) started world
          ≡ run_handler handler hooks started world
    unfolding run_handler
    run_handler-neutral handler hooks (err e) world = refl
    run_handler-neutral handler hooks (ok input) world =
        after_handler-neutral hooks input (handler input world).0 (handler input world).1

    hook_runner-neutral :
        (handler : Handler I O W) (hooks : List (Hook I O W))
        → hook_runner handler (hooks ++ fn_hook (new_fn_hook label) ∷ [])
          ≡ hook_runner handler hooks
    unfolding hook_runner
    hook_runner-neutral handler hooks = fun_ext (λ input. fun_ext (λ world.
        rw (run_before-neutral hooks hooks input world) (
          run_handler-neutral handler hooks (run_before hooks hooks input world).0
            (run_before hooks hooks input world).1)))

    -- A hook without closures changes nothing when it is registered after the others.
    pub execute-push_fn_hook :
        (p : Pipeline I O W) → execute (push_hook p (fn_hook (new_fn_hook label))) ≡ execute p
    unfolding execute push_hook
    execute-push_fn_hook p = ap (wrap_cursor p.wraps) (hook_runner-neutral p.handler p.hooks)
