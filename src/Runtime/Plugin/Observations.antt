-- ===== src/Runtime/Plugin/Observations.antt =====
-- What the observer is told of one plugin.
use pingling.Prelude.{
  String, ◌≡◌, ◌≢◌, refl, ◌⊎◌, inl, inr, List, [], ◌∷◌, ◌++◌, false, Option, none, some, ok, err,
  arith, Bool-cases, Result-cases,
}
use pingling.Contract.Failure.{HostResult}
use pingling.Contract.Slot.{SlotOutcome, unchanged, continue, halt, error, unhandled}
use pingling.Runtime.Plugin.{
  Plugin, Serde, Env, Call, apply_outcome, handle_outcome, handle_reply, call_plugin,
  run_plugin_phase, is_best_effort, context, method_name, enter, SlotObservation, observation,
  failure_event,
}

failure_event-ne-enter : (c : Call) → failure_event c ≢ enter
failure_event-ne-enter c e = ground arith

-- One closing event of the same plugin is added.
pub record Emits {V : Type 0} (c : Call) (before after : List (SlotObservation V)) : Type 0 where
  pub closing : SlotObservation V
  pub added : after ≡ before ++ closing ∷ []
  pub own : closing.plugin_id ≡ c.plugin_id
  pub closes : closing.event ≢ enter

module _ {V P : Type 0} (s : Serde V P) (c : Call) where
  -- The reply cannot be parsed, and the policy does not forgive it.
  abbrev pub IsMalformed : Option (HostResult V) → Type 0
  IsMalformed none = ⊥
  IsMalformed (some (err e)) = ⊥
  IsMalformed (some (ok raw)) =
      (e : String) × (s.outcome_from_value raw ≡ err e) × (is_best_effort c ≡ false)

module _ {V P W : Type 0} (s : Serde V P) (c : Call) (payload : P) where
  apply_outcome-Emits :
      (outcome : SlotOutcome P) (original : V) (env : Env V W)
      → Emits c env.observed (apply_outcome s c payload outcome original env).1.observed
  unfolding apply_outcome
  apply_outcome-Emits unhandled v env = record {
    closing = _;
    added = refl;
    own = refl;
    closes = λ e. cc;
  }
  apply_outcome-Emits unchanged v env = record {
    closing = _;
    added = refl;
    own = refl;
    closes = λ e. cc;
  }
  apply_outcome-Emits (continue p) v env = record {
    closing = _;
    added = refl;
    own = refl;
    closes = λ e. cc;
  }
  apply_outcome-Emits (halt p) v env = record {
    closing = _;
    added = refl;
    own = refl;
    closes = λ e. cc;
  }
  apply_outcome-Emits (error m) v env = record {
    closing = _;
    added = refl;
    own = refl;
    closes = failure_event-ne-enter c;
  }

  handle_reply-Emits :
      (reply : Option (HostResult V)) (original : V) (env : Env V W)
      → ((IsMalformed s c reply → ⊥)
          × Emits c env.observed (handle_reply s c payload reply original env).1.observed)
        ⊎ (IsMalformed s c reply
            × ((handle_reply s c payload reply original env).1.observed ≡ env.observed))
  unfolding handle_reply handle_outcome
  handle_reply-Emits none v env =
      inl (λ m. m, record { closing = _; added = refl; own = refl; closes = λ e. cc })
  handle_reply-Emits (some (err e)) v env =
      inl (
        λ m. m,
        record { closing = _; added = refl; own = refl; closes = failure_event-ne-enter c },
      )
  handle_reply-Emits (some (ok raw)) v env = elim (Result-cases (s.outcome_from_value raw)) [
    | inl (o, e) ↦
        inl (
          λ m. absurd (ground (arith, e, m.1)),
          rw (e, handle_outcome) (apply_outcome-Emits o v env),
        )
    | inr (m, e) ↦ elim (Bool-cases (is_best_effort c)) [
      | inl best ↦ inl (
        λ m'. absurd (ground (arith, best, m'.2)),
        rw (e, handle_outcome, best)
            (record { closing = _; added = refl; own = refl; closes = λ x. cc }),
      )
      | inr strict ↦ inr ((m, e, strict), rw (e, handle_outcome, strict))
    ]
  ]

module _ {V P W : Type 0} (s : Serde V P) (c : Call) (plugin : Plugin V W) (payload : P) where
  abbrev entered : V → SlotObservation V
  entered v = observation c enter (s.payload_field v) none

  -- Once its context is serialised, the observer is told that the plugin is entered. When the reply
  -- cannot be parsed under a policy other than best effort, it is told of nothing after that; for
  -- every other reply, it is told of exactly one closing event of that plugin.
  pub run_plugin_phase-Emits :
      (env : Env V W) (v : V)
      → s.context_to_value (context s c payload) ≡ ok v
      → ((IsMalformed s c (plugin.handle_ipc (method_name c) v env.world).0 → ⊥)
          × Emits c
              (env.observed ++ entered v ∷ [])
              (run_plugin_phase s c plugin payload env).1.observed)
        ⊎ (IsMalformed s c (plugin.handle_ipc (method_name c) v env.world).0
            × ((run_plugin_phase s c plugin payload env).1.observed
                ≡ env.observed ++ entered v ∷ []))
  unfolding run_plugin_phase call_plugin
  run_plugin_phase-Emits env v e = rw (e, run_plugin_phase) (handle_reply-Emits s c payload _ _ _)
