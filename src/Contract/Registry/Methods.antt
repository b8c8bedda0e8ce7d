-- ===== src/Contract/Registry/Methods.antt =====
-- Which plugins a method is bound to, and in which order.
use pingling.Prelude.{
  String, ◌≡◌, refl, inl, inr, ◌↔◌, List, [], ◌∷◌, In, some, arith, Option-cases,
}
use pingling.Prelude.Order.{IsOrder, IsOrder-by, IsOrder-then_with, str-IsOrder}
use pingling.Prelude.Int.{int-IsOrder}
use pingling.Prelude.Sort.{IsSorted, sort_by-IsSorted, In-sort_by}
use pingling.Contract.Token.Matching.{
  Matches, NotPreferred, method_matches-Matches, Matches-method_matches,
}
use pingling.Contract.Package.{Json}
use pingling.Contract.Manifest.{PluginManifest, dispatch_methods}
use pingling.Contract.Registry.{
  PluginRegistry, MethodBinding, manifests, best_pattern, matching_methods, method_bindings,
  method_binding_cmp,
}
use pingling.Contract.Registry.Patterns.{best_pattern_iff}
use pingling.Contract.Registry.Preferred.{pattern_cmp-NotPreferred}

method_binding_cmp-IsOrder : IsOrder method_binding_cmp
method_binding_cmp-IsOrder =
    IsOrder-then_with
      (IsOrder-then_with (IsOrder-by (λ b. b.priority) int-IsOrder)
        (IsOrder-by (λ b. b.plugin_id) str-IsOrder))
      (IsOrder-by (λ b. b.pattern_text) str-IsOrder)

module _ {V : Type 0} where
  abbrev pub to_method_binding : PluginManifest V → String → MethodBinding
  to_method_binding m p = record { plugin_id = m.id; priority = m.priority; pattern_text = p }

module _ {V : Type 0} ⦃j : Json V⦄ (method : String) where
  -- The pattern is one of the manifest, it matches the method, and no other pattern of the manifest
  -- that matches is preferred to it.
  pub record IsChosen (m : PluginManifest V) (p : String) : Type 0 where
    pub listed : In p (dispatch_methods m)
    pub matches : Matches p method
    pub most : (q : String) → In q (dispatch_methods m) → Matches q method → NotPreferred q p

  best_pattern-IsChosen :
      (m : PluginManifest V) (p : String) → (best_pattern m method ≡ some p) ↔ IsChosen m p
  best_pattern-IsChosen m p = (
    λ e.
        let b = (best_pattern_iff m method p).0 e in
        record {
          listed = b.listed;
          matches = method_matches-Matches p method b.matches;
          most = λ q i n.
              (pattern_cmp-NotPreferred q p).0 (b.most q i (Matches-method_matches q method n));
        },
    λ c. (best_pattern_iff m method p).1 (record {
      listed = c.listed;
      matches = Matches-method_matches p method c.matches;
      most = λ q i n.
          (pattern_cmp-NotPreferred q p).1 (c.most q i (method_matches-Matches q method n));
    }),
  )

  -- A registered plugin and its most specific pattern for the method.
  pub record MethodOrigin (ms : List (PluginManifest V)) (b : MethodBinding) : Type 0 where
    pub manifest : PluginManifest V
    pub registered : In manifest ms
    pub best : IsChosen manifest b.pattern_text
    pub made : b ≡ to_method_binding manifest b.pattern_text

  matching_methods_sound :
      (ms : List (PluginManifest V)) (b : MethodBinding)
      → In b (matching_methods ms method)
      → MethodOrigin ms b
  unfolding matching_methods
  matching_methods_sound [] b h = absurd h
  matching_methods_sound (m ∷ ms) b h = elim (Option-cases (best_pattern m method)) [
    | inl e ↦
        let o = matching_methods_sound ms b (rw (e, matching_methods) at h) in
        record {
          manifest = o.manifest;
          registered = inr o.registered;
          best = o.best;
          made = o.made;
        }
    | inr (p, e) ↦ elim (rw (e, matching_methods) at h) [
      | inl here ↦ record {
        manifest = m;
        registered = inl refl;
        best = rw here ((best_pattern-IsChosen m p).0 e);
        made = rw here refl;
      }
      | inr there ↦
          let o = matching_methods_sound ms b there in
          record {
            manifest = o.manifest;
            registered = inr o.registered;
            best = o.best;
            made = o.made;
          }
    ]
  ]

  matching_methods_complete :
      (ms : List (PluginManifest V)) (m : PluginManifest V) (p : String)
      → In m ms
      → best_pattern m method ≡ some p
      → In (to_method_binding m p) (matching_methods ms method)
  unfolding matching_methods
  matching_methods_complete [] m p i e = absurd i
  matching_methods_complete (n ∷ ns) m p (inl same) e = ground (arith, same, e)
  matching_methods_complete (n ∷ ns) m p (inr later) e =
      ground (arith, matching_methods_complete ns m p later e)

  -- `method_bindings` lists a binding exactly when some registered plugin has a pattern that matches
  -- the method, and the binding carries that plugin's id and priority and the preferred one of its
  -- patterns that match. A pattern matches itself, and `s.*` matches `s` and what begins with `s.`.
  -- An exact pattern is preferred to a prefix, then a longer one, then the later in the order of
  -- the texts.
  pub In-method_bindings :
      (r : PluginRegistry V) (b : MethodBinding)
      → In b (method_bindings r method) ↔ MethodOrigin (manifests r) b
  unfolding method_bindings
  In-method_bindings r b = (
    λ h. matching_methods_sound (manifests r) b ((In-sort_by method_binding_cmp b _).0 h),
    λ o. (In-sort_by method_binding_cmp b _).1 (
        rw o.made (
          matching_methods_complete (manifests r) o.manifest b.pattern_text o.registered
            ((best_pattern-IsChosen o.manifest b.pattern_text).1 o.best))),
  )

  -- `method_bindings` is in the order of the priorities, then of the plugin ids, then of the
  -- patterns.
  pub method_bindings-IsSorted :
      (r : PluginRegistry V) → IsSorted method_binding_cmp (method_bindings r method)
  unfolding method_bindings
  method_bindings-IsSorted r = sort_by-IsSorted method_binding_cmp method_binding_cmp-IsOrder _
