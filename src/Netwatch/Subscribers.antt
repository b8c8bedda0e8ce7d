-- ===== src/Netwatch/Subscribers.antt =====
-- What a subscriber of the watcher knows of the interfaces.
use mathlib.Core.List.{append_assoc, append-nil}
use pingling.Prelude.{
  ℕ, String, List, [], ◌∷◌, ◌++◌, map, flat_map, ◌≡◌, refl, ap, subst, ◌∙◌, fun_ext, Bool-cases,
  true, ok, In, inl, inr, In-append_right,
}
use pingling.Netwatch.{
  UpdateEvent, Update, events_from_update, Subscriber, NetwatcherBackend, send, fan_out, on_update,
  subscribe, ensure_started,
}
use pingling.Netwatch.Mirror.{
  Mirror, apply_all, snapshots, IsDiff, apply_all-append, events_from_update-apply_all,
}

-- Updates each of which is the difference from the interfaces after the one before.
pub data Chained : Mirror → List Update → Mirror → Type 0 where
  stays : {m : Mirror} → Chained m [] m
  goes_on :
      {m last : Mirror} {u : Update} {us : List Update}
      → IsDiff m u
      → Chained (snapshots u.interfaces) us last
      → Chained m (u ∷ us) last

abbrev pub receiving : List UpdateEvent → Subscriber
receiving inbox = record { inbox = inbox; is_open = true }

module _ (u32_text : ℕ → String) where
  abbrev pub events_of : List Update → List UpdateEvent
  events_of = flat_map (events_from_update u32_text)

  abbrev pub run_updates : List Update → NetwatcherBackend → NetwatcherBackend
  run_updates [] b = b
  run_updates (u ∷ us) b = run_updates us (on_update u32_text b u)

  events_of-apply_all :
      {us : List Update} {m last : Mirror}
      → Chained m us last
      → (i : ℕ) → apply_all (events_of us) m i ≡ last i
  events_of-apply_all stays i = refl
  events_of-apply_all (goes_on {m = m} {u = u} {us = us} d rest) i =
      ap (λ mirror. mirror i)
        (apply_all-append (events_from_update u32_text u) (events_of us) m
          ∙ ap (apply_all (events_of us))
              (fun_ext (λ j. events_from_update-apply_all u32_text u m j d)))
      ∙ events_of-apply_all rest i

  send-In :
      (event : UpdateEvent) (inbox : List UpdateEvent) (subs : List Subscriber)
      → In (receiving inbox) subs
      → In (receiving (inbox ++ event ∷ [])) (map (send event) subs)
  unfolding send
  send-In event inbox [] i = absurd i
  send-In event inbox (s ∷ subs) (inl e) = inl (ap (send event) e)
  send-In event inbox (s ∷ subs) (inr i) = inr (send-In event inbox subs i)

  fan_out-In :
      (events inbox : List UpdateEvent) (subs : List Subscriber)
      → In (receiving inbox) subs
      → In (receiving (inbox ++ events)) (fan_out events subs)
  unfolding fan_out
  fan_out-In [] inbox subs i = rw (append-nil inbox) i
  fan_out-In (e ∷ events) inbox subs i =
      subst (λ l. In (receiving l) (fan_out events (map (send e) subs)))
        (append_assoc inbox (e ∷ []) events)
        (fan_out-In events (inbox ++ e ∷ []) (map (send e) subs) (send-In e inbox subs i))

  run_updates-In :
      (us : List Update) (inbox : List UpdateEvent) (b : NetwatcherBackend)
      → In (receiving inbox) b.subs
      → In (receiving (inbox ++ events_of us)) (run_updates us b).subs
  unfolding on_update
  run_updates-In [] inbox b i = rw (append-nil inbox) i
  run_updates-In (u ∷ us) inbox b i =
      let events = events_from_update u32_text u in
      subst (λ l. In (receiving l) (run_updates us (on_update u32_text b u)).subs)
        (append_assoc inbox events (events_of us))
        (run_updates-In us (inbox ++ events) (on_update u32_text b u)
          (fan_out-In events inbox b.subs i))

  new-In : (b : NetwatcherBackend) → In (receiving []) (subscribe (ok tt) b).1.subs
  unfolding subscribe ensure_started
  new-In b = elim (Bool-cases b.started) [
    | inl e ↦ rw (e, subscribe, ensure_started) (In-append_right _ _ (receiving [] ∷ []) (inl refl))
    | inr e ↦ rw (e, subscribe, ensure_started) (In-append_right _ _ (receiving [] ∷ []) (inl refl))
  ]

  -- A subscriber that has got enough to know the interfaces.
  pub record Knows (m last : Mirror) (subs : List Subscriber) : Type 0 where
    pub inbox : List UpdateEvent
    pub among : In (receiving inbox) subs
    pub mirrors : (i : ℕ) → apply_all inbox m i ≡ last i

  -- A client that subscribes when the watch can be started, and that applies the events it gets to the
  -- interfaces as they were then, knows the interfaces after any updates, whoever else has subscribed,
  -- when each update is the difference from the one before.
  pub subscribe-Knows :
      (b : NetwatcherBackend) (us : List Update) (m last : Mirror)
      → Chained m us last
      → Knows m last (run_updates us (subscribe (ok tt) b).1).subs
  subscribe-Knows b us m last c = record {
    inbox = events_of us;
    among = run_updates-In us [] (subscribe (ok tt) b).1 (new-In b);
    mirrors = events_of-apply_all c;
  }
