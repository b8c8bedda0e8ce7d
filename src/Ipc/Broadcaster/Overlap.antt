-- ===== src/Ipc/Broadcaster/Overlap.antt =====
-- A publication whose halves fall between the halves of a subscription.
use mathlib.Core.List.{append_assoc}
use pingling.Prelude.{
  ℕ, ◌≡◌, refl, sym, ap, subst, ◌∙◌, List, [], ◌∷◌, ◌++◌, true, In, inl, In-append_right,
}
use pingling.Ipc.Broadcaster.{
  Subscriber, EventBroadcaster, new_broadcaster, replay, register, remember, send_all, publish,
}
use pingling.Ipc.Broadcaster.History.{
  last, publish_all, publish_all-In, retain_sent-In, history-last,
}

module _ {N : Type 0} where
  publish_all-append :
      (b : EventBroadcaster N) (ms ns : List N)
      → publish_all b (ms ++ ns) ≡ publish_all (publish_all b ms) ns
  publish_all-append b [] ns = refl
  publish_all-append b (m ∷ ms) ns = publish_all-append (publish b m) ms ns

  abbrev pub receiving : ℕ → List N → Subscriber N
  receiving id log = record { id = id; inbox = log; open_end = true }

  -- A subscriber in the list goes on to receive what is published later.
  registered-In :
      (b : EventBroadcaster N) (id : ℕ) (log past : List N) (after : List N)
      → log ≡ past
      → In (receiving id log) b.subs
      → In (receiving id (past ++ after)) (publish_all b after).subs
  registered-In b id log past after same i =
      publish_all-In b after (receiving id past) refl
        (subst (λ l. In (receiving id l) b.subs) same i)

  remember-last :
      (before : List N) (n : N)
      → (remember (publish_all new_broadcaster before) n).history ≡ last 128 (before ++ n ∷ [])
  unfolding publish remember send_all
  remember-last before n =
      ap (λ b. b.history) (sym (publish_all-append new_broadcaster before (n ∷ [])))
      ∙ history-last (before ++ n ∷ [])

  -- Two schedules of a subscription and a publication of `n`, on a broadcaster that no other client
  -- has subscribed to. When the publication does both its halves between the replay and the
  -- registration of the client, the client never gets `n`. When the publication remembers `n`, then
  -- the client is replayed and registered, and then the publication sends `n`, the client gets it
  -- twice. What is published before and after both calls arrives in order in either schedule.
  pub overlap-In :
      (before after : List N) (n : N) (id : ℕ)
      → In
          (receiving id (last 128 before ++ after))
          (publish_all
            (register
              (publish (publish_all new_broadcaster before) n)
              (replay (publish_all new_broadcaster before) id))
            after).subs
        × In
            (receiving id (last 128 (before ++ n ∷ []) ++ n ∷ after))
            (publish_all
              (send_all
                (register
                  (remember (publish_all new_broadcaster before) n)
                  (replay (remember (publish_all new_broadcaster before) n) id))
                n)
              after).subs
  unfolding replay register publish send_all remember
  overlap-In before after n id =
      let b = publish_all new_broadcaster before in
      (
        registered-In (register (publish b n) (replay b id)) id b.history (last 128 before) after
            (history-last before) (In-append_right _ _ (replay b id ∷ []) (inl refl)),
        subst
            (λ log.
              In (receiving id log)
                (publish_all (send_all (register (remember b n) (replay (remember b n) id)) n)
                  after).subs)
            (append_assoc (last 128 (before ++ n ∷ [])) (n ∷ []) after)
            (registered-In (send_all (register (remember b n) (replay (remember b n) id)) n) id
              ((remember b n).history ++ n ∷ []) (last 128 (before ++ n ∷ []) ++ n ∷ []) after
              (ap (λ log. log ++ n ∷ []) (remember-last before n))
              (retain_sent-In n (receiving id (remember b n).history)
                (b.subs ++ receiving id (remember b n).history ∷ []) refl
                (In-append_right _ b.subs (receiving id (remember b n).history ∷ []) (inl refl)))),
      )
