-- ===== src/Ipc/Broadcaster/Received.antt =====
-- What a subscriber receives among others, when the calls do not overlap.
use mathlib.Core.List.{append_assoc, append-nil}
use pingling.Prelude.{
  ℕ, ◌≡◌, refl, sym, ap, subst, ◌∙◌, List, [], ◌∷◌, ◌++◌, map, true, false, In, inl, inr, ◌==◌,
  if◌then◌else◌, In-append_left, In-append_right,
}
use pingling.Ipc.Broadcaster.{
  Subscriber, EventBroadcaster, new_broadcaster, trim, replay, register, subscribe, publish,
  remember, send_all,
}
use pingling.Ipc.Broadcaster.History.{last, trim-last, trim-append, retain_sent-In}

-- A call of the broadcaster, or a client that drops its receiver.
pub data Action (N : Type 0) : Type 0 where
  publishes : N → Action N
  subscribes hangs_up : ℕ → Action N

module _ {N : Type 0} where
  abbrev pub close : ℕ → Subscriber N → Subscriber N
  close id s = if s.id == id then record s { open_end = false } else s

  abbrev pub act : Action N → EventBroadcaster N → EventBroadcaster N
  act (publishes n) b = publish b n
  act (subscribes id) b = subscribe b id
  act (hangs_up id) b = record b { subs = map (close id) b.subs }

  abbrev pub act_all : List (Action N) → EventBroadcaster N → EventBroadcaster N
  act_all [] b = b
  act_all (a ∷ us) b = act_all us (act a b)

  -- The events that are published, in order.
  abbrev pub published : List (Action N) → List N
  published [] = []
  published (publishes n ∷ us) = n ∷ published us
  published (_ ∷ us) = published us

  -- The client `id` does not drop its receiver.
  abbrev pub StaysOpen : ℕ → List (Action N) → Type 0
  StaysOpen id [] = Unit
  StaysOpen id (hangs_up i ∷ us) = ((id == i) ≡ false) × StaysOpen id us
  StaysOpen id (publishes n ∷ us) = StaysOpen id us
  StaysOpen id (subscribes i ∷ us) = StaysOpen id us

  act_all-history :
      (us : List (Action N)) (b : EventBroadcaster N)
      → b.history ≡ trim b.history_limit b.history
      → (act_all us b).history ≡ trim b.history_limit (b.history ++ published us)
  unfolding publish remember send_all subscribe register
  act_all-history [] b h = rw (append-nil b.history) h
  act_all-history (subscribes id ∷ us) b h = act_all-history us (subscribe b id) h
  act_all-history (hangs_up id ∷ us) b h = act_all-history us (act (hangs_up id) b) h
  act_all-history (publishes n ∷ us) b h =
      act_all-history us (publish b n) (
        sym (
          ap (trim b.history_limit) (sym (append-nil _))
          ∙ trim-append b.history_limit (b.history ++ n ∷ []) []
          ∙ ap (trim b.history_limit) (append-nil _)))
      ∙ trim-append b.history_limit (b.history ++ n ∷ []) (published us)
      ∙ ap (trim b.history_limit) (append_assoc b.history (n ∷ []) (published us))

  close-In :
      (id : ℕ) (s : Subscriber N) (ss : List (Subscriber N))
      → (s.id == id) ≡ false
      → In s ss
      → In s (map (close id) ss)
  close-In id s [] other i = absurd i
  close-In id s (t ∷ ts) other (inl same) =
      subst (λ x. In s (close id x ∷ map (close id) ts)) same (rw other (inl refl))
  close-In id s (t ∷ ts) other (inr later) = inr (close-In id s ts other later)

  act_all-In :
      (us : List (Action N)) (b : EventBroadcaster N) (s : Subscriber N)
      → s.open_end ≡ true
      → StaysOpen s.id us
      → In s b.subs
      → In (record s { inbox = s.inbox ++ published us }) (act_all us b).subs
  unfolding publish remember send_all subscribe register
  act_all-In [] b s live stays i =
      subst (λ log. In (record s { inbox = log }) b.subs) (sym (append-nil s.inbox)) i
  act_all-In (subscribes id ∷ us) b s live stays i =
      act_all-In us (subscribe b id) s live stays (In-append_left s b.subs (replay b id ∷ []) i)
  act_all-In (hangs_up id ∷ us) b s live stays i =
      act_all-In us (act (hangs_up id) b) s live stays.1 (close-In id s b.subs stays.0 i)
  act_all-In (publishes n ∷ us) b s live stays i =
      subst (λ log. In (record s { inbox = log }) (act_all us (publish b n)).subs)
        (append_assoc s.inbox (n ∷ []) (published us))
        (act_all-In us (publish b n) (record s { inbox = s.inbox ++ n ∷ [] }) live stays
          (retain_sent-In n s b.subs live i))

  -- A client that subscribes after any calls of the broadcaster, and keeps its receiver, has received
  -- the last 128 events from before its subscription and every event after it, each once and in the
  -- order of publication, whoever else has subscribed and hung up before and after. The calls do
  -- not overlap.
  pub subscribe-In :
      (before after : List (Action N)) (id : ℕ)
      → StaysOpen id after
      → In
          (record {
            id = id;
            inbox = last 128 (published before) ++ published after;
            open_end = true;
          })
          (act_all after (subscribe (act_all before new_broadcaster) id)).subs
  unfolding subscribe register replay new_broadcaster trim
  subscribe-In before after id stays =
      let b = act_all before new_broadcaster in
      let s = replay b id in
      subst
        (λ log.
          In (record { id = id; inbox = log ++ published after; open_end = true })
            (act_all after (subscribe b id)).subs)
        (act_all-history before new_broadcaster refl ∙ trim-last 128 (published before))
        (act_all-In after (subscribe b id) s refl stays
          (In-append_right s b.subs (s ∷ []) (inl refl)))
