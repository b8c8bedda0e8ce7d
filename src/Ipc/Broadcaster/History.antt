-- ===== src/Ipc/Broadcaster/History.antt =====
-- The history of the broadcaster, and what a subscriber in the list goes on to receive.
use mathlib.Core.List.{append_assoc, append-nil}
use pingling.Prelude.{
  ℕ, zero, suc, ◌-◌, ◌≡◌, refl, sym, ap, subst, ◌∙◌, List, [], ◌∷◌, ◌++◌, true, length,
  length-append, ltb, arith, In, inl, inr, Bool-cases,
}
use pingling.Ipc.Broadcaster.{
  Subscriber, EventBroadcaster, new_broadcaster, trim, remember, retain_sent, send_all, publish,
}

module _ {N : Type 0} where
  -- All items but the first `k`, and the last `n` items.
  abbrev pub drop : ℕ → List N → List N
  drop k [] = []
  drop zero (x ∷ xs) = x ∷ xs
  drop (suc k) (x ∷ xs) = drop k xs

  abbrev pub last : ℕ → List N → List N
  last n xs = drop (length xs - n) xs

  pub trim-last : (n : ℕ) (xs : List N) → trim n xs ≡ last n xs
  unfolding trim
  trim-last n [] = refl
  trim-last n (x ∷ xs) = elim (Bool-cases (ltb n (length (x ∷ xs)))) [
    | inl long ↦
        let one_more : length (x ∷ xs) - n ≡ suc (length xs - n) = ground (arith, long) in
        rw (long, trim, one_more) (trim-last n xs)
    | inr short ↦
        let none_over : length (x ∷ xs) - n ≡ 0 = ground (arith, short) in
        rw (short, trim, none_over) refl
  ]

  -- Trimming early changes nothing of what a later trimming leaves.
  pub trim-append : (n : ℕ) (xs ys : List N) → trim n (trim n xs ++ ys) ≡ trim n (xs ++ ys)
  unfolding trim
  trim-append n [] ys = refl
  trim-append n (x ∷ xs) ys = elim (Bool-cases (ltb n (length (x ∷ xs)))) [
    | inl long ↦
        let longer : ltb n (length (x ∷ xs ++ ys)) ≡ true =
          ground (arith, long, length-append xs ys) in
        rw (long, trim, longer) (trim-append n xs ys)
    | inr short ↦ rw (short, trim) refl
  ]

  -- `publish` for each item in turn.
  abbrev pub publish_all : EventBroadcaster N → List N → EventBroadcaster N
  publish_all b [] = b
  publish_all b (n ∷ ns) = publish_all (publish b n) ns

  pub publish_all-history :
      (b : EventBroadcaster N) (ns : List N)
      → b.history ≡ trim b.history_limit b.history
      → (publish_all b ns).history ≡ trim b.history_limit (b.history ++ ns)
  unfolding publish remember send_all
  publish_all-history b [] h = rw (append-nil b.history) h
  publish_all-history b (n ∷ ns) h =
      publish_all-history (publish b n) ns (
        sym (
          ap (trim b.history_limit) (sym (append-nil _))
          ∙ trim-append b.history_limit (b.history ++ n ∷ []) []
          ∙ ap (trim b.history_limit) (append-nil _)))
      ∙ trim-append b.history_limit (b.history ++ n ∷ []) ns
      ∙ ap (trim b.history_limit) (append_assoc b.history (n ∷ []) ns)

  pub retain_sent-In :
      (n : N) (s : Subscriber N) (ss : List (Subscriber N))
      → s.open_end ≡ true
      → In s ss
      → In (record s { inbox = s.inbox ++ n ∷ [] }) (retain_sent n ss)
  unfolding retain_sent
  retain_sent-In n s [] live i = absurd i
  retain_sent-In n s (t ∷ ts) live (inl same) =
      subst (λ x. In (record s { inbox = s.inbox ++ n ∷ [] }) (retain_sent n (x ∷ ts))) same
        (rw (live, retain_sent) (inl refl))
  retain_sent-In n s (t ∷ ts) live (inr later) = ground (arith, retain_sent-In n s ts live later)

  pub publish_all-In :
      (b : EventBroadcaster N) (ns : List N) (s : Subscriber N)
      → s.open_end ≡ true
      → In s b.subs
      → In (record s { inbox = s.inbox ++ ns }) (publish_all b ns).subs
  unfolding publish remember send_all
  publish_all-In b [] s live i =
      subst (λ log. In (record s { inbox = log }) b.subs) (sym (append-nil s.inbox)) i
  publish_all-In b (n ∷ ns) s live i =
      subst (λ log. In (record s { inbox = log }) (publish_all (publish b n) ns).subs)
        (append_assoc s.inbox (n ∷ []) ns)
        (publish_all-In (publish b n) ns (record s { inbox = s.inbox ++ n ∷ [] }) live
          (retain_sent-In n s b.subs live i))

  -- The history is what was published last: at most `history_limit` events.
  pub history-last : (ns : List N) → (publish_all new_broadcaster ns).history ≡ last 128 ns
  unfolding new_broadcaster trim
  history-last ns = publish_all-history new_broadcaster ns refl ∙ trim-last 128 ns
