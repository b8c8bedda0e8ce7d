-- ===== src/Ipc/Discovery/Beacon.antt =====
-- What the beacon answers.
use pingling.Prelude.{
  ℕ, String, List, [], ◌∷◌, ◌++◌, map, ◌≡◌, refl, ap, true, false, inl, inr, Bool-cases, arith,
}
use pingling.Ipc.Discovery.{
  Machine, DaemonAdvertisement, Received, datagram, timed_out, failed, beacon_round, beacon,
  as_bytes, probe_magic, starts_with, to_json_bytes,
}

-- A datagram is a probe when it goes on from the bytes of the magic word.
pub record Probe (payload : List ℕ) : Type 0 where
  pub rest : List ℕ
  pub is : payload ≡ as_bytes probe_magic ++ rest

-- The senders of the probes among what the beacon received, in order.
pub data Probers {Peer : Type 0} : List (Received Peer) → List Peer → Type 0 where
  none_yet : Probers [] []
  probe :
      {payload : List ℕ} {peer : Peer} {rs : List (Received Peer)} {peers : List Peer}
      → Probe payload
      → Probers rs peers
      → Probers (datagram payload peer ∷ rs) (peer ∷ peers)
  stray :
      {payload : List ℕ} {peer : Peer} {rs : List (Received Peer)} {peers : List Peer}
      → ¬ Probe payload
      → Probers rs peers
      → Probers (datagram payload peer ∷ rs) peers
  quiet :
      {rs : List (Received Peer)} {peers : List Peer}
      → Probers rs peers
      → Probers (timed_out ∷ rs) peers
  broken :
      {rs : List (Received Peer)} {peers : List Peer}
      → Probers rs peers
      → Probers (failed ∷ rs) peers

split :
    (bs payload : List ℕ) → starts_with bs payload ≡ true → (rest : List ℕ) × (payload ≡ bs ++ rest)
unfolding starts_with
split [] payload h = (payload, refl)
split (b ∷ bs) [] h = cc
split (b ∷ bs) (c ∷ cs) h =
    let tail = split bs cs (ground (arith, h)) in
    (tail.0, let q : b ≡ c = ground (arith, h) in rw q (ap (λ l. c ∷ l) tail.1))

starts_with-append : (bs rest : List ℕ) → starts_with bs (bs ++ rest) ≡ true
unfolding starts_with
starts_with-append [] rest = refl
starts_with-append (b ∷ bs) rest = ground (arith, starts_with-append bs rest)

not-Probe :
    (payload : List ℕ) → starts_with (as_bytes probe_magic) payload ≡ false → ¬ Probe payload
not-Probe payload h q =
    let t = starts_with-append (as_bytes probe_magic) q.rest in
    let t' : starts_with (as_bytes probe_magic) payload ≡ true = rw q.is t in cc

-- What the beacon sends, and to whom.
pub record Replies {Peer : Type 0} (text : String) (rs : List (Received Peer))
    (sent : List (String × Peer)) : Type 0 where
  pub peers : List Peer
  pub probers : Probers rs peers
  pub all_sent : sent ≡ map (λ peer. (text, peer)) peers

module _ {D Peer : Type 0} (m : Machine D) (ad : DaemonAdvertisement) where
  -- The beacon sends its advertisement to the sender of each datagram that begins with the magic word,
  -- in the order in which they came, and nothing else: other datagrams, time-outs and errors pass by.
  pub beacon-Replies :
      (rs : List (Received Peer)) → Replies (to_json_bytes m ad) rs (beacon m ad rs)
  unfolding beacon beacon_round
  beacon-Replies [] = record { peers = []; probers = none_yet; all_sent = refl }
  beacon-Replies (timed_out ∷ rs) =
      let r = beacon-Replies rs in
      record { peers = r.peers; probers = quiet r.probers; all_sent = r.all_sent }
  beacon-Replies (failed ∷ rs) =
      let r = beacon-Replies rs in
      record { peers = r.peers; probers = broken r.probers; all_sent = r.all_sent }
  beacon-Replies (datagram payload peer ∷ rs) =
      let r = beacon-Replies rs in
      elim (Bool-cases (starts_with (as_bytes probe_magic) payload)) [
        | inl h ↦
            let s = split (as_bytes probe_magic) payload h in
            record {
              peers = peer ∷ r.peers;
              probers = probe (record { rest = s.0; is = s.1 }) r.probers;
              all_sent =
                  rw (h, beacon, beacon_round)
                    (ap (λ l. (to_json_bytes m ad, peer) ∷ l) r.all_sent);
            }
        | inr h ↦ record {
          peers = r.peers;
          probers = stray (not-Probe payload h) r.probers;
          all_sent = rw (h, beacon, beacon_round) r.all_sent;
        }
      ]
