-- ===== src/Mocks/Core/Paths.antt =====
-- The states that a mock core reports.
use pingling.Prelude.{String, ◌≡◌, refl, sym, subst, ◌⊎◌, inl, inr, List, [], ◌∷◌, ◌++◌, arith}
use pingling.Domain.State.{
  ConnectionState, disconnected, connecting, connected, disconnecting, is_active, CoreEvent, log,
  state_changed,
}
use pingling.Mocks.Core.{
  MockCore, new_core, send_log, emit_state, status, bring_up, bring_down, cut_down, start, stop,
  kill, subscribe,
}

-- The moves of the life cycle.
pub data Moves : ConnectionState → ConnectionState → Type 0 where
  begin : Moves disconnected connecting
  arrive : Moves connecting connected
  leave : Moves connected disconnecting
  part : Moves disconnecting disconnected
  cut : Moves connected disconnected

abbrev pub states : List CoreEvent → List ConnectionState
states [] = []
states (state_changed s ∷ es) = s ∷ states es
states (_ ∷ es) = states es

-- `us` are the states after `s`, each by a move, and `t` is the last.
abbrev pub Walk : ConnectionState → List ConnectionState → ConnectionState → Type 0
Walk s [] t = s ≡ t
Walk s (u ∷ us) t = Moves s u × Walk u us t

Walk-snoc :
    (s : ConnectionState) (us : List ConnectionState) (t u : ConnectionState)
    → Walk s us t
    → Moves t u
    → Walk s (us ++ u ∷ []) u
Walk-snoc s [] t u h m = (subst (λ x. Moves x u) (sym h) m, refl)
Walk-snoc s (v ∷ vs) t u (first, h) m = (first, Walk-snoc v vs t u h m)

states_log : (es : List CoreEvent) (msg : String) → states (es ++ log msg ∷ []) ≡ states es
states_log [] msg = refl
states_log (e ∷ es) msg = ground (arith, states_log es msg)

states_changed :
    (es : List CoreEvent) (s : ConnectionState)
    → states (es ++ state_changed s ∷ []) ≡ states es ++ s ∷ []
states_changed [] s = refl
states_changed (e ∷ es) s = ground (arith, states_changed es s)

-- The states that were reported lead from the start to the state that the core is in.
abbrev pub Reports : MockCore → Type 0
Reports m = Walk disconnected (states m.events) m.state

send_log-Reports : (m : MockCore) (msg : String) → Reports m → Reports (send_log m msg)
unfolding send_log
send_log-Reports m msg h = rw (states_log m.events msg) h

emit_state-Reports :
    (m : MockCore) (s : ConnectionState) → Reports m → Moves m.state s → Reports (emit_state m s)
unfolding emit_state
emit_state-Reports m s h move =
    rw (states_changed m.events s) (Walk-snoc disconnected (states m.events) m.state s h move)

-- Between two calls a core is down or up.
abbrev pub Settled : MockCore → Type 0
Settled m = (m.state ≡ disconnected) ⊎ (m.state ≡ connected)

pub record IsValid (m : MockCore) : Type 0 where
  pub reports : Reports m
  pub settled : Settled m

bring_up-IsValid : (m : MockCore) → Reports m → m.state ≡ disconnected → IsValid (bring_up m)
unfolding bring_up send_log emit_state
bring_up-IsValid m h down =
    let first : Moves m.state connecting = rw down begin in
    let m1 = send_log m "[mock] start requested" in
    let m2 = emit_state m1 connecting in
    let m3 = send_log m2 "[mock] initializing core engine" in
    let m4 = send_log m3 "[mock] binding to 127.0.0.1:1080 (socks)" in
    let m5 = send_log m4 "[mock] binding to 127.0.0.1:8080 (http)" in
    let m6 = send_log m5 "[mock] connected (simulated)" in
    let h2 = emit_state-Reports m1 connecting (send_log-Reports m _ h) first in
    let h4 = send_log-Reports m3 _ (send_log-Reports m2 _ h2) in
    let h6 = send_log-Reports m5 _ (send_log-Reports m4 _ h4) in
    record { reports = emit_state-Reports m6 connected h6 arrive; settled = inr refl }

bring_down-IsValid : (m : MockCore) → Reports m → m.state ≡ connected → IsValid (bring_down m)
unfolding bring_down send_log emit_state
bring_down-IsValid m h up =
    let first : Moves m.state disconnecting = rw up leave in
    let m1 = send_log m "[mock] stop requested" in
    let m2 = emit_state m1 disconnecting in
    let m3 = emit_state m2 disconnected in
    let h2 = emit_state-Reports m1 disconnecting (send_log-Reports m _ h) first in
    let h3 = emit_state-Reports m2 disconnected h2 part in
    record { reports = send_log-Reports m3 "[mock] disconnected" h3; settled = inl refl }

cut_down-IsValid : (m : MockCore) → Reports m → m.state ≡ connected → IsValid (cut_down m)
unfolding cut_down send_log emit_state
cut_down-IsValid m h up =
    let only : Moves m.state disconnected = rw up cut in
    let m1 = send_log m "[mock] force kill requested" in
    let m2 = emit_state m1 disconnected in
    let h2 = emit_state-Reports m1 disconnected (send_log-Reports m _ h) only in
    record { reports = send_log-Reports m2 "[mock] killed" h2; settled = inl refl }

pub data Call : Type 0 where
  do_start : String → Call
  do_stop do_kill do_subscribe : Call

abbrev pub step : MockCore → Call → MockCore
step m (do_start config_path) = (start m config_path).1
step m do_stop = (stop m).1
step m do_kill = (kill m).1
step m do_subscribe = (subscribe m).1

unfoldable pub run_calls : MockCore → List Call → MockCore
run_calls m [] = m
run_calls m (c ∷ cs) = run_calls (step m c) cs

start-IsValid :
    (m : MockCore) (config_path : String) → IsValid m → IsValid ((start m config_path).1)
unfolding start status is_active
start-IsValid m config_path v = elim v.settled [
  | inl down ↦ ground (arith, down, v, bring_up-IsValid m v.reports down)
  | inr up ↦ ground (arith, up, v)
]

stop-IsValid : (m : MockCore) → IsValid m → IsValid ((stop m).1)
unfolding stop status is_active
stop-IsValid m v = elim v.settled [
  | inl down ↦ ground (arith, down, v)
  | inr up ↦ ground (arith, up, bring_down-IsValid m v.reports up)
]

kill-IsValid : (m : MockCore) → IsValid m → IsValid ((kill m).1)
unfolding kill status is_active
kill-IsValid m v = elim v.settled [
  | inl down ↦ ground (arith, down, v)
  | inr up ↦ ground (arith, up, cut_down-IsValid m v.reports up)
]

step-IsValid : (m : MockCore) (c : Call) → IsValid m → IsValid (step m c)
unfolding subscribe
step-IsValid m (do_start config_path) v = start-IsValid m config_path v
step-IsValid m do_stop v = stop-IsValid m v
step-IsValid m do_kill v = kill-IsValid m v
step-IsValid m do_subscribe v = record { reports = v.reports; settled = v.settled }

run_calls-IsValid : (m : MockCore) (cs : List Call) → IsValid m → IsValid (run_calls m cs)
unfolding run_calls
run_calls-IsValid m [] v = v
run_calls-IsValid m (c ∷ cs) v = run_calls-IsValid (step m c) cs (step-IsValid m c v)

-- Whatever is called on a new core, and in whatever order: each state that it reports follows from
-- the one before by a move of the life cycle, the last is the state it is in, and between calls it
-- is disconnected or connected.
pub run_calls_new-IsValid : (cs : List Call) → IsValid (run_calls new_core cs)
unfolding new_core
run_calls_new-IsValid cs =
    run_calls-IsValid new_core cs (record { reports = refl; settled = inl refl })
