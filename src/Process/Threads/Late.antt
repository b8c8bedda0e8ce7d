-- ===== src/Process/Threads/Late.antt =====
-- A reaper that is late with its report.
use pingling.Prelude.{String, List, ◌∷◌, ◌≡◌, false, some, err}
use pingling.Prelude.Text.{is_empty}
use pingling.Domain.Error.{already_connected}
use pingling.Domain.State.{disconnected}
use pingling.Process.{Processes, Reaper, asleep, may_start, status}
use pingling.Process.Threads.{System, outside, Reach}

module _ {W Child : Type 0} (p : Processes W Child) where
  -- A state that is reached, in which the core holds a process, the state is disconnected, a start is
  -- refused, the caller is outside, and the reapers are a sleeping one and the others as given.
  pub record Overtaken (s : System W Child) (child : Child) (rest : List Reaper) : Type 0 where
    pub later : System W Child
    pub way : Reach p s later
    pub out : later.caller ≡ outside
    pub held : later.core.child ≡ some child
    pub down : status later.core ≡ disconnected
    pub reapers_are : later.reapers ≡ asleep ∷ rest
    pub refused :
        (path : String)
        → is_empty path ≡ false
        → may_start p later.core path ≡ err already_connected
