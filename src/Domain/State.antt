-- ===== src/Domain/State.antt =====
-- `ConnectionState`, `CoreEvent`, `CoreInfo` and `PrerequisiteCheck` of crates/domain/src/types.rs.
use pingling.Prelude.{String, List, Bool, true, false, [], ◌∷◌}
use pingling.Prelude.Int.{ℤ}
use pingling.Prelude.Text.{format}

pub data ConnectionState : Type 0 where
  disconnected connecting connected disconnecting : ConnectionState
  error : String → ConnectionState

unfoldable pub state_str : ConnectionState → String
state_str disconnected = "disconnected"
state_str connecting = "connecting"
state_str connected = "connected"
state_str disconnecting = "disconnecting"
state_str (error msg) = format ("error: " ∷ msg ∷ [])

unfoldable pub is_active : ConnectionState → Bool
is_active disconnected = false
is_active connecting = true
is_active connected = true
is_active disconnecting = true
is_active (error msg) = false

unfoldable pub is_connected : ConnectionState → Bool
is_connected connected = true
is_connected _ = false

pub data CoreEvent : Type 0 where
  started : CoreEvent
  stopped : ℤ → CoreEvent
  log error_log : String → CoreEvent
  state_changed : ConnectionState → CoreEvent
  crashed : String → CoreEvent

pub record CoreInfo : Type 0 where
  pub name : String
  pub version : String
  pub supported_protocols : List String

unfoldable pub info_str : CoreInfo → String
info_str info = format (info.name ∷ " v" ∷ info.version ∷ [])

pub record PrerequisiteCheck : Type 0 where
  pub name : String
  pub passed : Bool
  pub message : String
