-- ===== src/Ipc/Protocol.antt =====
-- Requests, responses and notifications of crates/extension_slots/ipc/src/protocol.rs.
use pingling.Prelude.{String, Bool, true, false, Option, none, some}
use pingling.Prelude.Int.{ℤ, negsuc}
use pingling.Contract.Package.{Json}

pub record Request (V : Type 0) : Type 0 where
  pub jsonrpc : String
  pub id : Option V
  pub method : String
  pub params : V

pub record RpcError (V : Type 0) : Type 0 where
  pub code : ℤ
  pub message : String
  pub detail : Option V

pub record Response (V : Type 0) : Type 0 where
  pub jsonrpc : String
  pub id : V
  pub result : Option V
  pub error : Option (RpcError V)

pub record Notification (V : Type 0) : Type 0 where
  pub jsonrpc : String
  pub method : String
  pub params : V

-- the standard error codes
abbrev pub parse_error : ℤ
parse_error = negsuc 32699

abbrev pub invalid_request : ℤ
invalid_request = negsuc 32599

abbrev pub method_not_found : ℤ
method_not_found = negsuc 32600

abbrev pub invalid_params : ℤ
invalid_params = negsuc 32601

abbrev pub internal_error : ℤ
internal_error = negsuc 32602

abbrev pub application_error : ℤ
application_error = negsuc 31999

module _ {V : Type 0} where
  unfoldable pub ok_response : V → V → Response V
  ok_response id result = record { jsonrpc = "2.0"; id = id; result = some result; error = none }

  unfoldable pub err_response : V → ℤ → String → Option V → Response V
  err_response id code message detail = record {
    jsonrpc = "2.0";
    id = id;
    result = none;
    error = some (record { code = code; message = message; detail = detail });
  }

  unfoldable pub new_notification : String → V → Notification V
  new_notification method params = record { jsonrpc = "2.0"; method = method; params = params }

  unfoldable pub is_notification : Request V → Bool
  is_notification r = elim r.id [ none ↦ true | some id ↦ false ]

  unfoldable pub id_or_null : ⦃j : Json V⦄ → Request V → V
  id_or_null ⦃j⦄ r = elim r.id [ none ↦ j.null | some id ↦ id ]
