-- ===== src/Protocol/JsonRpc.antt =====
-- crates/vasal-protocol/src/jsonrpc.rs: JSON-RPC 2.0 messages.
use vasal.Prelude.{String, Bool, true, false, Option, none, some}
use vasal.Prelude.Int.{ℤ, int_text}

abbrev pub jsonrpc_version : String
jsonrpc_version = "2.0"

pub data RequestId : Type 0 where
  integer : ℤ → RequestId
  string : String → RequestId

-- `impl fmt::Display for RequestId`
unfoldable pub request_id_text : RequestId → String
unfolding int_text
request_id_text (integer n) = int_text n
request_id_text (string s) = s

pub record Request (V : Type 0) : Type 0 where
  pub jsonrpc : String
  pub method : String
  pub params : Option V
  pub id : RequestId

pub record ErrorObject (V : Type 0) : Type 0 where
  pub code : ℤ
  pub message : String
  pub detail : Option V

pub record Response (V : Type 0) : Type 0 where
  pub jsonrpc : String
  pub result : Option V
  pub error : Option (ErrorObject V)
  pub id : RequestId

module _ {V : Type 0} where
  unfoldable pub new_request : String → Option V → RequestId → Request V
  new_request method params id = record {
    jsonrpc = jsonrpc_version;
    method = method;
    params = params;
    id = id;
  }

  unfoldable pub success : RequestId → V → Response V
  success id result = record {
    jsonrpc = jsonrpc_version;
    result = some result;
    error = none;
    id = id;
  }

  unfoldable pub failure : RequestId → ErrorObject V → Response V
  failure id error = record {
    jsonrpc = jsonrpc_version;
    result = none;
    error = some error;
    id = id;
  }

  unfoldable pub is_success : Response V → Bool
  is_success r = elim r.error [ none ↦ true | some _ ↦ false ]
