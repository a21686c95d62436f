-- ===== src/Sidecars/Echo.antt =====
-- sidecars/echo-ctrl/src/main.rs: a sidecar that echoes what it is given.
use vasal.Prelude.{String, Option, none, some, List, false, get_elem?}
use vasal.Prelude.Results.{Result, ok, err}
use vasal.Protocol.Sidecar.{SubmitResponse, healthy}
use vasal.Server.{SidecarHandler, default_status, default_cancel}

abbrev pub default_socket : String
default_socket = "/run/vasal/echo-ctrl.sock"

-- `args().nth(1).unwrap_or_else(…)`; the first argument is the program
unfoldable pub socket_of : Option String → String
socket_of none = default_socket
socket_of (some path) = path

unfoldable pub socket_path : (args : List String) → String
unfolding socket_of
socket_path args = socket_of (get_elem? args 1)

module _ {V : Type 0} (version : String) (pretty : V → Result String String)
    (text : V → String) where
  unfoldable pub pretty_or_text : V → Result String String → String
  pretty_or_text params (ok s) = s
  pretty_or_text params (err _) = text params

  -- `EchoHandler`; it has no state.
  unfoldable pub echo_handler : SidecarHandler V (Unit {0})
  unfolding default_status default_cancel pretty_or_text
  echo_handler = record {
    health = λ s.
        (record { status = healthy; version = some version; error = none; metadata = none }, s);
    submit = λ params s.
        (ok (SubmitResponse.completed (pretty_or_text params (pretty params)) "" false), s);
    status = default_status;
    cancel = default_cancel;
  }
