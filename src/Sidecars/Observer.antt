-- ===== src/Sidecars/Observer.antt =====
-- sidecars/ebpf-observer/src/main.rs: how it reads its arguments. What it observes is eBPF's.
use vasal.Prelude.{String, Option, none, some, List, get_elem?}

abbrev pub default_socket : String
default_socket = "/run/vasal/ebpf-observer.sock"

-- `args().nth(2).unwrap_or_else(…)`; the first argument is the program
unfoldable pub socket_of : Option String → String
socket_of none = default_socket
socket_of (some path) = path

unfoldable pub socket_path : (args : List String) → String
unfolding socket_of
socket_path args = socket_of (get_elem? args 2)
