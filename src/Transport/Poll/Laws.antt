-- ===== src/Transport/Poll/Laws.antt =====
-- What the control plane sent is what the agent receives.
use vasal.Prelude.{String, none, some, List, [], ◌∷◌, map, ◌≡◌, refl, ap, ◌∙◌, false, str_eq}
use vasal.Prelude.Results.{ok}
use vasal.Protocol.Task.{Task, TaskChain}
use vasal.Host.{Env}
use vasal.Host.System.{System}
use vasal.Transport.{Wire, ReceivedWork, single, chain}
use vasal.Transport.Poll.{push_chain, push_task, push_item, decode_items, decode_body, parsed}

-- Work as the JSON that the agent reads: a chain has steps, a task has none.
pub record IsJsonOf {V : Type 0} (env : Env V) (wire : Wire V) (json_of : ReceivedWork V → V)
    : Type 0 where
  pub chain_read : (c : TaskChain V) → wire.read_chain (json_of (chain c)) ≡ ok c
  pub chain_steps : (c : TaskChain V) → (v : V) × (env.get (json_of (chain c)) "steps" ≡ some v)
  pub task_read : (t : Task V) → wire.read_task (json_of (single t)) ≡ ok t
  pub task_steps : (t : Task V) → env.get (json_of (single t)) "steps" ≡ none

module _ {V : Type 0} (env : Env V) (sys : System V) (wire : Wire V) (json_of : ReceivedWork V → V)
    (j : IsJsonOf env wire json_of) where
  push_item-json :
      (work : ReceivedWork V) (rest : List (ReceivedWork V))
      → push_item env sys wire (json_of work) rest ≡ work ∷ rest
  unfolding push_item push_chain push_task
  push_item-json (single t) rest = rw (push_item, j.task_steps t, j.task_read t) refl
  push_item-json (chain c) rest = rw (push_item, (j.chain_steps c).1, j.chain_read c) refl

  decode_items-json :
      (works : List (ReceivedWork V)) → decode_items env sys wire (map json_of works) ≡ works
  unfolding decode_items
  decode_items-json [] = refl
  decode_items-json (work ∷ works) =
      ap (λ l. push_item env sys wire (json_of work) l) (decode_items-json works)
      ∙ push_item-json work works

  -- A body that holds the JSON of some work, and is not empty text or an empty array, is decoded to
  -- that work in its order.
  pub decode_body-json :
      (text : String) (works : List (ReceivedWork V))
      → str_eq (sys.trim text) "" ≡ false
      → str_eq (sys.trim text) "[]" ≡ false
      → wire.parse_items text ≡ ok (map json_of works)
      → decode_body env sys wire text ≡ ok works
  unfolding decode_body parsed
  decode_body-json text works p q h = rw (p, q, h) (ap (λ l. ok l) (decode_items-json works))
