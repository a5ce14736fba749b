-- ===== src/Controller/Service/Console.antt =====
-- controller/internal/service/instance.go: where the console of an instance is.
use Prim.Native.Char.{code}
use text.Mathlib.TextLemmas.{nil-append, cons-append}
use rig_stack.Prelude.{
  String, ◌<>◌, Option, none, some, ◌≡◌, ◌≢◌, refl, arith, or_else, eqb, if◌then◌else◌,
}
use rig_stack.Client.Http.{Result, ok, err}
use rig_stack.Controller.Tables.{Db, Env}
use rig_stack.Controller.Store.Nodes as Nodes
use rig_stack.Controller.Store.Instances as Rows

-- The loop over `host`, which cuts it at its last colon, if it has one.
unfoldable pub before_last_colon : String → Option String
before_last_colon String.[] = none
before_last_colon (String.◌∷◌ c s) = elim (before_last_colon s) [
  | some h ↦ some (String.◌∷◌ c h)
  | none ↦ if eqb (code c) b':' then some "" else none
]

-- `NodeAddressForInstance`: the name of the machine, and the host and the port.
unfoldable pub node_address_for_instance : Env → String → Db → Result (String × String)
unfolding before_last_colon
node_address_for_instance env id db = elim (Rows.get id db) [
  | none ↦ err ("instance not found: instance " <> id <> ": " <> env.no_rows)
  | some i ↦ elim (Nodes.get_by_id i.node_id db) [
    | none ↦ err ("node not found: " <> env.no_rows)
    | some n ↦ ok (i.name, or_else (before_last_colon n.address) n.address <> ":9090")
  ]
]

-- A text with no colon in it.
abbrev pub NoColon : String → Type 0
NoColon String.[] = Unit
NoColon (String.◌∷◌ c s) = (code c ≢ b':') × NoColon s

uncut : (s : String) → NoColon s → before_last_colon s ≡ none
unfolding before_last_colon
uncut String.[] h = refl
uncut (String.◌∷◌ c s) (own, h) = rw (uncut s h) (ground (arith, own))

-- The port that follows the last colon is cut off, also where the host has colons itself.
pub before_last_colon-append :
    (host port : String)
    → NoColon port
    → before_last_colon (host <> String.◌∷◌ ":" port) ≡ some host
unfolding before_last_colon
before_last_colon-append String.[] port h = rw (nil-append (String.◌∷◌ ":" port), uncut port h)
before_last_colon-append (String.◌∷◌ c s) port h =
    rw (cons-append c s (String.◌∷◌ ":" port), before_last_colon, before_last_colon-append s port h)
