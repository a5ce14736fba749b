-- ===== src/Controller/Dispatcher/Delivery.antt =====
-- What a node receives from its queue, over any sequence of calls.
use mathlib.Core.List.{append-nil, append_assoc}
use rig_stack.Prelude.{
  String, ◌==◌, true, false, List, [], ◌∷◌, ◌++◌, ◌≡◌, refl, sym, ap, ◌∙◌, arith, inl, inr, eq_iff,
  Bool-cases, if◌then◌else◌,
}
use rig_stack.Controller.Dispatcher.{Command, Queues, pending, enqueue, remove_key, drain}

-- A call of the dispatcher.
pub data Call : Type 0 where
  enqueue_to : String → Command → Call
  drain_of : String → Call

-- The queues after some calls, and what the drains of one node have returned, in order.
unfoldable pub run_calls : List Call → Queues → Queues
run_calls [] queues = queues
run_calls (enqueue_to id cmd ∷ calls) queues = run_calls calls (enqueue id cmd queues)
run_calls (drain_of id ∷ calls) queues = run_calls calls (drain id queues).1

unfoldable pub delivered : String → List Call → Queues → List Command
delivered node [] queues = []
delivered node (enqueue_to id cmd ∷ calls) queues = delivered node calls (enqueue id cmd queues)
delivered node (drain_of id ∷ calls) queues =
    let rest = delivered node calls (drain id queues).1 in
    if id == node then (drain id queues).0 ++ rest else rest

-- The commands that the calls put in for one node, in order.
unfoldable pub put_in : String → List Call → List Command
put_in node [] = []
put_in node (enqueue_to id cmd ∷ calls) =
    let rest = put_in node calls in if id == node then cmd ∷ rest else rest
put_in node (drain_of id ∷ calls) = put_in node calls

pub pending-enqueue :
    (node id : String) (cmd : Command) (queues : Queues)
    → pending node (enqueue id cmd queues)
      ≡ (if id == node then pending node queues ++ cmd ∷ [] else pending node queues)
unfolding pending enqueue
pending-enqueue node id cmd [] = refl
pending-enqueue node id cmd ((key, cmds) ∷ rest) =
    ground (arith, pending-enqueue node id cmd rest, eq_iff key id, eq_iff key node, eq_iff id node)

pub pending-remove_key :
    (node id : String) (queues : Queues)
    → pending node (remove_key id queues) ≡ (if id == node then [] else pending node queues)
unfolding pending remove_key
pending-remove_key node id [] = ground arith
pending-remove_key node id ((key, cmds) ∷ rest) =
    ground (arith, pending-remove_key node id rest, eq_iff key id, eq_iff key node, eq_iff id node)

put_behind :
    (node id : String) (cmd : Command) (calls : List Call) (queues : Queues)
    → pending node (enqueue id cmd queues) ++ put_in node calls
      ≡ pending node queues ++ put_in node (enqueue_to id cmd ∷ calls)
unfolding put_in
put_behind node id cmd calls queues = elim (Bool-cases (id == node)) [
  | inl same ↦
      rw (pending-enqueue node id cmd queues, same)
        (append_assoc (pending node queues) (cmd ∷ []) (put_in node calls))
  | inr other ↦ rw (pending-enqueue node id cmd queues, other)
]

own_drain :
    (node id : String) (calls : List Call) (queues : Queues)
    → (id == node) ≡ true
    → (drain id queues).0 ++ (pending node (drain id queues).1 ++ put_in node calls)
      ≡ pending node queues ++ put_in node calls
unfolding drain
own_drain node id calls queues same =
    rw (pending-remove_key node id queues, same, (eq_iff id node).0 same)

other_drain :
    (node id : String) (queues : Queues)
    → (id == node) ≡ false
    → pending node (drain id queues).1 ≡ pending node queues
unfolding drain
other_drain node id queues other = rw (pending-remove_key node id queues, other)

-- Whatever calls are made, in whatever order and for whatever nodes, the commands that the drains of
-- a node return, followed by those still in its queue, are those that were in its queue before,
-- followed by those put in for it, in order: none is lost, none comes twice or to another node.
pub delivered_in_order :
    (node : String) (calls : List Call) (queues : Queues)
    → delivered node calls queues ++ pending node (run_calls calls queues)
      ≡ pending node queues ++ put_in node calls
unfolding delivered run_calls put_in
delivered_in_order node [] queues = sym (append-nil (pending node queues))
delivered_in_order node (enqueue_to id cmd ∷ calls) queues =
    delivered_in_order node calls (enqueue id cmd queues) ∙ put_behind node id cmd calls queues
delivered_in_order node (drain_of id ∷ calls) queues = elim (Bool-cases (id == node)) [
  | inl same ↦ rw same (
      append_assoc (drain id queues).0 (delivered node calls (drain id queues).1)
        (pending node (run_calls calls (drain id queues).1))
      ∙ ap (λ rest. (drain id queues).0 ++ rest) (delivered_in_order node calls (drain id queues).1)
      ∙ own_drain node id calls queues same)
  | inr other ↦ rw other (
      delivered_in_order node calls (drain id queues).1
      ∙ ap (λ cmds. cmds ++ put_in node calls) (other_drain node id queues other))
]
