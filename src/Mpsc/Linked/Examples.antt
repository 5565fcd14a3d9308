-- ===== src/Mpsc/Linked/Examples.antt =====
-- Runs of a linked queue, and its theorems at concrete states.
use shclog.Prelude.{ℕ, zero, suc, ◌≡◌, refl, false, some, List, [], ◌∷◌, ◌++◌, length, arith}
use shclog.Mpsc.Linked.{
  done, push, pop, System, invoke_at, push_at, pop_at, invoke, move, start, Reach, begin, next,
}
use shclog.Mpsc.Linked.Chain.{items}
use shclog.Mpsc.Linked.Safety.{producer, linked_order, touch_safe}
use shclog.Mpsc.Linked.Drain.{drain, linked_drain}

-- Producer 0 has put the node 5 into `head` and not linked it; it has linked it; node 6 follows.
abbrev unlinked : System
unlinked = push_at (push_at (invoke_at start 0 5) 0) 0

abbrev one_node : System
one_node = push_at unlinked 0

abbrev two_nodes : System
two_nodes = push_at (push_at (push_at (invoke_at one_node 1 6) 1) 1) 1

unlinked-Reach : Reach unlinked
unlinked-Reach = next (next (next begin (invoke 0 5 refl refl)) (move 0)) (move 0)

one_node-Reach : Reach one_node
one_node-Reach = next unlinked-Reach (move 0)

two_nodes-Reach : Reach two_nodes
unfolding push
two_nodes-Reach =
    next (next (next (next one_node-Reach (invoke 1 6 refl refl)) (move 1)) (move 1)) (move 1)

-- The destructor returns both nodes.
drain_runs : drain 3 two_nodes ≡ some (5 ∷ 6 ∷ [])
unfolding drain push pop
drain_runs = refl

-- A node that is not linked yet is not found.
unlinked_hides : (pop_at unlinked).given ≡ []
unfolding push pop
unlinked_hides = refl

linked_order_example : (rest : List ℕ) × (items two_nodes.exchanged ≡ two_nodes.given ++ rest)
linked_order_example = linked_order two_nodes-Reach

touch_safe_example : unlinked.owned 0 ≡ false
unfolding push
touch_safe_example = touch_safe unlinked-Reach (producer 0) 0 refl

two_nodes_quiet : (i : ℕ) → two_nodes.calls i ≡ done
unfolding push
two_nodes_quiet zero = refl
two_nodes_quiet (suc zero) = refl
two_nodes_quiet (suc (suc i)) = ground arith

linked_drain_example :
    (rest : List ℕ) × (items two_nodes.exchanged ≡ two_nodes.given ++ rest)
    × (drain (suc (length rest)) two_nodes ≡ some rest)
linked_drain_example = linked_drain two_nodes-Reach two_nodes_quiet refl
