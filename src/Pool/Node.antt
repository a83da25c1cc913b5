-- ===== src/Pool/Node.antt =====
-- core/src/pool/pool.rs: a node, the connections of one group. The hot queue's remove lock guards
-- nothing, since `let _` drops it at once; a call here runs to its end before the next.
pub mod Rotation
pub mod Supply
use glaive.Prelude.{
  ℕ, zero, suc, Option, none, some, List, [], ◌++◌, map, ◌==◌, if◌then◌else◌, find, insert, remove,
}
use glaive.Pool.Queues.{ArrayQueue, HashOrder}

abbrev pub hot_queue_size : ℕ
hot_queue_size = 16

module _ {T : Type 0} (queue : ArrayQueue (ℕ × T)) where
  open queue use {Queue, new, push, pop, len, items}

  pub record ConnectionNode : Type 0 where
    pub connections : List (ℕ × T)
    pub hot_queue : Queue

  unfoldable pub new_node : ConnectionNode
  new_node = record { connections = []; hot_queue = new hot_queue_size }

  -- The main list takes what the queue gave back.
  abbrev pub overflow : ConnectionNode → Option (ℕ × T) → ConnectionNode
  overflow node none = node
  overflow node (some (id, c)) = record node { connections = insert id c node.connections }

  unfoldable pub add_new_connection : ConnectionNode → ℕ → T → ConnectionNode
  add_new_connection node id c =
      let pushed = push node.hot_queue (id, c) in
      overflow (record node { hot_queue = pushed.0 }) pushed.1

  abbrev pub take_listed : ConnectionNode → ℕ → Option T → ConnectionNode × Option (ℕ × T)
  take_listed node id none = (node, none)
  take_listed node id (some c) =
      (record node { connections = remove id node.connections }, some (id, c))

  abbrev pub first_listed : ConnectionNode → Option ℕ → ConnectionNode × Option (ℕ × T)
  first_listed node none = (node, none)
  first_listed node (some id) = take_listed node id (find id node.connections)

  module _ (order : HashOrder) where
    unfoldable pub get_available_connection : ConnectionNode → ConnectionNode × Option (ℕ × T)
    get_available_connection node =
        let node' : ConnectionNode = record node { hot_queue = (pop node.hot_queue).0 } in
        elim (pop node.hot_queue).1 [
          | some hot ↦ (node', some hot)
          | none ↦ first_listed node' (order.first (map (λ e. e.0) node.connections))
        ]

  -- The loop over the hot queue: what is not the connection goes back into the node.
  unfoldable pub remove_hot : ℕ → ℕ → ConnectionNode → ConnectionNode × Option T
  remove_hot zero id node = (node, none)
  remove_hot (suc n) id node =
      let node' : ConnectionNode = record node { hot_queue = (pop node.hot_queue).0 } in
      elim (pop node.hot_queue).1 [
        | none ↦ (node', none)
        | some (hot_id, hot) ↦
            let rest = remove_hot n id (add_new_connection node' hot_id hot) in
            if id == hot_id then (node', some hot) else rest
      ]

  unfoldable pub remove_connection : ConnectionNode → ℕ → ConnectionNode × Option T
  remove_connection node id = elim (find id node.connections) [
    | some c ↦ (record node { connections = remove id node.connections }, some c)
    | none ↦ remove_hot (len node.hot_queue) id node
  ]

  -- All that a node has.
  abbrev pub contents : ConnectionNode → List (ℕ × T)
  contents node = node.connections ++ items node.hot_queue
