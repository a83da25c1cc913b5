-- ===== src/Pool/Node/Supply.antt =====
-- core/src/pool/pool.rs: what a node takes in and gives out.
use glaive.Prelude.{
  ℕ, ◌≤◌, ◌<◌, ◌≡◌, ◌≢◌, refl, sym, ap, ◌∙◌, subst, Option, none, some, List, [], ◌∷◌, ◌++◌, map,
  arith, leb, Bool-cases, Option-cases, List-cases, inl, inr, length, append-nil, append_assoc,
  length-append, find, remove, Distinct, find-without, find_here, remove_absent, find-append_left,
  find-has, find-remove_ne, find-remove_self, Distinct-snoc, Distinct-without,
}
use glaive.Pool.Queues.{ArrayQueue, HashOrder}
use glaive.Pool.Node.{ConnectionNode, add_new_connection, get_available_connection, contents}
use glaive.Pool.Node.Rotation.{Fits, IsSound}

module _ {T : Type 0} (queue : ArrayQueue (ℕ × T)) where
  open queue use {Queue, pop, push, items, capacity}

  -- The connection is in the node, and all others are as they were.
  pub record Adds (node : ConnectionNode queue) (id : ℕ) (c : T) : Type 0 where
    pub holds : find id (contents queue (add_new_connection queue node id c)) ≡ some c
    pub others :
        (k : ℕ)
        → k ≢ id
        → find k (contents queue (add_new_connection queue node id c))
          ≡ find k (contents queue node)
    pub sound : IsSound queue (add_new_connection queue node id c)

  -- The two ways in: behind the hot queue, or in front of the list when the queue is full.
  record Grows (node : ConnectionNode queue) (id : ℕ) (c : T) (now : List (ℕ × T)) : Type 0 where
    grown : contents queue (add_new_connection queue node id c) ≡ now
    fits_grown : Fits queue (add_new_connection queue node id c).hot_queue

  add-Grows_room :
      (node : ConnectionNode queue) (id : ℕ) (c : T)
      → length (items node.hot_queue) < capacity node.hot_queue
      → Grows node id c (contents queue node ++ ((id, c) ∷ []))
  unfolding add_new_connection
  add-Grows_room node id c room =
      let q = node.hot_queue in
      let pushed = queue.push_room q (id, c) room in
      record {
        grown =
            rw (pushed.0, pushed.1) (sym (append_assoc node.connections (items q) ((id, c) ∷ [])));
        fits_grown =
            rw
              (
                pushed.0,
                pushed.1,
                queue.capacity_push q (id, c),
                length-append (items q) ((id, c) ∷ []),
              )
              (omega (arith, room));
      }

  add-Grows_full :
      (node : ConnectionNode queue) (id : ℕ) (c : T)
      → IsSound queue node
      → find id node.connections ≡ none
      → capacity node.hot_queue ≤ length (items node.hot_queue)
      → Grows node id c ((id, c) ∷ contents queue node)
  unfolding add_new_connection
  add-Grows_full node id c sound fresh full =
      let q = node.hot_queue in
      let pushed = queue.push_full q (id, c) full in
      record {
        grown = rw (pushed.0, pushed.1, remove_absent id node.connections fresh) refl;
        fits_grown = rw (pushed.0, pushed.1, queue.capacity_push q (id, c)) sound.fits;
      }

  -- `add_new_connection` of an id that the node does not have puts the connection into it, keeps
  -- every other, and leaves the ids different and the hot queue in its bounds.
  pub add_new_connection-Adds :
      (node : ConnectionNode queue) (id : ℕ) (c : T)
      → IsSound queue node
      → find id (contents queue node) ≡ none
      → Adds node id c
  add_new_connection-Adds node id c sound fresh =
      let all = contents queue node in
      elim (Bool-cases (leb (capacity node.hot_queue) (length (items node.hot_queue)))) [
        | inr e ↦
            let in_room = add-Grows_room node id c (ground arith) in
            record {
              holds = rw in_room.grown (find_here id all [] c fresh);
              others = λ k ne.
                  rw in_room.grown (find-without k id all [] c ne ∙ ap (find k) (append-nil all));
              sound = record {
                distinct = rw in_room.grown (Distinct-snoc id c all sound.distinct fresh);
                fits = in_room.fits_grown;
              };
            }
        | inl e ↦
            let listed : find id node.connections ≡ none =
              find-append_left id node.connections (items node.hot_queue) fresh in
            let in_list = add-Grows_full node id c sound listed (ground arith) in
            record {
              holds = rw in_list.grown (find_here id [] all c refl);
              others = λ k ne. rw in_list.grown (find-without k id [] all c ne);
              sound = record {
                distinct = rw in_list.grown (fresh, sound.distinct);
                fits = in_list.fits_grown;
              };
            }
      ]

  module _ (order : HashOrder) where
    -- What `get_available_connection` gives: nothing, from a node that has nothing, or a
    -- connection of the node, which is then no longer in it, while all others are.
    pub data Supply (node : ConnectionNode queue)
        : ConnectionNode queue → Option (ℕ × T) → Type 0 where
      empty :
          (after : ConnectionNode queue)
          → contents queue node ≡ []
          → contents queue after ≡ []
          → Supply node after none
      given :
          (after : ConnectionNode queue) (id : ℕ) (c : T)
          → find id (contents queue node) ≡ some c
          → find id (contents queue after) ≡ none
          → ((k : ℕ) → k ≢ id → find k (contents queue after) ≡ find k (contents queue node))
          → Supply node after (some (id, c))

    eq-nil_of_map : (m : List (ℕ × T)) → map (λ x. x.0) m ≡ [] → m ≡ []
    eq-nil_of_map [] e = refl
    eq-nil_of_map (x ∷ m) e = absurd cc

    abbrev pub Gets : ConnectionNode queue → Type 0
    unfolding get_available_connection
    Gets node =
        Supply node (get_available_connection queue order node).0
          (get_available_connection queue order node).1

    get-Gets_hot :
        (node : ConnectionNode queue) (id : ℕ) (c : T) (rest : List (ℕ × T))
        → IsSound queue node
        → items node.hot_queue ≡ (id, c) ∷ rest
        → Gets node
    unfolding get_available_connection
    get-Gets_hot node id c rest sound e =
        let listed = node.connections in
        let after : ConnectionNode queue = record node { hot_queue = (pop node.hot_queue).0 } in
        let front = queue.pop_front node.hot_queue (id, c) rest e in
        let was : contents queue node ≡ listed ++ ((id, c) ∷ rest) = rw e refl in
        let left : contents queue after ≡ listed ++ rest = rw (front.1) refl in
        let without = Distinct-without id listed rest c (subst Distinct was sound.distinct) in
        let e' : get_available_connection queue order node ≡ (after, some (id, c)) =
          ground (arith, front.0) in
        rw e' (
          given after id c
            (rw was (find_here id listed rest c (find-append_left id listed rest without.0)))
            (rw left without.0) (λ k ne. rw (left, was) (sym (find-without k id listed rest c ne))))

    get-Gets_listed :
        (node : ConnectionNode queue) → IsSound queue node → items node.hot_queue ≡ [] → Gets node
    unfolding get_available_connection
    get-Gets_listed node sound e =
        let listed = node.connections in
        let popped = queue.pop_empty node.hot_queue e in
        let keys = map (λ x. x.0) listed in
        let after : ConnectionNode queue = record node { hot_queue = (pop node.hot_queue).0 } in
        elim (Option-cases (order.first keys)) [
          | inl f ↦
              let nil = eq-nil_of_map listed (order.first_none keys f) in
              let e' : get_available_connection queue order node ≡ (after, none) =
                ground (arith, popped.0, f) in
              rw e' (empty after (rw (e, nil) refl) (rw (popped.1, nil) refl))
          | inr (id, f) ↦
              let held = find-has id listed (order.first_mem keys id f) in
              let now : ConnectionNode queue = record after { connections = remove id listed } in
              let e' : get_available_connection queue order node ≡ (now, some (id, held.0)) =
                ground (arith, popped.0, f, held.1) in
              let was : contents queue node ≡ listed = rw e (append-nil listed) in
              let left : contents queue now ≡ remove id listed =
                rw (popped.1) (append-nil (remove id listed)) in
              rw e' (
                given now id (held.0) (rw was held.1)
                  (rw left (find-remove_self id listed (subst Distinct was sound.distinct)))
                  (λ k ne. rw (left, was) (find-remove_ne k id listed ne)))
        ]

    -- From a sound node `get_available_connection` gives nothing only when the node has nothing;
    -- else it gives a connection of the node under its id, which the node then no longer has, and
    -- leaves all others.
    pub get_available_connection-Gets :
        (node : ConnectionNode queue) → IsSound queue node → Gets node
    get_available_connection-Gets node sound = elim (List-cases (items node.hot_queue)) [
      | inl e ↦ get-Gets_listed node sound e
      | inr (x, (rest, e)) ↦ get-Gets_hot node x.0 x.1 rest sound e
    ]
