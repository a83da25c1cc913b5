-- ===== src/Pool/Node/Rotation.antt =====
-- core/src/pool/pool.rs: what the operations of a node do to the connections that it holds.
use glaive.Prelude.{
  false, ℕ, zero, suc, ◌≤◌, ◌<◌, ◌≡◌, ◌≢◌, refl, sym, ap, ◌∙◌, subst, find-Split, find-swap,
  find-without, find-remove_ne, find-remove_self, Distinct-append_right, Distinct-append_left,
  Distinct-apart, find_here, Distinct-without, Split, Option, none, some, List, [], ◌∷◌, ◌++◌,
  arith, ◌==◌, Option-cases, inl, inr, length, length-append, append_assoc, append-nil, find,
  remove, Distinct, find-append,
}
use glaive.Pool.Queues.{ArrayQueue}
use glaive.Pool.Node.{ConnectionNode, add_new_connection, remove_hot, remove_connection, contents}

module _ {T : Type 0} (queue : ArrayQueue (ℕ × T)) where
  open queue use {Queue, pop, push, items, capacity}

  -- The hot queue holds no more than it has room for.
  abbrev pub Fits : Queue → Type 0
  Fits q = length (items q) ≤ capacity q

  -- What was popped goes to the back of the queue.
  record GoesBack (node : ConnectionNode queue) (id : ℕ) (c : T) (rest : List (ℕ × T))
      : Type 0 where
    now : ConnectionNode queue
    add_goes :
        add_new_connection queue (record node { hot_queue = (pop node.hot_queue).0 }) id c ≡ now
    pop_gives : (pop node.hot_queue).1 ≡ some (id, c)
    items_now : items now.hot_queue ≡ rest ++ ((id, c) ∷ [])
    listed_now : now.connections ≡ node.connections
    fits_now : Fits now.hot_queue

  add-GoesBack :
      (node : ConnectionNode queue) (id : ℕ) (c : T) (rest : List (ℕ × T))
      → items node.hot_queue ≡ (id, c) ∷ rest
      → Fits node.hot_queue
      → GoesBack node id c rest
  unfolding add_new_connection
  add-GoesBack node id c rest e fits =
      let q = (pop node.hot_queue).0 in
      let front = queue.pop_front node.hot_queue (id, c) rest e in
      let room : length (items q) < capacity q =
        rw (front.1, queue.capacity_pop node.hot_queue) (omega (arith, fits, ap length e)) in
      let pushed = queue.push_room q (id, c) room in
      record {
        now = record node { hot_queue = (push q (id, c)).0 };
        add_goes = rw (pushed.0) refl;
        pop_gives = front.0;
        items_now = pushed.1 ∙ ap (λ w. w ++ ((id, c) ∷ [])) front.1;
        listed_now = refl;
        fits_now =
            rw (pushed.1, queue.capacity_push q (id, c), length-append (items q) ((id, c) ∷ []))
              (omega (arith, room));
      }

  -- What the loop over the hot queue comes to: a result, and the queue's items then.
  record Loops (n id : ℕ) (node : ConnectionNode queue) (result : Option T) (left : List (ℕ × T))
      : Type 0 where
    after : ConnectionNode queue
    loops : remove_hot queue n id node ≡ (after, result)
    left_items : items after.hot_queue ≡ left
    same_listed : after.connections ≡ node.connections
    fits_after : Fits after.hot_queue

  -- One round over a connection that is not looked for.
  remove_hot-Loops_next :
      (n id j : ℕ) (c : T) (node : ConnectionNode queue) (rest left : List (ℕ × T))
      (result : Option T) (went : GoesBack node j c rest)
      → (id == j) ≡ false
      → Loops n id went.now result left
      → Loops (suc n) id node result left
  unfolding remove_hot
  remove_hot-Loops_next n id j c node rest left result went ne looped = record {
    after = looped.after;
    loops = ground (arith, went.pop_gives, went.add_goes, ne, looped.loops);
    left_items = looped.left_items;
    same_listed = looped.same_listed ∙ went.listed_now;
    fits_after = looped.fits_after;
  }

  -- A connection that is not in the queue: the queue goes round once.
  remove_hot-Loops_absent :
      (id : ℕ) (a done : List (ℕ × T)) (node : ConnectionNode queue)
      → items node.hot_queue ≡ a ++ done
      → find id a ≡ none
      → Fits node.hot_queue
      → Loops (length a) id node none (done ++ a)
  unfolding remove_hot
  remove_hot-Loops_absent id [] done node e absent fits = record {
    after = node;
    loops = refl;
    left_items = e ∙ sym (append-nil done);
    same_listed = refl;
    fits_after = fits;
  }
  remove_hot-Loops_absent id ((j, c) ∷ a) done node e absent fits =
      let went = add-GoesBack node j c (a ++ done) e fits in
      let ne : (id == j) ≡ false = ground (arith, absent) in
      let looped =
        remove_hot-Loops_absent id a (done ++ ((j, c) ∷ [])) went.now
          (went.items_now ∙ append_assoc a done ((j, c) ∷ [])) (ground (arith, absent))
          went.fits_now in
      remove_hot-Loops_next (length a) id j c node (a ++ done) (done ++ ((j, c) ∷ a)) none went ne
        (subst (Loops (length a) id went.now none) (append_assoc done ((j, c) ∷ []) a) looped)

  -- A connection that is in the queue: what was before it goes behind what is after it.
  remove_hot-Loops_found :
      (n id : ℕ) (a b done : List (ℕ × T)) (c : T) (node : ConnectionNode queue)
      → length a < n
      → items node.hot_queue ≡ (a ++ ((id, c) ∷ b)) ++ done
      → find id a ≡ none
      → Fits node.hot_queue
      → Loops n id node (some c) ((b ++ done) ++ a)
  unfolding remove_hot
  remove_hot-Loops_found zero id a b done c node enough e absent fits = absurd (omega arith)
  remove_hot-Loops_found (suc n) id [] b done c node enough e absent fits =
      let front = queue.pop_front node.hot_queue (id, c) (b ++ done) e in
      record {
        after = record node { hot_queue = (pop node.hot_queue).0 };
        loops = ground (arith, front.0);
        left_items = front.1 ∙ sym (append-nil (b ++ done));
        same_listed = refl;
        fits_after =
            rw (front.1, queue.capacity_pop node.hot_queue) (omega (arith, fits, ap length e));
      }
  remove_hot-Loops_found (suc n) id ((j, d) ∷ a) b done c node enough e absent fits =
      let went = add-GoesBack node j d ((a ++ ((id, c) ∷ b)) ++ done) e fits in
      let looped =
        remove_hot-Loops_found n id a b (done ++ ((j, d) ∷ [])) c went.now (omega arith)
          (went.items_now ∙ append_assoc (a ++ ((id, c) ∷ b)) done ((j, d) ∷ []))
          (ground (arith, absent)) went.fits_now in
      let order =
        ap (λ w. w ++ a) (sym (append_assoc b done ((j, d) ∷ [])))
        ∙ append_assoc (b ++ done) ((j, d) ∷ []) a in
      remove_hot-Loops_next n id j d node ((a ++ ((id, c) ∷ b)) ++ done)
        ((b ++ done) ++ ((j, d) ∷ a)) (some c) went (ground (arith, absent))
        (subst (Loops n id went.now (some c)) order looped)

  -- A node whose ids are all different, and whose hot queue has no more than it has room for.
  pub record IsSound (node : ConnectionNode queue) : Type 0 where
    pub distinct : Distinct (contents queue node)
    pub fits : Fits node.hot_queue

  -- The connection of an id is taken out, and no other is.
  pub record Removes (node : ConnectionNode queue) (id : ℕ) : Type 0 where
    pub gives : (remove_connection queue node id).1 ≡ find id (contents queue node)
    pub gone : find id (contents queue (remove_connection queue node id).0) ≡ none
    pub others :
        (k : ℕ)
        → k ≢ id
        → find k (contents queue (remove_connection queue node id).0) ≡ find k (contents queue node)

  -- What the loop leaves in the node.
  contents-Loops :
      (n id : ℕ) (node : ConnectionNode queue) (result : Option T) (left : List (ℕ × T))
      (looped : Loops n id node result left)
      → contents queue looped.after ≡ node.connections ++ left
  contents-Loops n id node result left looped = rw (looped.same_listed, looped.left_items) refl

  remove-Removes_absent :
      (node : ConnectionNode queue) (id : ℕ)
      → IsSound node
      → find id node.connections ≡ none
      → find id (items node.hot_queue) ≡ none
      → Removes node id
  unfolding remove_connection
  remove-Removes_absent node id sound unlisted absent =
      let hot = items node.hot_queue in
      let looped =
        remove_hot-Loops_absent id hot [] node (sym (append-nil hot)) absent sound.fits in
      let e : remove_connection queue node id ≡ (looped.after, none) =
        ground (arith, unlisted, queue.len_items node.hot_queue, looped.loops) in
      let same = contents-Loops (length hot) id node none hot looped in
      let missing : find id (contents queue node) ≡ none =
        rw (find-append id node.connections hot, unlisted, absent) refl in
      record {
        gives = rw (e, missing) refl;
        gone = rw (e, same, missing) refl;
        others = λ k ne. rw (e, same) refl;
      }

  remove-Removes_hot :
      (node : ConnectionNode queue) (id : ℕ) (c : T)
      → IsSound node
      → find id node.connections ≡ none
      → Split id (items node.hot_queue) c
      → Removes node id
  unfolding remove_connection
  remove-Removes_hot node id c sound unlisted place =
      let hot = items node.hot_queue in
      let a = place.before in
      let b = place.after in
      let listed = node.connections in
      let hot_distinct = Distinct-append_right listed hot sound.distinct in
      let without = Distinct-without id a b c (subst Distinct place.split hot_distinct) in
      let enough : length a < length hot =
        rw (place.split, length-append a ((id, c) ∷ b)) (omega arith) in
      let looped =
        remove_hot-Loops_found (length hot) id a b [] c node enough
          (place.split ∙ sym (append-nil (a ++ ((id, c) ∷ b)))) place.absent_before sound.fits in
      let e : remove_connection queue node id ≡ (looped.after, some c) =
        ground (arith, unlisted, queue.len_items node.hot_queue, looped.loops) in
      let left : contents queue looped.after ≡ listed ++ (b ++ a) =
        contents-Loops (length hot) id node (some c) ((b ++ []) ++ a) looped
        ∙ ap (λ w. listed ++ (w ++ a)) (append-nil b) in
      record {
        gives =
            rw (e, find-append id listed hot, unlisted, place.split)
              (sym (find_here id a b c place.absent_before));
        gone =
            rw (e, left, find-append id listed (b ++ a), unlisted)
              (find-swap id a b without.1 ∙ without.0);
        others = λ k ne.
            rw
              (
                e,
                left,
                find-append k listed (b ++ a),
                find-append k listed hot,
                place.split,
                find-swap k a b without.1,
                find-without k id a b c ne,
              )
              refl;
      }

  remove-Removes_listed :
      (node : ConnectionNode queue) (id : ℕ) (c : T)
      → IsSound node
      → find id node.connections ≡ some c
      → Removes node id
  unfolding remove_connection
  remove-Removes_listed node id c sound listed =
      let hot = items node.hot_queue in
      let left = remove id node.connections in
      let e : remove_connection queue node id ≡ (record node { connections = left }, some c) =
        ground (arith, listed) in
      let missing =
        find-remove_self id node.connections
          (Distinct-append_left node.connections hot sound.distinct) in
      record {
        gives = rw (e, find-append id node.connections hot, listed) refl;
        gone =
            rw (e, find-append id left hot, missing)
              (Distinct-apart id node.connections hot c sound.distinct listed);
        others = λ k ne.
            rw
              (
                e,
                find-append k left hot,
                find-append k node.connections hot,
                find-remove_ne k id node.connections ne,
              )
              refl;
      }

  -- In a node whose ids are all different and whose hot queue is in its bounds, `remove_connection`
  -- gives the connection of the id wherever it is, takes out that connection and no other, and
  -- gives none where the id is not there.
  pub remove_connection-Removes :
      (node : ConnectionNode queue) (id : ℕ) → IsSound node → Removes node id
  remove_connection-Removes node id sound = elim (Option-cases (find id node.connections)) [
    | inr (c, listed) ↦ remove-Removes_listed node id c sound listed
    | inl unlisted ↦ elim (Option-cases (find id (items node.hot_queue))) [
      | inl absent ↦ remove-Removes_absent node id sound unlisted absent
      | inr (c, found) ↦
          remove-Removes_hot node id c sound unlisted (find-Split id (items node.hot_queue) c found)
    ]
  ]
