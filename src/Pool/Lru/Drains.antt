-- ===== src/Pool/Lru/Drains.antt =====
-- core/src/pool/lru.rs: what draining does, and what it leaves behind.
use glaive.Prelude.{
  ℕ, ◌≡◌, refl, sym, ap, ◌∙◌, none, some, true, List, [], ◌∷◌, ◌++◌, map, arith, ◌==◌, Bool-cases,
  Option-cases, inl, inr, find, has, append_assoc,
}
use mathlib.Core.List.{flatten}
use glaive.Pool.Queues.{LruCache, ThreadLocal}
use glaive.Pool.Lru.{
  Signals, ConnectionNode, notify_removal, notify_all, ConnectionLru, insert_connection,
  drain_connections,
}
use glaive.Pool.Lru.Evicts.{entries}

module _ {M : Type 0} where
  notify_all-keeps :
      (n : ℕ) (sig : Signals) (nodes : List (ℕ × ConnectionNode M))
      → has n sig.removals ≡ true
      → has n (notify_all sig nodes).removals ≡ true
  unfolding notify_all notify_removal
  notify_all-keeps n sig [] h = h
  notify_all-keeps n sig ((id, node) ∷ nodes) h =
      notify_all-keeps n (notify_removal sig node) nodes (ground (arith, h))

  -- Each of the nodes is told.
  notify_all-tells :
      (k : ℕ) (node : ConnectionNode M) (sig : Signals) (nodes more : List (ℕ × ConnectionNode M))
      → find k nodes ≡ some node
      → has node.removal_notifier (notify_all sig (nodes ++ more)).removals ≡ true
  unfolding notify_all notify_removal
  notify_all-tells k node sig [] more e = absurd cc
  notify_all-tells k node sig ((j, other) ∷ nodes) more e = elim (Bool-cases (k == j)) [
    | inl t ↦
        let same : other ≡ node = ground (arith, e) in
        notify_all-keeps node.removal_notifier (notify_removal sig other) (nodes ++ more)
          (rw same (ground arith))
    | inr t ↦ notify_all-tells k node (notify_removal sig other) nodes more (ground (arith, e))
  ]

  notify_all-append :
      (sig : Signals) (nodes more : List (ℕ × ConnectionNode M))
      → notify_all sig (nodes ++ more) ≡ notify_all (notify_all sig nodes) more
  unfolding notify_all
  notify_all-append sig [] more = refl
  notify_all-append sig ((id, node) ∷ nodes) more =
      notify_all-append (notify_removal sig node) nodes more

module _ {M : Type 0} (cache : LruCache (ConnectionNode M)) (local : ThreadLocal cache.Cache) where
  open cache use {Cache, unbounded, clear, iter}
  open local use {get, all, update_all}

  pub record Drains (lru : ConnectionLru cache local) (sig : Signals) : Type 0 where
    pub none_left :
        (thread : ℕ) → entries cache local (drain_connections cache local lru sig).0 thread ≡ []
    pub told :
        (thread k : ℕ) (node : ConnectionNode M)
        → find k (entries cache local lru thread) ≡ some node
        → has node.removal_notifier (drain_connections cache local lru sig).1.removals ≡ true
    pub refuses :
        (sig' : Signals) (thread id : ℕ) (node : ConnectionNode M)
        → insert_connection cache local
            (drain_connections cache local lru sig).0
            sig'
            thread
            id
            node
          ≡ ((drain_connections cache local lru sig).0, (notify_removal sig' node, none))

  flatten-map :
      (before after : List Cache) (c : Cache)
      → flatten (map iter (before ++ (c ∷ after)))
        ≡ flatten (map iter before) ++ (iter c ++ flatten (map iter after))
  unfolding flatten
  flatten-map [] after c = refl
  flatten-map (d ∷ before) after c =
      ap (λ w. iter d ++ w) (flatten-map before after c)
      ∙ sym (append_assoc (iter d) (flatten (map iter before)) (iter c ++ flatten (map iter after)))

  told_at :
      (lru : ConnectionLru cache local) (sig : Signals) (thread k : ℕ) (node : ConnectionNode M)
      → find k (entries cache local lru thread) ≡ some node
      → has node.removal_notifier (drain_connections cache local lru sig).1.removals ≡ true
  unfolding drain_connections
  told_at lru sig thread k node e = elim (Option-cases (get lru.lru_store thread)) [
    | inl f ↦ absurd (ground (arith, f, e, cache.iter_unbounded))
    | inr (c, f) ↦
        let here : find k (iter c) ≡ some node = ground (arith, f, e) in
        let (before, (after, eq)) = local.all_get lru.lru_store thread c f in
        let first = flatten (map iter before) in
        let rest = flatten (map iter after) in
        rw (eq, flatten-map before after c, notify_all-append sig first (iter c ++ rest))
          (notify_all-tells k node (notify_all sig first) (iter c) rest here)
  ]

  none_left_at :
      (lru : ConnectionLru cache local) (sig : Signals) (thread : ℕ)
      → entries cache local (drain_connections cache local lru sig).0 thread ≡ []
  unfolding drain_connections
  none_left_at lru sig thread =
      let cleared = local.get_update_all clear lru.lru_store thread in
      elim (Option-cases (get lru.lru_store thread)) [
        | inl f ↦ ground (arith, cleared, f, cache.iter_unbounded)
        | inr (c, f) ↦ ground (arith, cleared, f, cache.iter_clear c)
      ]

  -- After `drain_connections` no thread has a connection, the removal notifier of each that any
  -- had has been told, and every later insertion is refused: its own notifier is told at once, and
  -- nothing is stored.
  pub drain_connections-Drains : (lru : ConnectionLru cache local) (sig : Signals) → Drains lru sig
  unfolding drain_connections insert_connection
  drain_connections-Drains lru sig = record {
    none_left = λ thread. none_left_at lru sig thread;
    told = λ thread k node e. told_at lru sig thread k node e;
    refuses = λ sig' thread id node. refl;
  }
