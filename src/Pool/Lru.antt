-- ===== src/Pool/Lru.antt =====
-- core/src/pool/lru.rs: the least-recently-used list of the connections, one per thread, and the
-- notifications of those that it evicts.
pub mod Evicts
pub mod Drains
use glaive.Prelude.{
  ℕ, suc, Option, none, some, Bool, true, false, List, [], ◌∷◌, map, ltb, if◌then◌else◌,
}
use mathlib.Core.List.{flatten}
use glaive.Pool.Queues.{LruCache, ThreadLocal}

-- `Notify` and `oneshot` are told apart by numbers; what was sent is kept, the last first.
pub record Signals : Type 0 where
  pub next : ℕ
  pub removals : List ℕ
  pub pickups : List ℕ

pub record ConnectionNode (M : Type 0) : Type 0 where
  pub removal_notifier : ℕ
  pub metadata : M

module _ {M : Type 0} where
  unfoldable pub new_node : Signals → M → Signals × ConnectionNode M
  new_node sig metadata = (
    record sig { next = suc sig.next },
    record { removal_notifier = sig.next; metadata = metadata },
  )

  unfoldable pub notify_removal : Signals → ConnectionNode M → Signals
  notify_removal sig node = record sig { removals = node.removal_notifier ∷ sig.removals }

  unfoldable pub notify_all : Signals → List (ℕ × ConnectionNode M) → Signals
  unfolding notify_removal
  notify_all sig [] = sig
  notify_all sig ((id, node) ∷ nodes) = notify_all (notify_removal sig node) nodes

module _ {M : Type 0} (cache : LruCache (ConnectionNode M)) (local : ThreadLocal cache.Cache) where
  open cache use {Cache, unbounded, put, len, pop_lru, pop, clear, iter}
  open local use {Locals, new, get, set, all, update_all}

  pub record ConnectionLru : Type 0 where
    pub lru_store : Locals
    pub size_capacity : ℕ
    pub drain_status_flag : Bool

  unfoldable pub new_lru : ℕ → ConnectionLru
  new_lru size = record { lru_store = new; size_capacity = size; drain_status_flag = false }

  -- `get_or(|| LruCache::unbounded())`.
  abbrev pub own : Locals → ℕ → Cache
  own store thread = elim (get store thread) [ none ↦ unbounded | some c ↦ c ]

  abbrev pub evicted : Signals → Option (ℕ × ConnectionNode M) → Signals × Option M
  unfolding notify_removal
  evicted sig none = (sig, none)
  evicted sig (some (id, node)) = (notify_removal sig node, some node.metadata)

  abbrev pub with_cache : ConnectionLru → ℕ → Cache → ConnectionLru
  with_cache lru thread c = record lru { lru_store = set lru.lru_store thread c }

  unfoldable pub insert_connection :
      ConnectionLru → Signals → ℕ → ℕ → ConnectionNode M → ConnectionLru × (Signals × Option M)
  unfolding notify_removal
  insert_connection lru sig thread id node =
      let c = put (own lru.lru_store thread) id node in
      if lru.drain_status_flag
      then (lru, (notify_removal sig node, none))
      else if ltb lru.size_capacity (len c)
      then (with_cache lru thread (pop_lru c).0, evicted sig (pop_lru c).1)
      else (with_cache lru thread c, (sig, none))

  -- The store, the signals, the notifier of the new connection and what it replaced.
  unfoldable pub add_new_connection :
      ConnectionLru → Signals → ℕ → ℕ → M → ConnectionLru × (Signals × (ℕ × Option M))
  unfolding new_node insert_connection
  add_new_connection lru sig thread id metadata =
      let made = new_node sig metadata in
      let r = insert_connection lru made.0 thread id made.1 in
      (r.0, (r.1.0, (made.1.removal_notifier, r.1.1)))

  unfoldable pub pop_connection : ConnectionLru → ℕ → ℕ → ConnectionLru × Option (ConnectionNode M)
  pop_connection lru thread id =
      let popped = pop (own lru.lru_store thread) id in (with_cache lru thread popped.0, popped.1)

  unfoldable pub drain_connections : ConnectionLru → Signals → ConnectionLru × Signals
  drain_connections lru sig = (
    record lru { lru_store = update_all clear lru.lru_store; drain_status_flag = true },
    notify_all sig (flatten (map iter (all lru.lru_store))),
  )
