-- ===== src/Pool/Manager.antt =====
-- core/src/pool/pool.rs: the connection pool, its nodes by group and the least-recently-used list.
-- Each call runs to its end before the next; a thread is named by a number.
use glaive.Prelude.{ℕ, suc, Option, none, some, Bool, List, [], ◌∷◌, if◌then◌else◌, find, insert}
use glaive.Pool.Queues.{ArrayQueue, HashOrder, LruCache, ThreadLocal}
use glaive.Pool.Lru.{Signals, ConnectionLru, new_lru, pop_connection}
use glaive.Pool.Lru
use glaive.Pool.Node.{ConnectionNode, new_node, get_available_connection, remove_connection}
use glaive.Pool.Node

pub record ConnectionMetadata : Type 0 where
  pub group_id : ℕ
  pub unique_id : ℕ

-- The connection with the sending end of its pick-up channel.
pub record ConnectionNotifier (S : Type 0) : Type 0 where
  pub pickup_notifier : ℕ
  pub connection : S

unfoldable pub pick_up_connection : {S : Type 0} → Signals → ConnectionNotifier S → Signals × S
pick_up_connection sig c = (record sig { pickups = c.pickup_notifier ∷ sig.pickups }, c.connection)

module _ {S : Type 0} (queue : ArrayQueue (ℕ × ConnectionNotifier S)) (order : HashOrder)
    (cache : LruCache (Lru.ConnectionNode ConnectionMetadata))
    (local : ThreadLocal cache.Cache) where
  -- The pool with the signals that have gone out.
  pub record ConnectionPool : Type 0 where
    pub pool : List (ℕ × ConnectionNode queue)
    pub lru : ConnectionLru cache local
    pub signals : Signals

  unfoldable pub new_pool : ℕ → ConnectionPool
  unfolding new_lru
  new_pool size = record {
    pool = [];
    lru = new_lru cache local size;
    signals = record { next = 0; removals = []; pickups = [] };
  }

  abbrev pub with_node : ConnectionPool → ℕ → ConnectionNode queue → ConnectionPool
  with_node p group node = record p { pool = insert group node p.pool }

  -- The node of a group, put into the pool where it is not there.
  unfoldable pub get_connection_node : ConnectionPool → ℕ → ConnectionPool × ConnectionNode queue
  unfolding new_node
  get_connection_node p group = elim (find group p.pool) [
    | some node ↦ (p, node)
    | none ↦ (with_node p group (new_node queue), new_node queue)
  ]

  abbrev pub picked :
      ConnectionPool
      → ℕ
      → ℕ
      → ConnectionNode queue × Option (ℕ × ConnectionNotifier S)
      → ConnectionPool × Option S
  unfolding pop_connection pick_up_connection
  picked p thread group (node, none) = (with_node p group node, none)
  picked p thread group (node, some (id, c)) =
      let sent = pick_up_connection p.signals c in
      (
        record p {
          pool = insert group node p.pool;
          lru = (pop_connection cache local p.lru thread id).0;
          signals = sent.0;
        },
        some sent.1,
      )

  unfoldable pub get_connection_from_pool : ConnectionPool → ℕ → ℕ → ConnectionPool × Option S
  unfolding get_available_connection pop_connection pick_up_connection
  get_connection_from_pool p thread group = elim (find group p.pool) [
    | none ↦ (p, none)
    | some node ↦ picked p thread group (get_available_connection queue order node)
  ]

  unfoldable pub remove_connection_from_pool : ConnectionPool → ConnectionMetadata → ConnectionPool
  unfolding remove_connection
  remove_connection_from_pool p meta = elim (find meta.group_id p.pool) [
    | none ↦ p
    | some node ↦ with_node p meta.group_id (remove_connection queue node meta.unique_id).0
  ]

  unfoldable pub close_connection : ConnectionPool → ℕ → ConnectionMetadata → ConnectionPool
  unfolding remove_connection_from_pool pop_connection
  close_connection p thread meta =
      let p' = remove_connection_from_pool p meta in
      record p' { lru = (pop_connection cache local p'.lru thread meta.unique_id).0 }

  abbrev pub remove_replaced : ConnectionPool → Option ConnectionMetadata → ConnectionPool
  unfolding remove_connection_from_pool
  remove_replaced p none = p
  remove_replaced p (some meta) = remove_connection_from_pool p meta

  -- The pool, the removal notifier and the pick-up channel.
  unfoldable pub add_connection :
      ConnectionPool → ℕ → ConnectionMetadata → S → ConnectionPool × (ℕ × ℕ)
  unfolding Lru.add_new_connection Node.add_new_connection get_connection_node
      remove_connection_from_pool
  add_connection p thread meta connection =
      let listed = Lru.add_new_connection cache local p.lru p.signals thread meta.unique_id meta in
      let p1 : ConnectionPool = record p { lru = listed.0; signals = listed.1.0 } in
      let p2 = remove_replaced p1 listed.1.1.1 in
      let found = get_connection_node p2 meta.group_id in
      let channel = p2.signals.next in
      let notifier : ConnectionNotifier S = record {
        pickup_notifier = channel;
        connection = connection;
      } in
      let node = Node.add_new_connection queue found.1 meta.unique_id notifier in
      (
        record (with_node found.0 meta.group_id node) {
          signals = record p2.signals { next = suc channel };
        },
        (listed.1.1.0, channel),
      )

  -- What `tokio::select!` of `connection_idle_timeout` met first.
  pub data IdleEvent : Type 0 where
    picked_up : IdleEvent
    evicted : IdleEvent
    timed_out : IdleEvent

  -- The branches are looked at in their order (`biased`).
  unfoldable pub idle_event : Bool → Bool → IdleEvent
  idle_event picked removed = if picked then picked_up else if removed then evicted else timed_out

  unfoldable pub connection_idle_timeout :
      ConnectionPool → ℕ → ConnectionMetadata → IdleEvent → ConnectionPool
  unfolding close_connection
  connection_idle_timeout p thread meta picked_up = p
  connection_idle_timeout p thread meta evicted = p
  connection_idle_timeout p thread meta timed_out = close_connection p thread meta
