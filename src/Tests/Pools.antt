-- ===== src/Tests/Pools.antt =====
-- Concrete queues, caches and stores for the connection pool, tests of it, and instances of its
-- theorems.
use glaive.Prelude.{
  ℕ, ◌≤◌, ◌<◌, ◌≡◌, ◌≢◌, refl, ap, ◌∙◌, Option, none, some, true, false, List, [], ◌∷◌, ◌++◌, map,
  arith, leb, ◌==◌, if◌then◌else◌, Bool-cases, inl, inr, length, find, insert, remove, has,
  find-remove_ne, find-Split,
}
use mathlib.Core.Option
use glaive.Pool.Queues.{ArrayQueue, HashOrder, LruCache, ThreadLocal}
use glaive.Pool.Lru.{Signals, ConnectionLru}
use glaive.Pool.Lru
use glaive.Pool.Node.{ConnectionNode, contents}
use glaive.Pool.Node
use glaive.Pool.Node.Rotation.{IsSound, Removes, remove_connection-Removes}
use glaive.Pool.Node.Supply.{Adds, add_new_connection-Adds, Gets, get_available_connection-Gets}
use glaive.Pool.Lru.Evicts.{Inserts, insert_connection-Inserts}
use glaive.Pool.Lru.Drains.{Drains, drain_connections-Drains}
use glaive.Pool.Manager
use glaive.Pool.Manager.{
  ConnectionMetadata, ConnectionNotifier, ConnectionPool, new_pool, add_connection,
  get_connection_from_pool, close_connection,
}

record Ring (A : Type 0) : Type 0 where
  held : List A
  room : ℕ

module _ {A : Type 0} where
  abbrev ring_push : Ring A → A → Ring A × Option A
  ring_push q a =
      if leb q.room (length q.held)
      then (q, some a)
      else (record q { held = q.held ++ (a ∷ []) }, none)

  abbrev pop_list : List A → List A × Option A
  pop_list [] = ([], none)
  pop_list (a ∷ rest) = (rest, some a)

  ring_push_room :
      (q : Ring A) (a : A)
      → length q.held < q.room
      → ((ring_push q a).1 ≡ none) × ((ring_push q a).0.held ≡ q.held ++ (a ∷ []))
  ring_push_room q a h =
      let e : leb q.room (length q.held) ≡ false = ground arith in (rw e refl, rw e refl)

  ring_push_full :
      (q : Ring A) (a : A)
      → q.room ≤ length q.held
      → ((ring_push q a).1 ≡ some a) × ((ring_push q a).0.held ≡ q.held)
  ring_push_full q a h =
      let e : leb q.room (length q.held) ≡ true = ground arith in (rw e refl, rw e refl)

  capacity_ring_push : (q : Ring A) (a : A) → (ring_push q a).0.room ≡ q.room
  capacity_ring_push q a = elim (Bool-cases (leb q.room (length q.held))) [
    | inl e ↦ rw e refl
    | inr e ↦ rw e refl
  ]

  abbrev ring_pop : Ring A → Ring A × Option A
  ring_pop q = (record q { held = (pop_list q.held).0 }, (pop_list q.held).1)

  ring_pop_empty : (q : Ring A) → q.held ≡ [] → ((ring_pop q).1 ≡ none) × ((ring_pop q).0.held ≡ [])
  ring_pop_empty q e = (rw e refl, rw e refl)

  ring_pop_front :
      (q : Ring A) (a : A) (rest : List A)
      → q.held ≡ a ∷ rest
      → ((ring_pop q).1 ≡ some a) × ((ring_pop q).0.held ≡ rest)
  ring_pop_front q a rest e = (rw e refl, rw e refl)

  abbrev ring : ArrayQueue A
  ring = record {
    Queue = Ring A;
    new = λ n. record { held = []; room = n };
    push = ring_push;
    pop = ring_pop;
    len = λ q. length q.held;
    items = λ q. q.held;
    capacity = λ q. q.room;
    items_new = λ n. refl;
    capacity_new = λ n. refl;
    len_items = λ q. refl;
    push_room = ring_push_room;
    push_full = ring_push_full;
    capacity_push = capacity_ring_push;
    pop_empty = ring_pop_empty;
    pop_front = ring_pop_front;
    capacity_pop = λ q. refl;
  }

  abbrev pop_last : List A → List A × Option A
  pop_last [] = ([], none)
  pop_last (a ∷ []) = ([], some a)
  pop_last (a ∷ (b ∷ l)) = let rest = pop_last (b ∷ l) in (a ∷ rest.0, rest.1)

  pop_last_snoc : (m : List A) (a : A) → pop_last (m ++ (a ∷ [])) ≡ (m, some a)
  pop_last_snoc [] a = refl
  pop_last_snoc (b ∷ []) a = refl
  pop_last_snoc (b ∷ (c ∷ m)) a = rw (pop_last_snoc (c ∷ m) a) refl

  pop_last-last :
      (l m : List A) (a : A) → l ≡ m ++ (a ∷ []) → ((pop_last l).1 ≡ some a) × ((pop_last l).0 ≡ m)
  pop_last-last l m a e = (rw (e, pop_last_snoc m a) refl, rw (e, pop_last_snoc m a) refl)

abbrev lowest : List ℕ → Option ℕ
lowest [] = none
lowest (k ∷ keys) = some k

lowest-has : (keys : List ℕ) (k : ℕ) → lowest keys ≡ some k → has k keys ≡ true
lowest-has [] k e = absurd cc
lowest-has (j ∷ keys) k e = ground (arith, e)

lowest-none : (keys : List ℕ) → lowest keys ≡ none → keys ≡ []
lowest-none [] e = refl
lowest-none (k ∷ keys) e = absurd cc

abbrev order : HashOrder
order = record { first = lowest; first_mem = lowest-has; first_none = lowest-none }

abbrev recent : {V : Type 0} → LruCache V
recent {V} = record {
  Cache = List (ℕ × V);
  unbounded = [];
  put = λ c k v. insert k v c;
  len = λ c. length c;
  pop_lru = pop_last;
  pop = λ c k. (remove k c, find k c);
  clear = λ c. [];
  iter = λ c. c;
  iter_unbounded = refl;
  iter_put = λ c k v. refl;
  len_iter = λ c. refl;
  pop_lru_last = pop_last-last;
  pop_finds = λ c k. (refl, refl);
  iter_clear = λ c. refl;
}

module _ {C : Type 0} where
  abbrev update : (C → C) → List (ℕ × C) → List (ℕ × C)
  update f l = map (λ e. (e.0, f e.1)) l

  find-insert_self : (l : List (ℕ × C)) (t : ℕ) (c : C) → find t (insert t c l) ≡ some c
  find-insert_self l t c = ground arith

  find-insert_ne : (l : List (ℕ × C)) (t u : ℕ) (c : C) → u ≢ t → find u (insert t c l) ≡ find u l
  find-insert_ne l t u c ne = ground (arith, find-remove_ne u t l ne)

  find-update :
      (f : C → C) (l : List (ℕ × C)) (t : ℕ) → find t (update f l) ≡ Option.map f (find t l)
  find-update f [] t = refl
  find-update f ((j, c) ∷ l) t = elim (Bool-cases (t == j)) [
    | inl e ↦ rw e refl
    | inr e ↦ rw e (find-update f l t)
  ]

  values-append :
      (l m : List (ℕ × C)) → map (λ e. e.1) (l ++ m) ≡ map (λ e. e.1) l ++ map (λ e. e.1) m
  values-append [] m = refl
  values-append (e ∷ l) m = ap (◌∷◌ e.1) (values-append l m)

  values-find :
      (l : List (ℕ × C)) (t : ℕ) (c : C)
      → find t l ≡ some c
      → (before : List C) × ((after : List C) × (map (λ e. e.1) l ≡ before ++ (c ∷ after)))
  values-find l t c e =
      let at = find-Split t l c e in
      (
        map (λ e. e.1) at.before,
        (
          map (λ e. e.1) at.after,
          ap (map (λ e. e.1)) at.split ∙ values-append at.before ((t, c) ∷ at.after),
        ),
      )

  abbrev threads : ThreadLocal C
  threads = record {
    Locals = List (ℕ × C);
    new = [];
    get = λ l t. find t l;
    set = λ l t c. insert t c l;
    all = λ l. map (λ e. e.1) l;
    update_all = update;
    get_new = λ t. refl;
    get_set_self = find-insert_self;
    get_set_ne = find-insert_ne;
    get_update_all = find-update;
    all_get = values-find;
  }

-- A node with a full queue of three, and one more in the list.
abbrev node : ConnectionNode {T = ℕ} ring
node = record {
  connections = (9, 109) ∷ [];
  hot_queue = record { held = (7, 107) ∷ ((8, 108) ∷ ((6, 106) ∷ [])); room = 3 };
}

node-IsSound : IsSound ring node
node-IsSound = record { distinct = (refl, (refl, (refl, (refl, tt)))); fits = omega arith }

removes_hot :
    Node.remove_connection ring node 8
    ≡ (record node { hot_queue = record { held = (6, 106) ∷ ((7, 107) ∷ []); room = 3 } }, some 108)
unfolding Node.remove_connection Node.remove_hot Node.add_new_connection
removes_hot = refl

remove_connection-Removes_example : Removes ring node 8
remove_connection-Removes_example = remove_connection-Removes ring node 8 node-IsSound

add_new_connection-Adds_example : Adds ring node 5 105
add_new_connection-Adds_example = add_new_connection-Adds ring node 5 105 node-IsSound refl

get_available_connection-Gets_example : Gets ring order node
get_available_connection-Gets_example = get_available_connection-Gets ring order node node-IsSound

abbrev quiet : Signals
quiet = record { next = 3; removals = []; pickups = [] }

-- Thread 1 has two connections, and room for two.
abbrev full : ConnectionLru {M = ℕ} recent threads
full = record {
  lru_store =
      (
        1,
        (21, record { removal_notifier = 2; metadata = 121 })
            ∷ ((20, record { removal_notifier = 1; metadata = 120 }) ∷ []),
      )
      ∷ [];
  size_capacity = 2;
  drain_status_flag = false;
}

insert_connection-Inserts_example :
    Inserts recent threads full quiet 1 22 (record { removal_notifier = 3; metadata = 122 })
insert_connection-Inserts_example =
    insert_connection-Inserts recent threads full quiet 1 22
      (record { removal_notifier = 3; metadata = 122 }) refl refl (omega arith)

drain_connections-Drains_example : Drains recent threads full quiet
drain_connections-Drains_example = drain_connections-Drains recent threads full quiet

-- Three connections with room for two: the first is evicted, and the second is found first.
abbrev pooled : ConnectionPool {S = ℕ} ring order recent threads
unfolding new_pool add_connection
pooled =
    let p0 = new_pool ring order recent threads 2 in
    let p1 =
      (add_connection ring order recent threads p0 1 (record { group_id = 40; unique_id = 1 })
        501).0 in
    let p2 =
      (add_connection ring order recent threads p1 1 (record { group_id = 40; unique_id = 2 })
        502).0 in
    (add_connection ring order recent threads p2 1 (record { group_id = 41; unique_id = 3 }) 503).0

abbrev pool_program : Unit {0}
unfolding pooled new_pool add_connection get_connection_from_pool Manager.get_connection_node
    Manager.remove_connection_from_pool Manager.pick_up_connection Lru.new_lru
    Lru.add_new_connection Lru.insert_connection Lru.new_node Lru.notify_removal Lru.pop_connection
    Node.new_node Node.remove_connection Node.remove_hot Node.add_new_connection
    Node.get_available_connection
pool_program = tt

finds_second : (get_connection_from_pool ring order recent threads pooled 1 40).1 ≡ some 502
unfolding pool_program
finds_second = refl

tells_first : pooled.signals.removals ≡ 0 ∷ []
unfolding pool_program
tells_first = refl

finds_once :
    (get_connection_from_pool ring order recent threads
      (get_connection_from_pool ring order recent threads pooled 1 40).0
      1
      40).1
    ≡ none
unfolding pool_program
finds_once = refl
