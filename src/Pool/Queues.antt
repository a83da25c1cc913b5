-- ===== src/Pool/Queues.antt =====
-- The interfaces of what the connection pool uses and does not implement: crossbeam's queue, the
-- `lru` crate's cache, the `thread_local` crate's store, and the order of a hash map's iteration.
use glaive.Prelude.{
  ℕ, ◌≤◌, ◌<◌, ◌≡◌, ◌≢◌, Option, none, some, List, [], ◌∷◌, ◌++◌, length, find, insert, remove, has,
  true,
}
use mathlib.Core.Option

-- `crossbeam_queue::ArrayQueue`: `push` gives the item back when the queue is full.
pub record ArrayQueue (A : Type 0) : Type 1 where
  pub Queue : Type 0
  pub new : ℕ → Queue
  pub push : Queue → A → Queue × Option A
  pub pop : Queue → Queue × Option A
  pub len : Queue → ℕ
  pub items : Queue → List A
  pub capacity : Queue → ℕ
  pub items_new : (n : ℕ) → items (new n) ≡ []
  pub capacity_new : (n : ℕ) → capacity (new n) ≡ n
  pub len_items : (q : Queue) → len q ≡ length (items q)
  pub push_room :
      (q : Queue) (a : A)
      → length (items q) < capacity q
      → ((push q a).1 ≡ none) × (items (push q a).0 ≡ items q ++ (a ∷ []))
  pub push_full :
      (q : Queue) (a : A)
      → capacity q ≤ length (items q)
      → ((push q a).1 ≡ some a) × (items (push q a).0 ≡ items q)
  pub capacity_push : (q : Queue) (a : A) → capacity (push q a).0 ≡ capacity q
  pub pop_empty : (q : Queue) → items q ≡ [] → ((pop q).1 ≡ none) × (items (pop q).0 ≡ [])
  pub pop_front :
      (q : Queue) (a : A) (rest : List A)
      → items q ≡ a ∷ rest
      → ((pop q).1 ≡ some a) × (items (pop q).0 ≡ rest)
  pub capacity_pop : (q : Queue) → capacity (pop q).0 ≡ capacity q

-- The first key that an iteration over a hash map meets is one of its keys.
pub record HashOrder : Type 0 where
  pub first : List ℕ → Option ℕ
  pub first_mem : (keys : List ℕ) (k : ℕ) → first keys ≡ some k → has k keys ≡ true
  pub first_none : (keys : List ℕ) → first keys ≡ none → keys ≡ []

-- `lru::LruCache`, whose iteration starts at the entry that was used last.
pub record LruCache (V : Type 0) : Type 1 where
  pub Cache : Type 0
  pub unbounded : Cache
  pub put : Cache → ℕ → V → Cache
  pub len : Cache → ℕ
  pub pop_lru : Cache → Cache × Option (ℕ × V)
  pub pop : Cache → ℕ → Cache × Option V
  pub clear : Cache → Cache
  pub iter : Cache → List (ℕ × V)
  pub iter_unbounded : iter unbounded ≡ []
  pub iter_put : (c : Cache) (k : ℕ) (v : V) → iter (put c k v) ≡ insert k v (iter c)
  pub len_iter : (c : Cache) → len c ≡ length (iter c)
  pub pop_lru_last :
      (c : Cache) (m : List (ℕ × V)) (e : ℕ × V)
      → iter c ≡ m ++ (e ∷ [])
      → ((pop_lru c).1 ≡ some e) × (iter (pop_lru c).0 ≡ m)
  pub pop_finds :
      (c : Cache) (k : ℕ) → ((pop c k).1 ≡ find k (iter c)) × (iter (pop c k).0 ≡ remove k (iter c))
  pub iter_clear : (c : Cache) → iter (clear c) ≡ []

-- `thread_local::ThreadLocal` of cells: each thread has its own, once it has made it.
pub record ThreadLocal (C : Type 0) : Type 1 where
  pub Locals : Type 0
  pub new : Locals
  pub get : Locals → ℕ → Option C
  pub set : Locals → ℕ → C → Locals
  pub all : Locals → List C
  pub update_all : (C → C) → Locals → Locals
  pub get_new : (t : ℕ) → get new t ≡ none
  pub get_set_self : (l : Locals) (t : ℕ) (c : C) → get (set l t c) t ≡ some c
  pub get_set_ne : (l : Locals) (t u : ℕ) (c : C) → u ≢ t → get (set l t c) u ≡ get l u
  pub get_update_all :
      (f : C → C) (l : Locals) (t : ℕ) → get (update_all f l) t ≡ Option.map f (get l t)
  pub all_get :
      (l : Locals) (t : ℕ) (c : C)
      → get l t ≡ some c
      → (before : List C) × ((after : List C) × (all l ≡ before ++ (c ∷ after)))
