-- ===== src/Pool/Lru/Evicts.antt =====
-- core/src/pool/lru.rs: what an insertion evicts, and what draining does.
use glaive.Prelude.{
  ℕ, suc, ◌≤◌, ◌<◌, ◌≡◌, ◌≢◌, refl, ap, ◌∙◌, Option, none, some, false, List, [], ◌∷◌, ◌++◌, arith,
  ltb, Bool-cases, inl, inr, length, length-append, find, remove_absent,
}
use glaive.Pool.Queues.{LruCache, ThreadLocal}
use glaive.Pool.Lru.{Signals, ConnectionNode, notify_removal, ConnectionLru, own, insert_connection}

module _ {M : Type 0} (cache : LruCache (ConnectionNode M)) (local : ThreadLocal cache.Cache) where
  open cache use {unbounded, put, len, pop_lru, iter}
  open local use {get, set}

  -- The connections of a thread, the one used last first.
  abbrev pub entries : ConnectionLru cache local → ℕ → List (ℕ × ConnectionNode M)
  entries lru thread = iter (own cache local lru.lru_store thread)

  entries-set_self :
      (lru : ConnectionLru cache local) (thread : ℕ) (c : cache.Cache)
      → entries (record lru { lru_store = set lru.lru_store thread c }) thread ≡ iter c
  entries-set_self lru thread c = ground (arith, local.get_set_self lru.lru_store thread c)

  entries-set_ne :
      (lru : ConnectionLru cache local) (thread u : ℕ) (c : cache.Cache)
      → u ≢ thread
      → entries (record lru { lru_store = set lru.lru_store thread c }) u ≡ entries lru u
  entries-set_ne lru thread u c ne = ground (arith, local.get_set_ne lru.lru_store thread u c ne)

  -- What an insertion leaves of a thread's connections, what it signals, and what it gives.
  pub data Inserted (lru : ConnectionLru cache local) (sig : Signals) (thread id : ℕ)
      (node : ConnectionNode M) : List (ℕ × ConnectionNode M) → Signals × Option M → Type 0 where
    kept :
        length (entries lru thread) < lru.size_capacity
        → Inserted lru sig thread id node ((id, node) ∷ entries lru thread) (sig, none)
    evicted :
        (left : List (ℕ × ConnectionNode M)) (k : ℕ) (old : ConnectionNode M)
        → length (entries lru thread) ≡ lru.size_capacity
        → (id, node) ∷ entries lru thread ≡ left ++ ((k, old) ∷ [])
        → Inserted lru sig thread id node left (notify_removal sig old, some old.metadata)

  pub record Inserts (lru : ConnectionLru cache local) (sig : Signals) (thread id : ℕ)
      (node : ConnectionNode M) : Type 0 where
    pub after : ConnectionLru cache local
    pub sent : Signals × Option M
    pub inserts : insert_connection cache local lru sig thread id node ≡ (after, sent)
    pub inserted : Inserted lru sig thread id node (entries after thread) sent
    pub bounded : length (entries after thread) ≤ lru.size_capacity
    pub other_threads : (u : ℕ) → u ≢ thread → entries after u ≡ entries lru u

  -- The last of a list that is not empty.
  record Ends {A : Type 0} (l : List A) : Type 0 where
    front : List A
    last : A
    ends : l ≡ front ++ (last ∷ [])

  cons-Ends : {A : Type 0} (a : A) (l : List A) → Ends (a ∷ l)
  cons-Ends a [] = record { front = []; last = a; ends = refl }
  cons-Ends a (b ∷ l) =
      let rest = cons-Ends b l in
      record { front = a ∷ rest.front; last = rest.last; ends = ap (◌∷◌ a) rest.ends }

  -- A thread that holds no more than the capacity still does after it inserts a new connection: it
  -- keeps them all where there was room, and else evicts the one used longest ago, whose removal
  -- notifier is told and whose metadata is given. Other threads keep theirs.
  pub insert_connection-Inserts :
      (lru : ConnectionLru cache local) (sig : Signals) (thread id : ℕ) (node : ConnectionNode M)
      → lru.drain_status_flag ≡ false
      → find id (entries lru thread) ≡ none
      → length (entries lru thread) ≤ lru.size_capacity
      → Inserts lru sig thread id node
  unfolding insert_connection
  insert_connection-Inserts lru sig thread id node open_ fresh small =
      let m = entries lru thread in
      let c = put (own cache local lru.lru_store thread) id node in
      let now : iter c ≡ (id, node) ∷ m =
        cache.iter_put (own cache local lru.lru_store thread) id node
        ∙ ap (◌∷◌ (id, node)) (remove_absent id m fresh) in
      let count : len c ≡ suc (length m) = cache.len_iter c ∙ ap length now in
      elim (Bool-cases (ltb lru.size_capacity (len c))) [
        | inr e ↦
            let few : length m < lru.size_capacity = ground (arith, count) in
            let self = entries-set_self lru thread c in
            record {
              after = record lru { lru_store = set lru.lru_store thread c };
              sent = (sig, none);
              inserts = ground (arith, open_, e);
              inserted = rw (self, now) (kept few);
              bounded = rw (self, now) (omega (arith, few));
              other_threads = λ u ne. entries-set_ne lru thread u c ne;
            }
        | inl e ↦
            let end = cons-Ends (id, node) m in
            let popped = cache.pop_lru_last c end.front end.last (now ∙ end.ends) in
            let self = entries-set_self lru thread (pop_lru c).0 in
            let total = ap length end.ends ∙ length-append end.front (end.last ∷ []) in
            record {
              after = record lru { lru_store = set lru.lru_store thread (pop_lru c).0 };
              sent = (notify_removal sig end.last.1, some end.last.1.metadata);
              inserts = ground (arith, open_, e, popped.0);
              inserted =
                  rw (self, popped.1)
                    (evicted end.front end.last.0 end.last.1 (ground (arith, count, small))
                      end.ends);
              bounded = rw (self, popped.1) (omega (arith, total, small));
              other_threads = λ u ne. entries-set_ne lru thread u (pop_lru c).0 ne;
            }
      ]
