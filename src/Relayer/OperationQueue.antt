-- ===== src/Relayer/OperationQueue.antt =====
-- runner/OperationQueue.ts. An operation's own code runs outside of the queue: the queue starts it,
-- and later it ends, with an error or not. Between the two other calls of `enqueue` may come.
use redstone_oracles_monorep.Prelude.{
  String, Bool, true, false, List, [], ◌∷◌, ◌++◌, if◌then◌else◌, any, filter, str_eq, not, ◌≡◌,
}

module _ (Operation : Type 0) where
  pub record Entry : Type 0 where
    pub id : String
    pub operation : Operation

  pub record OperationQueue : Type 0 where
    pub queue : List Entry
    pub is_processing : Bool
    pub active_operations : List String
    -- The operations started so far, the last one in front: what the queue does to the world.
    pub started : List Entry

  abbrev pub has_id : List Entry → String → Bool
  has_id entries id = any (λ entry. str_eq entry.id id) entries

  -- `this.queue[this.queue.findIndex((op) => op.id === id)].operation = operation`
  unfoldable pub replace_first : List Entry → String → Operation → List Entry
  replace_first [] id operation = []
  replace_first (entry ∷ rest) id operation =
      let replaced = replace_first rest id operation in
      if str_eq entry.id id
      then (record entry { operation = operation }) ∷ rest
      else entry ∷ replaced

  -- `Set.prototype.add` and `delete`
  abbrev pub add_id : List String → String → List String
  add_id ids id = if any (λ j. str_eq j id) ids then ids else ids ++ id ∷ []

  abbrev pub delete_id : List String → String → List String
  delete_id ids id = filter (λ j. not (str_eq j id)) ids

  -- The head of the loop of `processQueue`: it starts the first entry, or stops processing.
  abbrev pub next_entry : OperationQueue → List Entry → OperationQueue
  next_entry q [] = record q { is_processing = false }
  next_entry q (entry ∷ rest) = record q {
    queue = rest;
    active_operations = add_id q.active_operations entry.id;
    started = entry ∷ q.started;
  }

  unfoldable pub process_queue : OperationQueue → OperationQueue
  process_queue q =
      if q.is_processing then q else next_entry (record q { is_processing = true }) q.queue

  -- The return value, and the queue that the call leaves.
  unfoldable pub enqueue : OperationQueue → String → Operation → Bool × OperationQueue
  unfolding process_queue replace_first
  enqueue q id operation =
      if has_id q.queue id
      then (true, record q { queue = replace_first q.queue id operation })
      else (if any (λ j. str_eq j id) q.active_operations then (false, q) else (
        true,
        process_queue
            (record q { queue = q.queue ++ (record { id = id; operation = operation }) ∷ [] }),
      ))

  -- The awaited operation of `id` has ended: the `finally` block and the rest of the loop.
  unfoldable pub finish : OperationQueue → String → OperationQueue
  finish q id =
      next_entry (record q { active_operations = delete_id q.active_operations id }) q.queue

  abbrev pub empty_queue : OperationQueue
  empty_queue = record { queue = []; is_processing = false; active_operations = []; started = [] }

  -- What can happen to a queue.
  pub data Step (q : OperationQueue) : OperationQueue → Type 0 where
    enqueues : (id : String) (operation : Operation) → Step q (enqueue q id operation).1
    finishes :
        (id : String) (rest : List String) → q.active_operations ≡ id ∷ rest → Step q (finish q id)

  pub data Reachable : OperationQueue → Type 0 where
    starts : Reachable empty_queue
    steps : (q r : OperationQueue) → Reachable q → Step q r → Reachable r
