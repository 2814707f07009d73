-- ===== src/Relayer/Drain.antt =====
-- The states that an operation queue reaches, and the order in which it runs its operations.
use redstone_oracles_monorep.Prelude.{
  ℕ, zero, suc, ◌≡◌, refl, ap, ◌∙◌, inl, inr, ◌↔◌, arith, eq_iff, String, true, false, List, [],
  ◌∷◌, ◌++◌, length, any, str_eq, rev_append, Bool-cases, if◌then◌else◌,
}
use redstone_oracles_monorep.Relayer.OperationQueue.{
  Entry, OperationQueue, has_id, replace_first, delete_id, process_queue, enqueue, finish, enqueues,
  finishes, Reachable, starts, steps,
}

module _ (Operation : Type 0) where
  abbrev pub idle : List (Entry Operation) → OperationQueue Operation
  idle started = record {
    queue = [];
    is_processing = false;
    active_operations = [];
    started = started;
  }

  abbrev pub busy :
      List (Entry Operation) → String → List (Entry Operation) → OperationQueue Operation
  busy waiting id started = record {
    queue = waiting;
    is_processing = true;
    active_operations = id ∷ [];
    started = started;
  }

  abbrev pub DistinctIds : List (Entry Operation) → Type 0
  DistinctIds [] = Unit
  DistinctIds (entry ∷ rest) = (has_id Operation rest entry.id ≡ false) × DistinctIds rest

  -- Nothing runs and nothing waits, or one operation runs, of an identifier that does not wait, and
  -- no identifier waits twice.
  pub data IsSound : OperationQueue Operation → Type 0 where
    is_idle : (started : List (Entry Operation)) → IsSound (idle started)
    is_busy :
        (waiting : List (Entry Operation)) (id : String) (started : List (Entry Operation))
        → has_id Operation waiting id ≡ false
        → DistinctIds waiting
        → IsSound (busy waiting id started)

  has_id-replace_first :
      (waiting : List (Entry Operation)) (id : String) (operation : Operation) (j : String)
      → has_id Operation (replace_first Operation waiting id operation) j
        ≡ has_id Operation waiting j
  unfolding replace_first
  has_id-replace_first [] id operation j = refl
  has_id-replace_first (entry ∷ rest) id operation j =
      ground (arith, has_id-replace_first rest id operation j)

  replace_first-DistinctIds :
      (waiting : List (Entry Operation)) (id : String) (operation : Operation)
      → DistinctIds waiting
      → DistinctIds (replace_first Operation waiting id operation)
  unfolding replace_first
  replace_first-DistinctIds [] id operation d = tt
  replace_first-DistinctIds (entry ∷ rest) id operation d = elim (Bool-cases (str_eq entry.id id)) [
    | inl found ↦ rw found d
    | inr other ↦ rw other (
      has_id-replace_first rest id operation entry.id ∙ d.0,
      replace_first-DistinctIds rest id operation d.1,
    )
  ]

  has_id-append :
      (waiting : List (Entry Operation)) (entry : Entry Operation) (j : String)
      → has_id Operation (waiting ++ entry ∷ []) j
        ≡ (if has_id Operation waiting j then true else str_eq entry.id j)
  has_id-append [] entry j = ground arith
  has_id-append (first ∷ rest) entry j = ground (arith, has_id-append rest entry j)

  append-DistinctIds :
      (waiting : List (Entry Operation)) (entry : Entry Operation)
      → has_id Operation waiting entry.id ≡ false
      → DistinctIds waiting
      → DistinctIds (waiting ++ entry ∷ [])
  append-DistinctIds [] entry h d = (refl, tt)
  append-DistinctIds (first ∷ rest) entry h d = (
    ground (
      arith,
      has_id-append rest entry first.id,
      d.0,
      eq_iff entry.id first.id,
      eq_iff first.id entry.id,
    ),
    append-DistinctIds rest entry (ground arith) d.1,
  )

  enqueue-IsSound :
      (q : OperationQueue Operation) (id : String) (operation : Operation)
      → IsSound q
      → IsSound (enqueue Operation q id operation).1
  unfolding enqueue process_queue
  enqueue-IsSound _ id operation (is_idle started) =
      is_busy [] id (record { id = id; operation = operation } ∷ started) refl tt
  enqueue-IsSound _ id operation (is_busy waiting j started apart distinct) =
      elim (Bool-cases (has_id Operation waiting id)) [
        | inl queued ↦ rw queued (
            is_busy (replace_first Operation waiting id operation) j started
              (has_id-replace_first waiting id operation j ∙ apart)
              (replace_first-DistinctIds waiting id operation distinct))
        | inr fresh ↦ elim (Bool-cases (str_eq j id)) [
          | inl active ↦ rw (fresh, active) (is_busy waiting j started apart distinct)
          | inr other ↦
              rw (fresh, other)
                (is_busy (waiting ++ record { id = id; operation = operation } ∷ []) j started
                  (has_id-append waiting (record { id = id; operation = operation }) j
                    ∙ ground (arith, eq_iff id j, eq_iff j id))
                  (append-DistinctIds waiting (record { id = id; operation = operation }) fresh
                    distinct))
        ]
      ]

  delete_id-alone :
      (j id : String) (rest : List String)
      → ◌≡◌ {A = List String} (j ∷ []) (id ∷ rest)
      → delete_id Operation (j ∷ []) id ≡ []
  delete_id-alone j id rest e = let j≡id : j ≡ id = cc in ground (arith, eq_iff j id)

  finish-IsSound :
      (q : OperationQueue Operation) (id : String) (rest : List String)
      → IsSound q
      → q.active_operations ≡ id ∷ rest
      → IsSound (finish Operation q id)
  unfolding finish
  finish-IsSound _ id rest (is_idle started) e = is_idle started
  finish-IsSound _ id rest (is_busy [] j started apart distinct) e =
      rw (delete_id-alone j id rest e) (is_idle started)
  finish-IsSound _ id rest (is_busy (entry ∷ waiting) j started apart distinct) e =
      rw (delete_id-alone j id rest e)
        (is_busy waiting entry.id (entry ∷ started) distinct.0 distinct.1)

  -- In every state that a queue reaches, whatever the order of the calls of `enqueue` and of the ends
  -- of operations: at most one operation runs, none waits while none runs, no identifier waits
  -- twice, and the identifier of the running operation does not wait.
  pub Reachable-IsSound : (q : OperationQueue Operation) → Reachable Operation q → IsSound q
  Reachable-IsSound _ starts = is_idle []
  Reachable-IsSound _ (steps q _ h (enqueues id operation)) =
      enqueue-IsSound q id operation (Reachable-IsSound q h)
  Reachable-IsSound _ (steps q _ h (finishes id rest e)) =
      finish-IsSound q id rest (Reachable-IsSound q h) e

  enqueue_answer_sound :
      (q : OperationQueue Operation) (id : String) (operation : Operation)
      → IsSound q
      → ((enqueue Operation q id operation).0 ≡ false)
        ↔ (any (λ j. str_eq j id) q.active_operations ≡ true)
  unfolding enqueue process_queue
  enqueue_answer_sound _ id operation (is_idle started) = ((λ e. cc), (λ e. cc))
  enqueue_answer_sound _ id operation (is_busy waiting j started apart distinct) =
      elim (Bool-cases (has_id Operation waiting id)) [
        | inl queued ↦ (
          (λ e. ground arith),
          (λ e.
              let j≡id : j ≡ id = ground (arith, eq_iff j id) in
              let running : has_id Operation waiting id ≡ false = rw (← j≡id) apart in cc),
        )
        | inr fresh ↦ ((λ e. ground arith), (λ e. ground arith))
      ]

  -- The running operation ends, if one runs; and that as often as given.
  abbrev pub finish_first : List String → OperationQueue Operation → OperationQueue Operation
  finish_first [] q = q
  finish_first (id ∷ rest) q = finish Operation q id

  unfoldable pub drain : ℕ → OperationQueue Operation → OperationQueue Operation
  drain zero q = q
  drain (suc n) q = drain n (finish_first q.active_operations q)

  finish-busy :
      (waiting : List (Entry Operation)) (id : String) (started : List (Entry Operation))
      (entry : Entry Operation)
      → finish Operation (busy (entry ∷ waiting) id started) id
        ≡ busy waiting entry.id (entry ∷ started)
  unfolding finish
  finish-busy waiting id started entry = rw (delete_id-alone id id [] refl)

  drain-busy :
      (waiting : List (Entry Operation)) (id : String) (started : List (Entry Operation))
      → drain (suc (length waiting)) (busy waiting id started) ≡ idle (rev_append waiting started)
  unfolding drain finish
  drain-busy [] id started = rw (delete_id-alone id id [] refl)
  drain-busy (entry ∷ waiting) id started =
      ap (drain (suc (length waiting))) (finish-busy waiting id started entry)
      ∙ drain-busy waiting entry.id (entry ∷ started)

  drain_sound :
      (q : OperationQueue Operation)
      → IsSound q
      → drain (suc (length q.queue)) q ≡ idle (rev_append q.queue q.started)
  unfolding drain
  drain_sound _ (is_idle started) = refl
  drain_sound _ (is_busy waiting id started apart distinct) = drain-busy waiting id started

  -- From a state that the queue reaches, the operations that wait are all run, once each and in
  -- their order, when as many operations have ended as wait, and one more for the operation that
  -- runs; then nothing runs or waits.
  pub drain_reachable :
      (q : OperationQueue Operation)
      → Reachable Operation q
      → drain (suc (length q.queue)) q ≡ idle (rev_append q.queue q.started)
  drain_reachable q h = drain_sound q (Reachable-IsSound q h)
