-- ===== src/Scheduler/Queue/Order.antt =====
-- internal/scheduler/queue.go: sequences of Enqueue and Dequeue.
use gpu_scheduler.Common.{
  append-snoc, append-nil, List-cases, ◌≡◌, refl, sym, ap, ◌∙◌, ◌⊎◌, inl, inr, false, Option, none,
  some, List, [], ◌∷◌, ◌++◌, pos, ◌≤ℤ◌, ◌<ℤ◌, subst, leb_ℤ, leb_ℤ-false, length, length-append,
  arith, Bool-cases, Result, ok, err,
}
use gpu_scheduler.Types.{Job}
use gpu_scheduler.Scheduler.Queue.{FifoQueue, QueueError, queue_empty, enqueue, dequeue}

-- A call of Enqueue or Dequeue.
pub data Op : Type 0 where
  put : Job → Op
  get : Op

-- The queue after a sequence of calls, the jobs it took, and the jobs it gave back, each in order.
pub record Trace : Type 0 where
  pub queue : FifoQueue
  pub taken : List Job
  pub given : List Job

-- The trace with the outcome of a first call put before it.
abbrev pub after_put : Job → Option QueueError → Trace → Trace
after_put job none t = record t { taken = job ∷ t.taken }
after_put job (some e) t = t

abbrev pub after_get : Result QueueError Job → Trace → Trace
after_get (ok job) t = record t { given = job ∷ t.given }
after_get (err e) t = t

unfoldable pub run : FifoQueue → List Op → Trace
run q [] = record { queue = q; taken = []; given = [] }
run q (put job ∷ ops) = after_put job (enqueue q job).1 (run (enqueue q job).0 ops)
run q (get ∷ ops) = after_get (dequeue q).1 (run (dequeue q).0 ops)

-- What a sequence of calls promises.
abbrev pub IsFifo : FifoQueue → Trace → Type 0
IsFifo q t =
    (q.jobs ++ t.taken ≡ t.given ++ t.queue.jobs)
    × (pos (length t.queue.jobs) ≤ℤ t.queue.max_size)
    × (t.queue.max_size ≡ q.max_size)

enqueue_cases :
    (q : FifoQueue) (job : Job)
    → ((error : QueueError) × (enqueue q job ≡ (q, some error)))
      ⊎ ((enqueue q job ≡ (record q { jobs = q.jobs ++ job ∷ [] }, none))
          × (leb_ℤ q.max_size (pos (length q.jobs)) ≡ false))
unfolding enqueue
enqueue_cases q job = elim (Bool-cases (leb_ℤ q.max_size (pos (length q.jobs)))) [
  | inl e ↦ rw e (inl (_, refl))
  | inr e ↦ rw e (inr (refl, refl))
]

dequeue_cases :
    (q : FifoQueue)
    → ((e : QueueError) × (dequeue q ≡ (q, err e)))
      ⊎ ((job : Job) × (rest : List Job) × (q.jobs ≡ job ∷ rest)
          × (dequeue q ≡ (record q { jobs = rest }, ok job)))
unfolding dequeue
dequeue_cases q = elim (List-cases q.jobs) [
  | inl h ↦
      let put_back : List Job → FifoQueue × Result QueueError Job =
        λ js. (record q { jobs = js }, err queue_empty) in
      inl (queue_empty, rw (h, dequeue) (ap put_back h))
  | inr (job, rest, h) ↦ inr (job, rest, h, rw (h, dequeue) refl)
]

-- Any sequence of enqueues and dequeues, on a queue that holds at most its size: the jobs in the
-- queue before, followed by those it took, are those it gave back, followed by those in it after;
-- and it still holds at most its size, which does not change.
pub run-IsFifo :
    (q : FifoQueue) (ops : List Op) → pos (length q.jobs) ≤ℤ q.max_size → IsFifo q (run q ops)
unfolding run
run-IsFifo q [] fits = (append-nil q.jobs, fits, refl)
run-IsFifo q (put job ∷ ops) fits =
    let P : FifoQueue × Option QueueError → Type 0 =
      λ x. IsFifo q (after_put job x.1 (run x.0 ops)) in
    elim (enqueue_cases q job) [
      | inl (error, e) ↦ subst P (sym e) (run-IsFifo q ops fits)
      | inr (e, room) ↦
          let q' : FifoQueue = record q { jobs = q.jobs ++ job ∷ [] } in
          let less : pos (length q.jobs) <ℤ q.max_size =
            leb_ℤ-false q.max_size (pos (length q.jobs)) room in
          let (kept, small, same) =
            run-IsFifo q' ops (omega (arith, length-append q.jobs (job ∷ []), less)) in
          subst P (sym e) (sym (append-snoc q.jobs (run q' ops).taken job) ∙ kept, small, same)
    ]
run-IsFifo q (get ∷ ops) fits =
    let P : FifoQueue × Result QueueError Job → Type 0 =
      λ x. IsFifo q (after_get x.1 (run x.0 ops)) in
    elim (dequeue_cases q) [
      | inl (error, e) ↦ subst P (sym e) (run-IsFifo q ops fits)
      | inr (job, rest, h, e) ↦
          let q' : FifoQueue = record q { jobs = rest } in
          let (kept, small, same) = run-IsFifo q' ops (omega (arith, ap length h, fits)) in
          subst P (sym e) (ap (λ l. l ++ (run q' ops).taken) h ∙ ap (◌∷◌ job) kept, small, same)
    ]
