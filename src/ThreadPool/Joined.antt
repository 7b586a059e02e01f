-- ===== src/ThreadPool/Joined.antt =====
-- The destructor's joins: how long they wait, and what has become of the tasks when they are over.
use live_trading_engine.Common.{
  ℕ, zero, suc, ◌+◌, ◌*◌, ◌<◌, ◌≡◌, refl, sym, ap, ◌∙◌, Bool, true, false, some, List, [], ◌∷◌,
  ◌++◌, arith, ◌⊎◌, inl, inr, subst, Bool-cases, length, length-append,
}
use mathlib.Core.List.{append-nil}
use live_trading_engine.ThreadPool.{
  Worker, waiting, executing, returned, ThreadPool, Progress, work, stop_pool, joined,
}
use live_trading_engine.ThreadPool.Runs.{
  pool_with, Reaches, worked, stopped, count, current, has_returned, Reaches-IsSound,
}

module _ {ℓ} {T : Type ℓ} where
  -- So many steps of the workers, in any order, and nothing else.
  pub data Works : ℕ → ThreadPool T → ThreadPool T → Type ℓ where
    rests : (p : ThreadPool T) → Works zero p p
    steps :
        (n : ℕ) (before after : List (Worker T)) (w : Worker T) (queue : List T) (stop : Bool)
        (d : Progress T) (q : ThreadPool T)
        → work stop queue w ≡ some d
        → Works n (pool_with before d.worker after d.tasks stop) q
        → Works (suc n) (pool_with before w after queue stop) q

  -- The steps that a worker has before it, and those of the pool: a task in the queue costs two.
  abbrev pub cost : Worker T → ℕ
  cost waiting = 1
  cost (executing task) = 2
  cost returned = 0

  abbrev pub costs : List (Worker T) → ℕ
  costs [] = 0
  costs (w ∷ ws) = cost w + costs ws

  abbrev pub remaining : ThreadPool T → ℕ
  remaining p = 2 * length p.tasks + costs p.workers

  costs-append : (ws vs : List (Worker T)) → costs (ws ++ vs) ≡ costs ws + costs vs
  costs-append [] vs = omega arith
  costs-append (w ∷ ws) vs = omega (arith, costs-append ws vs)

  length-work :
      (stop : Bool) (queue : List T) (w : Worker T) (d : Progress T)
      → work stop queue w ≡ some d
      → suc (2 * length d.tasks + cost d.worker) ≡ 2 * length queue + cost w
  unfolding work
  length-work true [] waiting d e = ground arith
  length-work false [] waiting d e = cc
  length-work stop (task ∷ rest) waiting d e = ground arith
  length-work stop queue (executing task) d e = ground arith
  length-work stop queue returned d e = cc

  record Keeps (n : ℕ) (p q : ThreadPool T) : Type ℓ where
    shorter : n + remaining q ≡ remaining p
    same_stop : q.stop ≡ p.stop
    same_workers : length q.workers ≡ length p.workers

  Works-Keeps : {n : ℕ} {p q : ThreadPool T} → Works n p q → Keeps n p q
  Works-Keeps (rests p) = record { shorter = omega arith; same_stop = refl; same_workers = refl }
  Works-Keeps (steps n before after w queue stop d q e run) =
      let k = Works-Keeps run in
      record {
        shorter = omega (
          arith,
          k.shorter,
          length-work stop queue w d e,
          costs-append before (w ∷ after),
          costs-append before (d.worker ∷ after),
        );
        same_stop = k.same_stop;
        same_workers = omega (
          arith,
          k.same_workers,
          length-append {A = Worker T} before (w ∷ after),
          length-append {A = Worker T} before (d.worker ∷ after),
        );
      }

  Works-Reaches :
      {n : ℕ} {p q : ThreadPool T} (es taken completed : List T)
      → Works n p q
      → Reaches es taken completed p
      → (taken' : List T) × (completed' : List T) × Reaches es taken' completed' q
  Works-Reaches es taken completed (rests p) r = (taken, completed, r)
  Works-Reaches es taken completed (steps n before after w queue stop d q e run) r =
      Works-Reaches es (taken ++ d.taken) (completed ++ d.completed) run
        (worked es taken completed before after w queue stop d r e)

  -- A worker that can step, with its place among the others.
  record Ready (stop : Bool) (queue : List T) (ws : List (Worker T)) : Type ℓ where
    before : List (Worker T)
    worker : Worker T
    after : List (Worker T)
    progress : Progress T
    placed : ws ≡ before ++ (worker ∷ after)
    works : work stop queue worker ≡ some progress

  abbrev ready_before :
      (stop : Bool) (queue : List T) (w : Worker T) (ws : List (Worker T))
      → Ready stop queue ws
      → Ready stop queue (w ∷ ws)
  ready_before stop queue w ws r = record {
    before = w ∷ r.before;
    worker = r.worker;
    after = r.after;
    progress = r.progress;
    placed = ap (λ vs. w ∷ vs) r.placed;
    works = r.works;
  }

  -- Once the pool is stopped, either a worker can step or every worker has returned.
  Ready-joined : (queue : List T) (ws : List (Worker T)) → Ready true queue ws ⊎ (joined ws ≡ true)
  unfolding work joined
  Ready-joined queue [] = inr refl
  Ready-joined [] (waiting ∷ ws) = inl (record {
    before = [];
    worker = waiting;
    after = ws;
    progress = record { worker = returned; tasks = []; taken = []; completed = [] };
    placed = refl;
    works = refl;
  })
  Ready-joined (task ∷ rest) (waiting ∷ ws) = inl (record {
    before = [];
    worker = waiting;
    after = ws;
    progress = record { worker = executing task; tasks = rest; taken = task ∷ []; completed = [] };
    placed = refl;
    works = refl;
  })
  Ready-joined queue (executing task ∷ ws) = inl (record {
    before = [];
    worker = executing task;
    after = ws;
    progress = record { worker = waiting; tasks = queue; taken = []; completed = task ∷ [] };
    placed = refl;
    works = refl;
  })
  Ready-joined queue (returned ∷ ws) = elim (Ready-joined queue ws) [
    | inl r ↦ inl (ready_before true queue returned ws r)
    | inr e ↦ inr e
  ]

  ready_of : (queue : List T) (ws : List (Worker T)) → joined ws ≡ false → Ready true queue ws
  ready_of queue ws e = elim (Ready-joined queue ws) [ inl r ↦ r | inr h ↦ absurd (cc (e, h)) ]

  Ready-Works :
      (q : ThreadPool T)
      → q.stop ≡ true
      → Ready true q.tasks q.workers
      → (next : ThreadPool T) × Works 1 q next
  Ready-Works q e r =
      let next : ThreadPool T =
        pool_with r.before r.progress.worker r.after r.progress.tasks true in
      let same : pool_with r.before r.worker r.after q.tasks true ≡ q =
        λ i. record { workers = sym r.placed i; tasks = q.tasks; stop = sym e i } in
      (
        next,
        subst (λ p. Works 1 p next) same
            (steps 0 r.before r.after r.worker q.tasks true r.progress next r.works (rests next)),
      )

  has_returned-joined :
      (ws : List (Worker T)) → 0 < length ws → joined ws ≡ true → has_returned ws ≡ true
  unfolding has_returned joined
  has_returned-joined [] l e = absurd (omega (arith, l))
  has_returned-joined (waiting ∷ ws) l e = cc
  has_returned-joined (executing task ∷ ws) l e = cc
  has_returned-joined (returned ∷ ws) l e = refl

  costs-joined : (ws : List (Worker T)) → joined ws ≡ true → costs ws ≡ 0
  unfolding joined
  costs-joined [] e = refl
  costs-joined (waiting ∷ ws) e = cc
  costs-joined (executing task ∷ ws) e = cc
  costs-joined (returned ∷ ws) e = omega (arith, costs-joined ws e)

  current-joined : (ws : List (Worker T)) → joined ws ≡ true → current ws ≡ []
  unfolding joined current
  current-joined [] e = refl
  current-joined (waiting ∷ ws) e = cc
  current-joined (executing task ∷ ws) e = cc
  current-joined (returned ∷ ws) e = current-joined ws e

  -- All tasks that were enqueued have been completed, each as often as it was enqueued.
  pub record IsOver (es : List T) (q : ThreadPool T) : Type ℓ where
    pub completed : List T
    pub reached : Reaches es es completed q
    pub no_task : q.tasks ≡ []
    pub as_often : (test : T → Bool) → count test completed ≡ count test es

  joined-IsOver :
      (es taken completed : List T) (q : ThreadPool T)
      → Reaches es taken completed q
      → 0 < length q.workers
      → joined q.workers ≡ true
      → IsOver es q
  joined-IsOver es taken completed q r l e =
      let s = Reaches-IsSound r in
      let none_left : q.tasks ≡ [] = (s.returned_late (has_returned-joined q.workers l e)).1 in
      let all_taken : taken ≡ es =
        sym (s.in_order ∙ ap (λ ts. taken ++ ts) none_left ∙ append-nil taken) in
      record {
        completed = completed;
        reached = subst (λ ts. Reaches es ts completed q) all_taken r;
        no_task = none_left;
        as_often = λ test. omega (
          arith,
          s.accounted test,
          ap (count test) (current-joined q.workers e),
          ap (count test) all_taken,
        );
      }

  -- Whatever the workers of a stopped pool do, and in whatever order: they come to a stop. As long as a
  -- join waits, some worker can step, and fewer steps were made than a bound that the pool had at the
  -- start of the destructor: two for each task in its queue, two for each worker that executes one and
  -- one for each that waits. After exactly so many steps every join has come back, the queue is empty,
  -- workers took all enqueued tasks in their order, and each task was completed as often as it was
  -- enqueued. The pool was reached by any steps before, and has a worker.
  pub Works-IsOver :
      {es taken completed : List T} {p q : ThreadPool T} {n : ℕ}
      → Reaches es taken completed p
      → 0 < length p.workers
      → Works n (stop_pool p) q
      → ((joined q.workers ≡ false) × ((next : ThreadPool T) × Works 1 q next) × (n < remaining p))
        ⊎ ((joined q.workers ≡ true) × (n ≡ remaining p) × IsOver es q)
  unfolding stop_pool
  Works-IsOver {es} {taken} {completed} {p} {q} {n} r l run =
      let k = Works-Keeps run in
      elim (Bool-cases (joined q.workers)) [
        | inl over ↦
            let reached = Works-Reaches es taken completed run (stopped es taken completed p r) in
            let o =
              joined-IsOver es reached.0 reached.1 q reached.2 (omega (arith, l, k.same_workers))
                over in
            inr (
              over,
              omega (arith, k.shorter, costs-joined q.workers over, ap (length {A = T}) o.no_task),
              o,
            )
        | inr waits ↦
            let go = Ready-Works q k.same_stop (ready_of q.tasks q.workers waits) in
            inl (waits, go, omega (arith, k.shorter, (Works-Keeps go.1).shorter))
      ]
