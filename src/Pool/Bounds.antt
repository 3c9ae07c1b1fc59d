-- ===== src/Pool/Bounds.antt =====
-- The threads and the contexts of a pool of src/networking/ThreadPool.cpp.
use pulse_net.Base.{
  ℕ, zero, suc, ◌+◌, ◌≤◌, false, ◌≡◌, refl, ◌∙◌, subst, some, [], ◌∷◌, length, length-append,
  length-set, set, arith,
}
use pulse_net.Base.Int.{pos}
use pulse_net.Pool.{
  Status, Thread, Owner, ThreadPool, make_thread_pool, PoolStep, run_begins, creates, pushes,
  run_ends, stop_begins, stop_ends, enters, calls_back, callback_returns, leaves, PoolReachable,
  made, moved,
}

-- What holds of every state of a pool: at most one thread waits for its context, there are no more
-- threads than workers, and the loop of the workers is open until `stop`.
pub record IsSound (workers : ℕ) (p : ThreadPool) : Type 0 where
  pub size : p.workers ≡ workers
  pub pushed : length p.contexts ≤ length p.threads
  pub waiting : length p.threads ≤ length p.contexts + 1
  pub bounded : length p.threads ≤ workers
  pub closed : p.owner ≡ Owner.stopping → p.is_running ≡ false
  pub complete : p.owner ≡ Owner.launched → length p.contexts ≡ workers

new_pool : ℕ → ThreadPool
new_pool n = record {
  workers = n;
  is_running = false;
  owner = Owner.fresh;
  threads = [];
  contexts = [];
  calls = [];
}

same_pool : (p q : ThreadPool) → some p ≡ some q → p ≡ q
same_pool p q e = cc

new_pool-IsSound : (n : ℕ) → IsSound n (new_pool n)
unfolding new_pool
new_pool-IsSound n = record {
  size = refl;
  pushed = omega arith;
  waiting = omega arith;
  bounded = omega arith;
  closed = λ e. refl;
  complete = λ e. absurd cc;
}

make_thread_pool-IsSound :
    (n : ℕ) (p : ThreadPool) → make_thread_pool (pos n) ≡ some p → IsSound n p
unfolding make_thread_pool new_pool
make_thread_pool-IsSound zero p e = absurd cc
make_thread_pool-IsSound (suc n) p e =
    subst (IsSound (suc n)) (same_pool (new_pool (suc n)) p e) (new_pool-IsSound (suc n))

-- The worker at a place writes its status.
written-IsSound :
    (n i : ℕ) (t : Thread) (x : Status) (p : ThreadPool)
    → IsSound n p
    → IsSound n (record p { threads = set p.threads i t; contexts = set p.contexts i x })
written-IsSound n i t x p k =
    let threads = length-set p.threads i t in
    let contexts = length-set p.contexts i x in
    record {
      size = k.size;
      pushed = omega (arith, threads, contexts, k.pushed);
      waiting = omega (arith, threads, contexts, k.waiting);
      bounded = omega (arith, threads, k.bounded);
      closed = k.closed;
      complete = λ e. omega (arith, contexts, k.complete e);
    }

-- The worker at a place calls back, or its callback returns.
threads-IsSound :
    (n i : ℕ) (t : Thread) (p : ThreadPool)
    → IsSound n p
    → IsSound n (record p { threads = set p.threads i t })
threads-IsSound n i t p k =
    let threads = length-set p.threads i t in
    record {
      size = k.size;
      pushed = omega (arith, threads, k.pushed);
      waiting = omega (arith, threads, k.waiting);
      bounded = omega (arith, threads, k.bounded);
      closed = k.closed;
      complete = k.complete;
    }

PoolStep-IsSound : (n : ℕ) (p q : ThreadPool) → PoolStep p q → IsSound n p → IsSound n q
PoolStep-IsSound n p _ (run_begins _ e) k = record {
  size = k.size;
  pushed = k.pushed;
  waiting = k.waiting;
  bounded = k.bounded;
  closed = λ f. absurd cc;
  complete = λ f. absurd cc;
}
PoolStep-IsSound n p _ (creates _ e same room) k =
    let size = length-append p.threads (Thread.begun ∷ []) in
    record {
      size = k.size;
      pushed = omega (arith, size, same);
      waiting = omega (arith, size, same);
      bounded = omega (arith, size, same, room, k.size);
      closed = λ f. absurd cc;
      complete = λ f. absurd cc;
    }
PoolStep-IsSound n p _ (pushes _ e more) k =
    let size = length-append p.contexts (Status.idle ∷ []) in
    record {
      size = k.size;
      pushed = omega (arith, size, more);
      waiting = omega (arith, size, more);
      bounded = k.bounded;
      closed = λ f. absurd cc;
      complete = λ f. absurd cc;
    }
PoolStep-IsSound n p _ (run_ends _ e full) k = record {
  size = k.size;
  pushed = k.pushed;
  waiting = k.waiting;
  bounded = k.bounded;
  closed = λ f. absurd cc;
  complete = λ f. full ∙ k.size;
}
PoolStep-IsSound n p _ (stop_begins _ e) k = record {
  size = k.size;
  pushed = k.pushed;
  waiting = k.waiting;
  bounded = k.bounded;
  closed = λ f. refl;
  complete = λ f. absurd cc;
}
PoolStep-IsSound n p _ (stop_ends _ e all) k = record {
  size = k.size;
  pushed = omega arith;
  waiting = omega arith;
  bounded = omega arith;
  closed = λ f. absurd cc;
  complete = λ f. absurd cc;
}
PoolStep-IsSound n p _ (enters _ i e) k = written-IsSound n i Thread.looping Status.running p k
PoolStep-IsSound n p _ (calls_back _ i e on) k =
    let q = threads-IsSound n i Thread.calling p k in
    record {
      size = q.size;
      pushed = q.pushed;
      waiting = q.waiting;
      bounded = q.bounded;
      closed = q.closed;
      complete = q.complete;
    }
PoolStep-IsSound n p _ (callback_returns _ i e) k = threads-IsSound n i Thread.looping p k
PoolStep-IsSound n p _ (leaves _ i e shut) k = written-IsSound n i Thread.returned Status.idle p k

-- In every state of a pool there are no more threads than workers, at most one of them has no context
-- yet, each worker has one when `run` has returned, and the flag of the loop is off while `stop` waits.
pub PoolReachable-IsSound : (n : ℕ) (p : ThreadPool) → PoolReachable n p → IsSound n p
PoolReachable-IsSound n p (made _ e) = make_thread_pool-IsSound n p e
PoolReachable-IsSound n _ (moved p q r step) =
    PoolStep-IsSound n p q step (PoolReachable-IsSound n p r)
