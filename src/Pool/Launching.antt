-- ===== src/Pool/Launching.antt =====
-- `run` of src/networking/ThreadPool.cpp when no worker does anything meanwhile.
use pulse_net.Base.{
  ℕ, zero, suc, ◌+◌, ◌≡◌, refl, ap, some, true, [], ◌∷◌, length, length-append, arith,
}
use pulse_net.Base.Int.{pos}
use pulse_net.Pool.{
  Status, Thread, Owner, ThreadPool, make_thread_pool, create_thread, push_context, launch,
  run_pool, run_begins, creates, pushes, run_ends, PoolReachable, made, moved,
}

launch-PoolReachable :
    (n k : ℕ) (p : ThreadPool)
    → PoolReachable n p
    → p.owner ≡ Owner.launching
    → length p.threads ≡ length p.contexts
    → length p.contexts + k ≡ p.workers
    → PoolReachable n (launch k p)
      × ((launch k p).owner ≡ Owner.launched)
      × (length (launch k p).threads ≡ p.workers)
unfolding launch
launch-PoolReachable n zero p r e same all = (
  moved p (record p { owner = Owner.launched }) r (run_ends p e (omega arith)),
  refl,
  omega arith,
)
launch-PoolReachable n (suc k) p r e same all =
    let threads = length-append p.threads (Thread.begun ∷ []) in
    let contexts = length-append p.contexts (Status.idle ∷ []) in
    let q = create_thread p in
    launch-PoolReachable n k (push_context q)
      (moved q (push_context q) (moved p q r (creates p e same (omega arith)))
        (pushes q e (omega (arith, threads, same))))
      e (omega (arith, threads, contexts, same)) (omega (arith, contexts, all))

-- A pool that was made is taken by `run` to a state of the pool, with one thread for each worker.
pub run_pool-PoolReachable :
    (n : ℕ) (p : ThreadPool)
    → make_thread_pool (pos n) ≡ some p
    → p.threads ≡ []
    → p.contexts ≡ []
    → p.owner ≡ Owner.fresh
    → PoolReachable n (run_pool p)
      × ((run_pool p).owner ≡ Owner.launched)
      × (length (run_pool p).threads ≡ p.workers)
unfolding run_pool
run_pool-PoolReachable n p e no_threads no_contexts fresh =
    let q : ThreadPool = record p { is_running = true; owner = Owner.launching } in
    launch-PoolReachable n p.workers q (moved p q (made p e) (run_begins p fresh)) refl
      (cc (no_threads, no_contexts)) (omega (arith, ap length no_contexts))
