-- ===== src/Pool.antt =====
-- src/networking/ThreadPool.cpp: the pool as a step relation between the thread that owns it and its
-- workers. A callback is entered in one step and returns in another, which may never be made: `stop`
-- then waits. The owner of a pool calls `run` once, and `stop` behind it, as the program does.
pub mod Bounds
pub mod Launching
use pulse_net.Base.{
  ℕ, zero, suc, ◌+◌, ◌<◌, Bool, true, false, ◌≡◌, Option, none, some, List, [], ◌∷◌, ◌++◌, length,
  get_elem?, set,
}
use pulse_net.Base.Int.{ℤ, pos, negsuc}

pub data Status : Type 0 where
  idle : Status
  running : Status

-- A thread that was started, that is at the test of the loop of `worker`, inside the callback, or behind
-- the loop.
pub data Thread : Type 0 where
  begun : Thread
  looping : Thread
  calling : Thread
  returned : Thread

-- Where the owner is: before `run`, in its loop, behind it, in `stop`, behind that.
pub data Owner : Type 0 where
  fresh : Owner
  launching : Owner
  launched : Owner
  stopping : Owner
  stopped : Owner

-- `contexts` has the status of every entry of `m_threads`, and `calls` the ids that the callback was
-- called with.
pub record ThreadPool : Type 0 where
  pub workers : ℕ
  pub is_running : Bool
  pub owner : Owner
  pub threads : List Thread
  pub contexts : List Status
  pub calls : List ℕ

-- The constructor, `none` where it throws.
unfoldable pub make_thread_pool : ℤ → Option ThreadPool
make_thread_pool (pos zero) = none
make_thread_pool (pos (suc n)) = some (record {
  workers = suc n;
  is_running = false;
  owner = Owner.fresh;
  threads = [];
  contexts = [];
  calls = [];
})
make_thread_pool (negsuc n) = none

-- `std::thread` in the loop of `run`, and the `push_back` behind it.
abbrev pub create_thread : ThreadPool → ThreadPool
create_thread p = record p { threads = p.threads ++ Thread.begun ∷ [] }

abbrev pub push_context : ThreadPool → ThreadPool
push_context p = record p { contexts = p.contexts ++ Status.idle ∷ [] }

-- The first and the last statement of `worker`; a write outside `m_threads` is left out.
abbrev pub enter_worker : ℕ → ThreadPool → ThreadPool
enter_worker i p = record p {
  threads = set p.threads i Thread.looping;
  contexts = set p.contexts i Status.running;
}

abbrev pub leave_worker : ℕ → ThreadPool → ThreadPool
leave_worker i p = record p {
  threads = set p.threads i Thread.returned;
  contexts = set p.contexts i Status.idle;
}

-- `m_callback(id)`: the call, and its return to the test of the loop.
abbrev pub enter_callback : ℕ → ThreadPool → ThreadPool
enter_callback i p = record p {
  threads = set p.threads i Thread.calling;
  calls = p.calls ++ i ∷ [];
}

abbrev pub leave_callback : ℕ → ThreadPool → ThreadPool
leave_callback i p = record p { threads = set p.threads i Thread.looping }

abbrev pub AllReturned : List Thread → Type 0
AllReturned [] = Unit {0}
AllReturned (t ∷ ts) = (t ≡ Thread.returned) × AllReturned ts

-- The rest of the loop of `run` when no worker does anything meanwhile, and `run`.
unfoldable pub launch : ℕ → ThreadPool → ThreadPool
launch zero p = record p { owner = Owner.launched }
launch (suc n) p = launch n (push_context (create_thread p))

unfoldable pub run_pool : ThreadPool → ThreadPool
unfolding launch
run_pool p = launch p.workers (record p { is_running = true; owner = Owner.launching })

-- What the owner and the workers can do.
pub data PoolStep : ThreadPool → ThreadPool → Type 0 where
  run_begins :
      (p : ThreadPool)
      → p.owner ≡ Owner.fresh
      → PoolStep p (record p { is_running = true; owner = Owner.launching })
  creates :
      (p : ThreadPool)
      → p.owner ≡ Owner.launching
      → length p.threads ≡ length p.contexts
      → length p.contexts < p.workers
      → PoolStep p (create_thread p)
  pushes :
      (p : ThreadPool)
      → p.owner ≡ Owner.launching
      → length p.threads ≡ length p.contexts + 1
      → PoolStep p (push_context p)
  run_ends :
      (p : ThreadPool)
      → p.owner ≡ Owner.launching
      → length p.contexts ≡ p.workers
      → PoolStep p (record p { owner = Owner.launched })
  stop_begins :
      (p : ThreadPool)
      → p.owner ≡ Owner.launched
      → PoolStep p (record p { is_running = false; owner = Owner.stopping })
  stop_ends :
      (p : ThreadPool)
      → p.owner ≡ Owner.stopping
      → AllReturned p.threads
      → PoolStep p (record p { owner = Owner.stopped; threads = []; contexts = [] })
  enters :
      (p : ThreadPool) (i : ℕ)
      → get_elem? p.threads i ≡ some Thread.begun
      → PoolStep p (enter_worker i p)
  calls_back :
      (p : ThreadPool) (i : ℕ)
      → get_elem? p.threads i ≡ some Thread.looping
      → p.is_running ≡ true
      → PoolStep p (enter_callback i p)
  callback_returns :
      (p : ThreadPool) (i : ℕ)
      → get_elem? p.threads i ≡ some Thread.calling
      → PoolStep p (leave_callback i p)
  leaves :
      (p : ThreadPool) (i : ℕ)
      → get_elem? p.threads i ≡ some Thread.looping
      → p.is_running ≡ false
      → PoolStep p (leave_worker i p)

pub data PoolSteps : ThreadPool → ThreadPool → Type 0 where
  stays : (p : ThreadPool) → PoolSteps p p
  goes : (p q r : ThreadPool) → PoolStep p q → PoolSteps q r → PoolSteps p r

-- The states of a pool of so many workers.
pub data PoolReachable (workers : ℕ) : ThreadPool → Type 0 where
  made : (p : ThreadPool) → make_thread_pool (pos workers) ≡ some p → PoolReachable workers p
  moved : (p q : ThreadPool) → PoolReachable workers p → PoolStep p q → PoolReachable workers q
