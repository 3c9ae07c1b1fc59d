-- ===== src/Server/Events/Waiting.antt =====
-- No client of src/networking/TCPServer.h is forgotten.
use pulse_net.Base.{
  ℕ, zero, suc, ◌<◌, ◌%◌, Bool, false, ◌≡◌, refl, some, List, [], length, replicate, ◌⊎◌, inl, inr,
  arith,
}
use pulse_net.Http.Message.HeaderMap.{Headers}
use pulse_net.Http.Assembler.State.{Limits}
use pulse_net.Server.Client.{Client, increase_reference_count}
use pulse_net.Server.Table.{slot, get_client}
use pulse_net.Server.Table.Laws.{IsConsistent, no_client}
use pulse_net.Server.Sending.{send_to}
use pulse_net.Server.Events.{
  ServerState, Step, connected, completed, assembled, answered, taken, Reachable, started, stepped,
  initial_server, pop_id, assemble_found, assemble_next, assembler_worker,
}
use pulse_net.Server.Events.Consistency.{Reachable-IsConsistent}
use pulse_net.Server.Events.Waking.{send-All}
use pulse_net.Server.Events.Queues.{IsQueued, pop_id-some}
use pulse_net.Server.Events.Remembering.{
  IsAwaited, AreAwaited, IsAwaited-kept, send_to-IsKept, Others-of, on_connection-AreAwaited,
  on_completion-AreAwaited,
}
use pulse_net.Server.Events.Rounds.{assemble_next-AreAwaited}

length-replicate : (n : ℕ) → length (replicate {A = List ℕ} n []) ≡ n
length-replicate zero = refl
length-replicate (suc n) = ground (arith, length-replicate n)

-- The worker of a queue that holds an id makes a round.
IsQueued-assembler_worker :
    (iterate : Headers → Headers) (l : Limits) (len : ℕ) (b a : Bool) (j : ℕ) (s : ServerState)
    → IsQueued j s.assembling_queues
    → (t : ServerState) × (assembler_worker iterate l len b a (j % length s.assembling_queues) s
        ≡ some t)
unfolding assembler_worker assemble_next IsQueued
IsQueued-assembler_worker iterate l len b a j s q =
    let k = j % length s.assembling_queues in
    let (id, rest, e) = pop_id-some k j s.assembling_queues q in
    (
      assemble_found iterate l len b a (get_client id s.table)
          (record s { assembling_queues = rest }),
      rw (assembler_worker, e) refl,
    )

module _ (iterate : Headers → Headers) (l : Limits) (len : ℕ) where
  Step-AreAwaited :
      (s t : ServerState)
      → Step iterate l len s t
      → IsConsistent s.table
      → AreAwaited s
      → AreAwaited t
  unfolding AreAwaited
  Step-AreAwaited s _ (connected _ port ip sock buffer a b) h w =
      on_connection-AreAwaited len port ip sock buffer a b s h w
  Step-AreAwaited s _ (completed _ b id completion c e p) h w =
      on_completion-AreAwaited len b id completion s h w
  Step-AreAwaited s t (assembled _ _ b a k e) h w =
      assemble_next-AreAwaited iterate l len b a k (pop_id k s.assembling_queues) s t refl
        (unfold assembler_worker in e) h w
  Step-AreAwaited s _ (answered _ b id message) h w =
      let Q = IsAwaited s.assembling_queues in
      (
        w.0,
        send-All Q len id b message s.table h (Others-of Q id s.table w.1) (λ c e.
            IsAwaited-kept s.assembling_queues id c
              (send_to len b message (increase_reference_count c))
              (send_to-IsKept len b message (increase_reference_count c)) (w.1 id c e)),
      )
  Step-AreAwaited s _ (taken _) h w = w

  Reachable-AreAwaited :
      (workers : ℕ) (s : ServerState)
      → 0 < workers
      → Reachable iterate l len workers s
      → AreAwaited s
  unfolding initial_server AreAwaited
  Reachable-AreAwaited workers _ h started =
      let size = length-replicate workers in
      (omega (arith, h, size), λ j c e. absurd (no_client j c e))
  Reachable-AreAwaited workers _ h (stepped s t r step) =
      Step-AreAwaited s t step (Reachable-IsConsistent iterate l len workers s r)
        (Reachable-AreAwaited workers s h r)

  -- In every state that a server with one worker or more reaches, a client that is not disconnecting
  -- has a receive pending at the system, or its id stands in the queue of the worker that takes it, and
  -- that worker makes a round, whatever the system answers.
  pub Reachable-IsAwaited :
      (workers : ℕ) (s : ServerState) (j : ℕ) (c : Client) (b a : Bool)
      → 0 < workers
      → Reachable iterate l len workers s
      → slot s.table.client_list j ≡ some c
      → c.is_disconnecting ≡ false
      → (0 < c.pending_receives)
        ⊎ (IsQueued j s.assembling_queues
            × ((t : ServerState) × (assembler_worker iterate l len b a
                    (j % length s.assembling_queues)
                    s
                  ≡ some t)))
  unfolding AreAwaited IsAwaited
  Reachable-IsAwaited workers s j c b a h r e d =
      elim ((Reachable-AreAwaited workers s h r).1 j c e d) [
        | inl p ↦ inl p
        | inr q ↦ inr (q, IsQueued-assembler_worker iterate l len b a j s q)
      ]
