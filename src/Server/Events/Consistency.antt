-- ===== src/Server/Events/Consistency.antt =====
-- What holds in every state of the server of src/networking/TCPServer.h.
use pulse_net.Base.{ℕ, Bool, ◌≡◌, subst, Option, none, some, List}
use pulse_net.Http.Message.HeaderMap.{Headers}
use pulse_net.Http.Assembler.State.{Limits}
use pulse_net.Server.Table.Laws.{IsConsistent, empty_table-IsConsistent}
use pulse_net.Server.Events.{
  ServerState, Step, connected, completed, assembled, answered, taken, Reachable, started, stepped,
  initial_server, pop_id, assemble_next, assembler_worker,
}
use pulse_net.Server.Events.Table.{
  on_connection-IsConsistent, on_completion-IsConsistent, assemble_found-IsConsistent,
  send-IsConsistent,
}

pub some-injective : (s t : ServerState) → some s ≡ some t → s ≡ t
some-injective s t e = cc

assemble_next-IsConsistent :
    (iterate : Headers → Headers) (l : Limits) (len : ℕ) (b a : Bool)
    (next : Option (ℕ × List (List ℕ))) (s t : ServerState)
    → assemble_next iterate l len b a next s ≡ some t
    → IsConsistent s.table
    → IsConsistent t.table
unfolding assemble_next
assemble_next-IsConsistent iterate l len b a none s t e h = absurd cc
assemble_next-IsConsistent iterate l len b a (some (id, queues)) s t e h =
    let g =
      assemble_found-IsConsistent iterate l len b a id (record s { assembling_queues = queues })
        h in
    subst (λ (x : ServerState). IsConsistent x.table) (some-injective _ t e) g

Step-IsConsistent :
    (iterate : Headers → Headers) (l : Limits) (len : ℕ) (s t : ServerState)
    → Step iterate l len s t
    → IsConsistent s.table
    → IsConsistent t.table
Step-IsConsistent iterate l len s _ (connected _ port ip sock buffer a b) h =
    on_connection-IsConsistent len port ip sock buffer a b s h
Step-IsConsistent iterate l len s _ (completed _ b id completion c e p) h =
    on_completion-IsConsistent len b id completion s h
Step-IsConsistent iterate l len s t (assembled _ _ b a k e) h =
    assemble_next-IsConsistent iterate l len b a (pop_id k s.assembling_queues) s t
      (unfold assembler_worker in e) h
Step-IsConsistent iterate l len s _ (answered _ b id message) h =
    send-IsConsistent len b id message s.table h
Step-IsConsistent iterate l len s _ (taken _) h = h

-- In every state that the server reaches, the free ids are the ids of the empty entries of the client
-- list, each once, and a client stands in the list at its own id: no id is given out twice.
pub Reachable-IsConsistent :
    (iterate : Headers → Headers) (l : Limits) (len workers : ℕ) (s : ServerState)
    → Reachable iterate l len workers s
    → IsConsistent s.table
unfolding initial_server
Reachable-IsConsistent iterate l len workers _ started = empty_table-IsConsistent
Reachable-IsConsistent iterate l len workers _ (stepped s t r step) =
    Step-IsConsistent iterate l len s t step (Reachable-IsConsistent iterate l len workers s r)
