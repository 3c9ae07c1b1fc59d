-- ===== src/Server/Events/References.antt =====
-- The references of all clients in every state of the server of src/networking/TCPServer.h.
use pulse_net.Base.{
  ℕ, ◌<◌, Bool, ◌≡◌, refl, sym, subst, Option, none, some, List, Option-cases, Bool-cases, inl, inr,
}
use pulse_net.Http.Message.HeaderMap.{Headers}
use pulse_net.Http.Assembler.State.{Limits}
use pulse_net.Http.Assembler.Feed.{feed}
use pulse_net.Server.Client.{Client, increase_reference_count}
use pulse_net.Server.Table.{slot, put, get_client}
use pulse_net.Server.Table.Laws.{no_client, get_client-none, get_client-some}
use pulse_net.Server.Table.Laws.{IsConsistent}
use pulse_net.Server.Sending.{send}
use pulse_net.Server.Sending.Counting.{IsCounted, increase-IsCounted}
use pulse_net.Server.Events.{
  ServerState, Step, connected, completed, assembled, answered, taken, Reachable, started, stepped,
  initial_server, pop_id, assemble, assemble_found, assemble_next, assembler_worker,
}
use pulse_net.Server.Events.Table.{
  IsKnown, put-slot, put-IsConsistent, put_found-IsConsistent, send-IsConsistent,
  get_client-IsKnown,
}
use pulse_net.Server.Events.Serving.{
  IsServed, AreServed, AreServed-at, IsServed-all, put-IsServed, get_client-IsServed, send-IsServed,
  disconnect_client-IsServed,
}
use pulse_net.Server.Events.Counting.{
  on_completion-AreServed, on_connection-AreServed, receiving-IsServed,
}
use pulse_net.Server.Events.Consistency.{Reachable-IsConsistent, some-injective}

module _ (iterate : Headers → Headers) (l : Limits) (len : ℕ) (room : 0 < len) where
  -- A worker holds the reference that `getClient` counted.
  assemble-AreServed :
      (b a : Bool) (found : Client) (s : ServerState)
      → IsKnown found s.table
      → IsCounted len 1 found
      → IsConsistent s.table
      → IsServed len found.id 1 s.table
      → AreServed len (assemble iterate l len b a found s).table
  unfolding assemble feed
  assemble-AreServed b a found s k n h v =
      let fed = (feed iterate l s.client_states found.id found.recv_buffer found.recv_len len).0 in
      let c = record found { recv_buffer = fed.buffer; recv_len = fed.buffer_len } in
      let m : IsCounted len 1 c = record {
        counted = n.counted;
        one_send = n.one_send;
        idle = n.idle;
        front_sent = n.front_sent;
        moving = n.moving;
        drained = n.drained;
        short = n.short;
      } in
      let t = put c.id c s.table in
      let stored = put-IsConsistent c s.table k h in
      let w = put-IsServed len 1 1 c s.table k m v in
      let answered = send len b c.id fed.result.error_message t in
      let failed = IsServed-all len c.id _ (
        disconnect_client-IsServed len c.id answered
          (send-IsConsistent len b c.id fed.result.error_message t stored)
          (send-IsServed len c.id 1 b fed.result.error_message t room stored w)) in
      let kept = receiving-IsServed len c.id a c t refl (c, put-slot c s.table k) m w in
      elim (Bool-cases fed.result.error) [ inl e ↦ rw e failed | inr e ↦ rw e kept ]

  assemble_found-AreServed :
      (b a : Bool) (id : ℕ) (s : ServerState)
      → IsConsistent s.table
      → AreServed len s.table
      → AreServed len (assemble_found iterate l len b a (get_client id s.table) s).table
  unfolding assemble_found
  assemble_found-AreServed b a id s h v = elim (Option-cases (slot s.table.client_list id)) [
    | inl e ↦ rw (get_client-none id s.table e) v
    | inr (c, e) ↦
        let found = increase_reference_count c in
        let t = put id found s.table in
        let at_id : IsServed len c.id 1 t =
          subst (λ (x : ℕ). IsServed len x 1 t) (sym (h.own id c e))
            (get_client-IsServed len id 0 s.table c h e (AreServed-at len id s.table v)) in
        rw (get_client-some id s.table c e) (
          assemble-AreServed b a found (record s { table = t })
            (get_client-IsKnown id s.table c h e) (increase-IsCounted len 0 c (v.each id c e))
            (put_found-IsConsistent id s.table c found h e refl) at_id)
  ]

  assemble_next-AreServed :
      (b a : Bool) (next : Option (ℕ × List (List ℕ))) (s t : ServerState)
      → assemble_next iterate l len b a next s ≡ some t
      → IsConsistent s.table
      → AreServed len s.table
      → AreServed len t.table
  unfolding assemble_next
  assemble_next-AreServed b a none s t e h v = absurd cc
  assemble_next-AreServed b a (some (id, queues)) s t e h v =
      let w = assemble_found-AreServed b a id (record s { assembling_queues = queues }) h v in
      subst (λ (x : ServerState). AreServed len x.table) (some-injective _ t e) w

  Step-AreServed :
      (s t : ServerState)
      → Step iterate l len s t
      → IsConsistent s.table
      → AreServed len s.table
      → AreServed len t.table
  Step-AreServed s _ (connected _ port ip sock buffer a b) h v =
      on_connection-AreServed len port ip sock buffer a b s h v
  Step-AreServed s _ (completed _ b id completion c e p) h v =
      on_completion-AreServed len b id completion s c e p h v
  Step-AreServed s t (assembled _ _ b a k e) h v =
      assemble_next-AreServed b a (pop_id k s.assembling_queues) s t (unfold assembler_worker in e)
        h v
  Step-AreServed s _ (answered _ b id message) h v =
      IsServed-all len id _
        (send-IsServed len id 0 b message s.table room h (AreServed-at len id s.table v))
  Step-AreServed s _ (taken _) h v = v

  pub Reachable-AreServed :
      (workers : ℕ) (s : ServerState) → Reachable iterate l len workers s → AreServed len s.table
  unfolding initial_server
  Reachable-AreServed workers _ started = record {
    each = λ j c e. absurd (no_client j c e);
    nothing_lost = refl;
  }
  Reachable-AreServed workers _ (stepped s t r step) =
      Step-AreServed s t step (Reachable-IsConsistent iterate l len workers s r)
        (Reachable-AreServed workers s r)
