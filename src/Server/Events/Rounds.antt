-- ===== src/Server/Events/Rounds.antt =====
-- A round of `assemblerWorker` of src/networking/TCPServer.h, and what the clients wait for.
use pulse_net.Base.{
  ℕ, ◌<◌, Bool, false, ◌≡◌, refl, sym, ◌∙◌, subst, none, some, Option, List, ◌==◌, length, inl, inr,
  arith, Bool-cases, Option-cases,
}
use pulse_net.Http.Message.HeaderMap.{Headers}
use pulse_net.Http.Assembler.State.{Limits}
use pulse_net.Http.Assembler.Feed.{feed}
use pulse_net.Server.Client.{Client, increase_reference_count, decrease_reference_count}
use pulse_net.Server.Table.{slot, put, get_client}
use pulse_net.Server.Table.Laws.{IsConsistent, slot-vacant, get_client-none, get_client-some}
use pulse_net.Server.Sending.{post_receive_event, send}
use pulse_net.Server.Events.{ServerState, pop_id, assemble, assemble_found, assemble_next}
use pulse_net.Server.Events.Table.{
  IsKnown, IsKnown-same, put-slot, put-IsConsistent, put_found-IsConsistent, send-IsConsistent,
  get_client-IsKnown, post_receive_event_id,
}
use pulse_net.Server.Events.Consistency.{some-injective}
use pulse_net.Server.Events.Serving.{set_other, none-some}
use pulse_net.Server.Events.Waking.{
  Others, All-here, put-Others, finish_client-All, send-Others, disconnect_client-All,
}
use pulse_net.Server.Events.Queues.{IsPopped, pop_id-IsPopped}
use pulse_net.Server.Events.Remembering.{
  IsAwaited, AreAwaited, disconnect-IsAwaited, posted-IsAwaited,
}

-- A round of a worker: the client that it takes is disconnected, or its next receive is posted.
assemble-AreAwaited :
    (iterate : Headers → Headers) (l : Limits) (len : ℕ) (b a : Bool) (found : Client)
    (s : ServerState)
    → IsKnown found s.table
    → IsConsistent s.table
    → 0 < length s.assembling_queues
    → Others found.id (IsAwaited s.assembling_queues) s.table
    → AreAwaited (assemble iterate l len b a found s)
unfolding assemble AreAwaited
assemble-AreAwaited iterate l len b a found s k h room others =
    let Q = IsAwaited s.assembling_queues in
    let fed = (feed iterate l s.client_states found.id found.recv_buffer found.recv_len len).0 in
    let c = record found { recv_buffer = fed.buffer; recv_len = fed.buffer_len } in
    let t = put c.id c s.table in
    let stored = put-IsConsistent c s.table k h in
    let kept : Others c.id Q t = put-Others Q c s.table k others in
    let failed =
      disconnect_client-All Q c.id (send len b c.id fed.result.error_message t)
        (send-IsConsistent len b c.id fed.result.error_message t stored)
        (send-Others Q len c.id b fed.result.error_message t stored kept)
        (disconnect-IsAwaited s.assembling_queues c.id) in
    let posted = post_receive_event a (increase_reference_count c) in
    let next = decrease_reference_count (decrease_reference_count posted) in
    let same : next.id ≡ c.id = post_receive_event_id a (increase_reference_count c) in
    let going =
      finish_client-All Q next t (IsKnown-same c next t same (c, put-slot c s.table k))
        (posted-IsAwaited s.assembling_queues next.id a c)
        (subst (λ (x : ℕ). Others x Q t) (sym same) kept) in
    elim (Bool-cases fed.result.error) [ inl e ↦ rw e (room, failed) | inr e ↦ rw e (room, going) ]

assemble_found-AreAwaited :
    (iterate : Headers → Headers) (l : Limits) (len : ℕ) (b a : Bool) (id : ℕ) (s : ServerState)
    → IsConsistent s.table
    → 0 < length s.assembling_queues
    → Others id (IsAwaited s.assembling_queues) s.table
    → AreAwaited (assemble_found iterate l len b a (get_client id s.table) s)
unfolding assemble_found AreAwaited
assemble_found-AreAwaited iterate l len b a id s h room others =
    let Q = IsAwaited s.assembling_queues in
    elim (Option-cases (slot s.table.client_list id)) [
      | inl e ↦
          rw (get_client-none id s.table e)
            (room, All-here Q id s.table others (λ c f. absurd (none-some c (sym e ∙ f))))
      | inr (c, e) ↦
          let found = increase_reference_count c in
          let t = put id found s.table in
          let inside = (slot-vacant s.table.client_list id c e).1 in
          let kept : Others id Q t = λ j d f differ.
            others j d (set_other id j d (some found) s.table inside f differ) differ in
          rw (get_client-some id s.table c e) (
            assemble-AreAwaited iterate l len b a found (record s { table = t })
              (get_client-IsKnown id s.table c h e)
              (put_found-IsConsistent id s.table c found h e refl) room
              (subst (λ (x : ℕ). Others x Q t) (sym (h.own id c e)) kept))
    ]

-- The id that a worker takes is the only one that leaves a queue.
popped-IsAwaited :
    (k id j : ℕ) (queues rest : List (List ℕ)) (c : Client)
    → IsPopped k id queues rest
    → (id == j) ≡ false
    → IsAwaited queues j c
    → IsAwaited rest j c
unfolding IsAwaited
popped-IsAwaited k id j queues rest c popping differ w e = elim (w e) [
  | inl r ↦ inl r
  | inr q ↦ inr (popping.kept j q differ)
]

pub assemble_next-AreAwaited :
    (iterate : Headers → Headers) (l : Limits) (len : ℕ) (b a : Bool) (k : ℕ)
    (next : Option (ℕ × List (List ℕ))) (s t : ServerState)
    → pop_id k s.assembling_queues ≡ next
    → assemble_next iterate l len b a next s ≡ some t
    → IsConsistent s.table
    → AreAwaited s
    → AreAwaited t
unfolding assemble_next AreAwaited
assemble_next-AreAwaited iterate l len b a k none s t p e h w = absurd cc
assemble_next-AreAwaited iterate l len b a k (some (id, queues)) s t p e h w =
    let popping = pop_id-IsPopped k id s.assembling_queues queues p in
    let others : Others id (IsAwaited queues) s.table = λ j c f differ.
      popped-IsAwaited k id j s.assembling_queues queues c popping differ (w.1 j c f) in
    subst AreAwaited (some-injective _ t e) (
      assemble_found-AreAwaited iterate l len b a id (record s { assembling_queues = queues }) h
        (omega (arith, popping.size, w.0)) others)
