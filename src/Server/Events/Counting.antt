-- ===== src/Server/Events/Counting.antt =====
-- The references of all clients through the events of src/networking/TCPServer.h.
use pulse_net.Base.{
  ℕ, ◌<◌, Bool, true, false, ◌≡◌, sym, ◌∙◌, subst, some, ◌==◌, arith, length, Bool-cases,
  Option-cases, inl, inr,
}
use pulse_net.Base.Bytes.{Bytes}
use pulse_net.Server.Client.{
  Client, make_client, increase_reference_count, decrease_reference_count, disconnect, is_released,
}
use pulse_net.Server.Table.{ClientTable, slot, add_client}
use pulse_net.Server.Table.Laws.{
  IsConsistent, add_client-IsConsistent, add_client-slot, add_client-abandoned,
}
use pulse_net.Server.Sending.{front, post_receive_event, post_send_event, finish_client}
use pulse_net.Server.Sending.Counting.{
  IsCounted, increase-IsCounted, decrease-IsCounted, disconnect-IsCounted, make_client-IsCounted,
  is_released-IsCounted,
}
use pulse_net.Server.Sending.Posting.{
  IsWaiting, post_receive_event-IsCounted, popped, next-IsCounted, last-IsCounted,
}
use pulse_net.Server.Events.{
  ServerState, Completion, received, sent, IsPending, completed_operation, store_received,
  on_connection, on_received, on_sent, on_kind, on_completion,
}
use pulse_net.Server.Events.Table.{
  IsKnown, IsKnown-same, slot-own, completed_operation_id, post_receive_event_id,
  post_send_event_id,
}
use pulse_net.Server.Events.Serving.{
  IsServed, AreServed, AreServed-at, IsServed-all, put-IsServed, finish_client-IsServed,
  terminate_client-IsServed,
}

-- The bytes of a receive: the client is disconnected, or its id is queued.
on_received-IsServed :
    (len : ℕ) (bytes : Bytes) (c : Client) (s : ServerState)
    → IsKnown c s.table
    → IsCounted len 0 c
    → IsServed len c.id 0 s.table
    → IsServed len c.id 0 (on_received bytes c s).table
unfolding on_received finish_client
on_received-IsServed len bytes c s k n v =
    let gone =
      finish_client-IsServed len 0 0 (disconnect c) s.table k (disconnect-IsCounted len 0 c n) v in
    let stored =
      put-IsServed len 0 0 (store_received bytes c) s.table k
        (record {
          counted = n.counted;
          one_send = n.one_send;
          idle = n.idle;
          front_sent = n.front_sent;
          moving = n.moving;
          drained = n.drained;
          short = n.short;
        })
        v in
    elim (Bool-cases (length bytes == 0)) [ inl e ↦ rw e gone | inr e ↦ rw e stored ]

-- The front of the queue was sent.
on_sent-IsServed :
    (len : ℕ) (b : Bool) (c : Client) (s : ServerState)
    → IsKnown c s.table
    → IsWaiting len 0 c
    → IsServed len c.id 0 s.table
    → IsServed len c.id 0 (on_sent len b c s).table
unfolding on_sent
on_sent-IsServed len b c s k w v =
    elim (Bool-cases (length (popped c).outbound_message_queue == 0)) [
      | inl e ↦ rw e (
          put-IsServed len 0 0 (record (popped c) { is_sending = false }) s.table k
            (last-IsCounted len c w e) v)
      | inr e ↦
          let next =
            post_send_event len b (front (popped c).outbound_message_queue)
              (increase_reference_count (popped c)) in
          let same =
            post_send_event_id len b (front (popped c).outbound_message_queue)
              (increase_reference_count (popped c)) in
          let n = next-IsCounted len b c w e in
          rw e (
            subst
              (λ (x : ℕ). IsServed len x 0 (finish_client (decrease_reference_count next) s.table))
              same
              (finish_client-IsServed len 0 0 (decrease_reference_count next) s.table
                (IsKnown-same c (decrease_reference_count next) s.table same k) n
                (subst (λ (x : ℕ). IsServed len x 0 s.table) (sym same) v)))
    ]

-- What a client is when the system is done with an operation.
received-IsCounted :
    (len : ℕ) (bytes : Bytes) (c : Client)
    → IsCounted len 0 c
    → IsPending len (received bytes) c
    → IsCounted len 0 (decrease_reference_count (completed_operation (received bytes) c))
unfolding completed_operation
received-IsCounted len bytes c n p = record {
  counted = ground (arith, n.counted);
  one_send = n.one_send;
  idle = n.idle;
  front_sent = n.front_sent;
  moving = n.moving;
  drained = n.drained;
  short = n.short;
}

pub sent-IsWaiting :
    (len : ℕ) (c : Client)
    → IsCounted len 0 c
    → 0 < c.pending_sends
    → IsWaiting len 0 (decrease_reference_count (completed_operation sent c))
unfolding completed_operation
sent-IsWaiting len c n p = record {
  waiting = ground (arith, n.counted, n.one_send);
  none_sent = omega (arith, n.one_send);
  some_part = n.front_sent p;
  short_parts = n.short;
}

-- A completion, on the client that the system is done with.
unfoldable pub done : Completion → Client → Client
done completion c = decrease_reference_count (completed_operation completion c)

pub done_id : (completion : Completion) (c : Client) → (done completion c).id ≡ c.id
unfolding done
done_id completion c = completed_operation_id completion c

on_kind-IsServed :
    (len : ℕ) (b : Bool) (completion : Completion) (c : Client) (s : ServerState)
    → IsKnown (done completion c) s.table
    → IsCounted len 0 c
    → IsPending len completion c
    → IsServed len (done completion c).id 0 s.table
    → IsServed len (done completion c).id 0 (on_kind len b completion (done completion c) s).table
unfolding on_kind done
on_kind-IsServed len b (received bytes) c s k n p v =
    on_received-IsServed len bytes (done (received bytes) c) s k
      (received-IsCounted len bytes c n p) v
on_kind-IsServed len b sent c s k n p v =
    on_sent-IsServed len b (done sent c) s k (sent-IsWaiting len c n p) v

released_done :
    (len : ℕ) (completion : Completion) (c : Client)
    → IsCounted len 0 c
    → IsPending len completion c
    → is_released (done completion c) ≡ true
    → ((done completion c).pending_receives ≡ 0) × ((done completion c).pending_sends ≡ 0)
unfolding done
released_done len (received bytes) c n p free =
    let (h, r, t) =
      is_released-IsCounted len 0 (done (received bytes) c) (received-IsCounted len bytes c n p)
        free in
    (r, t)
released_done len sent c n p free =
    let w = sent-IsWaiting len c n p in (ground (arith, w.waiting), w.none_sent)

-- A completion of an operation that is pending.
pub on_completion-AreServed :
    (len : ℕ) (b : Bool) (id : ℕ) (completion : Completion) (s : ServerState) (found : Client)
    → slot s.table.client_list id ≡ some found
    → IsPending len completion found
    → IsConsistent s.table
    → AreServed len s.table
    → AreServed len (on_completion len b id completion s).table
unfolding on_completion done
on_completion-AreServed len b id completion s found e p h v =
    let c = done completion found in
    let n = v.each id found e in
    let k : IsKnown c s.table =
      IsKnown-same found c s.table (done_id completion found)
        (found, slot-own id s.table found h e) in
    let at_id = AreServed-at len c.id s.table v in
    rw (on_completion, e)
      (elim (Bool-cases (is_released c)) [
        | inl free ↦
            let (receives, sends) = released_done len completion found n p free in
            rw free (
              IsServed-all len c.id _
                (terminate_client-IsServed len 0 0 c s.table k receives sends at_id))
        | inr held ↦
            rw held
              (IsServed-all len c.id _ (on_kind-IsServed len b completion found s k n p at_id))
      ])

-- A new client, with the reference that `addClient` counts.
add_client-IsServed :
    (len port : ℕ) (ip : Bytes) (sock : ℕ) (buffer : Bytes) (t : ClientTable)
    → IsConsistent t
    → AreServed len t
    → IsServed len
        (add_client port ip sock len buffer t).0
        1
        (add_client port ip sock len buffer t).1
add_client-IsServed len port ip sock buffer t h v =
    let made = add_client port ip sock len buffer t in
    let id = made.0 in
    let c = increase_reference_count (make_client id port ip len sock buffer) in
    let slots = (add_client-slot port ip sock len buffer t h).1 in
    record {
      here = λ d e.
          subst (IsCounted len 1) (ground (arith, slots id))
            (make_client-IsCounted len id port ip sock buffer);
      others = λ j d e differ. v.each j d (ground (arith, slots j));
      none_abandoned = add_client-abandoned port ip sock len buffer t ∙ v.nothing_lost;
    }

-- The receive that follows, and the end of the handler.
pub receiving-IsServed :
    (len id : ℕ) (a : Bool) (c : Client) (t : ClientTable)
    → c.id ≡ id
    → IsKnown c t
    → IsCounted len 1 c
    → IsServed len id 1 t
    → AreServed len (
        finish_client
          (decrease_reference_count
            (decrease_reference_count (post_receive_event a (increase_reference_count c))))
          t)
receiving-IsServed len id a c t e k n v =
    let posted = post_receive_event a (increase_reference_count c) in
    let next = decrease_reference_count (decrease_reference_count posted) in
    let same : posted.id ≡ c.id = post_receive_event_id a (increase_reference_count c) in
    let m : IsCounted len 0 next = decrease-IsCounted len 0 _ (
      decrease-IsCounted len 1 posted (
        post_receive_event-IsCounted len 2 a (increase_reference_count c)
          (increase-IsCounted len 1 c n))) in
    IsServed-all len next.id _ (
      finish_client-IsServed len 0 1 next t (IsKnown-same c next t same k) m
        (subst (λ (x : ℕ). IsServed len x 1 t) (sym (same ∙ e)) v))

pub on_connection-AreServed :
    (len port : ℕ) (ip : Bytes) (sock : ℕ) (buffer : Bytes) (a b : Bool) (s : ServerState)
    → IsConsistent s.table
    → AreServed len s.table
    → AreServed len (on_connection len port ip sock buffer a b s).table
unfolding on_connection
on_connection-AreServed len port ip sock buffer a b s h v =
    let made = add_client port ip sock len buffer s.table in
    let t = made.1 in
    let id = made.0 in
    let g = add_client-IsConsistent port ip sock len buffer s.table h in
    let w = add_client-IsServed len port ip sock buffer s.table h v in
    elim (Option-cases (slot t.client_list id)) [
      | inl e ↦ rw (on_connection, e) v
      | inr (c, e) ↦
          rw (on_connection, e)
            (receiving-IsServed len id a c t (g.own id c e) (c, slot-own id t c g e) (w.here c e) w)
    ]
