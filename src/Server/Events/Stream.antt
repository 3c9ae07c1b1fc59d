-- ===== src/Server/Events/Stream.antt =====
-- The bytes that the clients are sent, through the events of src/networking/TCPServer.h.
use pulse_net.Base.{
  ℕ, ◌<◌, Bool, false, ◌≡◌, refl, sym, ap, ◌∙◌, subst, some, ◌++◌, ◌==◌, length, drop, arith,
  Bool-cases, inl, inr,
}
use pulse_net.Base.Bytes.{concat, Bytes}
use pulse_net.Server.Client.{
  Client, increase_reference_count, decrease_reference_count, is_released,
}
use pulse_net.Server.Table.{ClientTable, slot, put, terminate_client}
use pulse_net.Server.Table.Laws.{IsConsistent, slot-vacant, terminate_client-some}
use pulse_net.Server.Sending.{front, post_send_event, finish_client, send_to, send}
use pulse_net.Server.Sending.Counting.{increase-IsCounted}
use pulse_net.Server.Sending.Posting.{IsWaiting, popped}
use pulse_net.Server.Sending.Stream.{stream, parts, send_to-stream, popped-parts, idle-parts}
use pulse_net.Server.Events.{
  ServerState, sent, on_sent, on_kind, on_completion, completed_operation,
}
use pulse_net.Server.Events.Table.{
  IsKnown, IsKnown-same, put-slot, slot-own, send-some, send_to_id, get_client-IsKnown,
  post_send_event_id,
}
use pulse_net.Server.Events.Serving.{AreServed, put_same, set_none}
use pulse_net.Server.Events.Counting.{done, done_id, sent-IsWaiting}

-- A client that is still there after it was finished with is as it was left.
terminated-gone :
    (c d : Client) (t : ClientTable)
    → IsKnown c t
    → slot (terminate_client c.id (put c.id c t)).client_list c.id ≡ some d
    → ⊥
terminated-gone c d t k e =
    let u = put c.id c t in
    let room = (slot-vacant u.client_list c.id c (put-slot c t k)).1 in
    set_none c.id d u room (rw (terminate_client-some c.id u c (put-slot c t k)) at e)

finish_client-slot :
    (c d : Client) (t : ClientTable)
    → IsKnown c t
    → slot (finish_client c t).client_list c.id ≡ some d
    → c ≡ d
unfolding finish_client
finish_client-slot c d t k e = elim (Bool-cases (is_released c)) [
  | inl free ↦ absurd (terminated-gone c d t k (rw free at e))
  | inr kept ↦ put_same c d t k (rw kept at e)
]

-- In a consistent table whose references are counted right, with a buffer of one byte or more, `send`
-- puts the bytes of its message, whole and once, behind the bytes that the client is sent, also when
-- the system refuses the operation, provided that a client is still at the id behind the call.
pub send-stream :
    (len id : ℕ) (b : Bool) (message : Bytes) (t : ClientTable) (c d : Client)
    → 0 < len
    → IsConsistent t
    → AreServed len t
    → slot t.client_list id ≡ some c
    → slot (send len b id message t).client_list id ≡ some d
    → stream d ≡ stream c ++ message
send-stream len id b message t c d h s v e f =
    let found = increase_reference_count c in
    let u = put id found t in
    let sent = send_to len b message found in
    let same : sent.id ≡ id = send_to_id len b message found ∙ s.own id c e in
    let k : IsKnown sent u =
      IsKnown-same found sent u (send_to_id len b message found) (get_client-IsKnown id t c s e) in
    let g : slot (finish_client sent u).client_list sent.id ≡ some d =
      subst (λ (x : ℕ). slot (finish_client sent u).client_list x ≡ some d) (sym same)
        (rw (send-some len b id message t c e) at f) in
    ap stream (sym (finish_client-slot sent d u k g))
    ∙ send_to-stream len 0 b message found h (increase-IsCounted len 0 c (v.each id c e))

-- The front is being sent: the other parts are unsent.
sending-parts :
    (c : Client)
    → (c.pending_sends == 0) ≡ false
    → parts c ≡ c.transmitted ++ drop 1 c.outbound_message_queue
sending-parts c e = rw e refl

parts-done :
    (len : ℕ) (c : Client)
    → IsWaiting len 0 (done sent c)
    → 0 < c.pending_sends
    → parts (popped (done sent c)) ≡ parts c
unfolding done completed_operation
parts-done len c w p =
    idle-parts (popped (done sent c)) w.none_sent ∙ sym (sending-parts c (ground arith))

on_sent-parts :
    (len : ℕ) (b : Bool) (c d : Client) (s : ServerState)
    → IsKnown c s.table
    → IsWaiting len 0 c
    → slot (on_sent len b c s).table.client_list c.id ≡ some d
    → parts d ≡ parts (popped c)
unfolding on_sent
on_sent-parts len b c d s k w e =
    let next = decrease_reference_count (
      post_send_event len b (front (popped c).outbound_message_queue)
        (increase_reference_count (popped c))) in
    let same =
      post_send_event_id len b (front (popped c).outbound_message_queue)
        (increase_reference_count (popped c)) in
    elim (Bool-cases (length (popped c).outbound_message_queue == 0)) [
      | inl last ↦
          ap parts
            (sym (put_same (record (popped c) { is_sending = false }) d s.table k (rw last at e)))
      | inr more ↦
          ap parts (
            sym (
              finish_client-slot next d s.table (IsKnown-same c next s.table same k) (
                subst (λ (x : ℕ). slot (finish_client next s.table).client_list x ≡ some d)
                  (sym same) (rw more at e))))
          ∙ popped-parts len b c w more
    ]

-- In a consistent table whose references are counted right, the completion of a pending send changes
-- no byte that the client is sent, provided that a client is still at the id behind it: the part that
-- was sent leaves the queue, and the next one is given to the system or waits.
pub on_completion-stream :
    (len id : ℕ) (b : Bool) (s : ServerState) (c d : Client)
    → IsConsistent s.table
    → AreServed len s.table
    → slot s.table.client_list id ≡ some c
    → 0 < c.pending_sends
    → slot (on_completion len b id sent s).table.client_list id ≡ some d
    → stream d ≡ stream c
unfolding on_completion on_kind done
on_completion-stream len id b s c d h v e p f =
    let k : IsKnown (done sent c) s.table =
      IsKnown-same c (done sent c) s.table (done_id sent c) (c, slot-own id s.table c h e) in
    let same : (done sent c).id ≡ id = done_id sent c ∙ h.own id c e in
    let w = sent-IsWaiting len c (v.each id c e) p in
    let g : slot (on_completion len b id sent s).table.client_list (done sent c).id ≡ some d =
      subst (λ (x : ℕ). slot (on_completion len b id sent s).table.client_list x ≡ some d)
        (sym same) f in
    let opened = rw (on_completion, e) at g in
    elim (Bool-cases (is_released (done sent c))) [
      | inl free ↦ absurd (terminated-gone (done sent c) d s.table k (rw free at opened))
      | inr held ↦
          ap concat
            (on_sent-parts len b (done sent c) d s k w (rw held at opened) ∙ parts-done len c w p)
    ]
