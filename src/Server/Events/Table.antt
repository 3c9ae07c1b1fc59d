-- ===== src/Server/Events/Table.antt =====
-- The client table in the events of src/networking/TCPServer.h.
use pulse_net.Base.{
  ℕ, Bool, ◌≡◌, refl, sym, ap, ◌∙◌, subst, none, some, ◌==◌, length, drop, arith, Bool-cases,
  Option-cases, inl, inr, true, false,
}
use pulse_net.Base.Bytes.{Bytes}
use pulse_net.Http.Message.HeaderMap.{Headers}
use pulse_net.Http.Assembler.State.{Limits}
use pulse_net.Http.Assembler.Feed.{feed}
use pulse_net.Server.Client.{
  Client, increase_reference_count, decrease_reference_count, disconnect, is_released,
}
use pulse_net.Server.Table.{ClientTable, slot, put, add_client, get_client}
use pulse_net.Server.Table.Laws.{
  IsConsistent, slot-set, slot-vacant, install-IsConsistent, add_client-IsConsistent,
  get_client-none, get_client-some, terminate_client-IsConsistent,
}
use pulse_net.Server.Sending.{
  front, post_receive_event, post_send_event, finish_client, send_to, send_found, send,
}
use pulse_net.Server.Events.{
  ServerState, Completion, received, sent, store_received, on_connection, on_received, on_sent,
  on_kind, completed_operation, on_completion, disconnect_client, assemble, assemble_found,
}

-- A client stands at the id of `c`.
abbrev pub IsKnown : Client → ClientTable → Type 0
IsKnown c t = (d : Client) × (slot t.client_list c.id ≡ some d)

pub put-slot :
    (c : Client) (t : ClientTable) → IsKnown c t → slot (put c.id c t).client_list c.id ≡ some c
put-slot c t (d, e) =
    let room = (slot-vacant t.client_list c.id d e).1 in
    ground (arith, slot-set t.client_list c.id c.id (some c) room)

pub put-IsConsistent :
    (c : Client) (t : ClientTable) → IsKnown c t → IsConsistent t → IsConsistent (put c.id c t)
put-IsConsistent c t (d, e) s =
    let (full, room) = slot-vacant t.client_list c.id d e in
    install-IsConsistent t t.client_list t.free_ids c.id c room refl
      (λ j. ground (arith, s.free j, full)) s.own

pub finish_client-IsConsistent :
    (c : Client) (t : ClientTable) → IsKnown c t → IsConsistent t → IsConsistent (finish_client c t)
unfolding finish_client
finish_client-IsConsistent c t k s = elim (Bool-cases (is_released c)) [
  | inl e ↦ rw e (terminate_client-IsConsistent c.id (put c.id c t) (put-IsConsistent c t k s))
  | inr e ↦ rw e (put-IsConsistent c t k s)
]

pub post_receive_event_id : (b : Bool) (c : Client) → (post_receive_event b c).id ≡ c.id
unfolding post_receive_event
post_receive_event_id true c = refl
post_receive_event_id false c = refl

pub post_send_event_id :
    (len : ℕ) (b : Bool) (w : Bytes) (c : Client) → (post_send_event len b w c).id ≡ c.id
unfolding post_send_event
post_send_event_id len b w c = ground arith

pub send_to_id : (len : ℕ) (b : Bool) (w : Bytes) (c : Client) → (send_to len b w c).id ≡ c.id
unfolding send_to post_send_event
send_to_id len b w c = ground arith

pub slot-own :
    (id : ℕ) (t : ClientTable) (c : Client)
    → IsConsistent t
    → slot t.client_list id ≡ some c
    → slot t.client_list c.id ≡ some c
slot-own id t c s e = subst (λ (x : ℕ). slot t.client_list x ≡ some c) (sym (s.own id c e)) e

-- A client that is looked up is written back.
pub put_found-IsConsistent :
    (id : ℕ) (t : ClientTable) (c d : Client)
    → IsConsistent t
    → slot t.client_list id ≡ some c
    → d.id ≡ c.id
    → IsConsistent (put id d t)
put_found-IsConsistent id t c d s e same =
    subst (λ (x : ℕ). IsConsistent (put x d t)) (same ∙ s.own id c e)
      (put-IsConsistent d t
        (c, subst (λ (x : ℕ). slot t.client_list x ≡ some c) (sym (same ∙ s.own id c e)) e) s)

-- The entry of a client that is looked up.
pub get_client-IsKnown :
    (id : ℕ) (t : ClientTable) (c : Client)
    → IsConsistent t
    → slot t.client_list id ≡ some c
    → IsKnown (increase_reference_count c) (put id (increase_reference_count c) t)
get_client-IsKnown id t c s e =
    let same = s.own id c e in
    let room = (slot-vacant t.client_list id c e).1 in
    (
      increase_reference_count c,
      ground (arith, slot-set t.client_list id c.id (some (increase_reference_count c)) room),
    )

pub IsKnown-same : (c d : Client) (t : ClientTable) → d.id ≡ c.id → IsKnown c t → IsKnown d t
IsKnown-same c d t e (b, k) = (b, rw e k)

pub send-some :
    (len : ℕ) (b : Bool) (id : ℕ) (w : Bytes) (t : ClientTable) (c : Client)
    → slot t.client_list id ≡ some c
    → send len b id w t
      ≡ finish_client
          (send_to len b w (increase_reference_count c))
          (put id (increase_reference_count c) t)
unfolding send send_found
send-some len b id w t c e = ap (send_found len b w) (get_client-some id t c e)

pub send-none :
    (len : ℕ) (b : Bool) (id : ℕ) (w : Bytes) (t : ClientTable)
    → slot t.client_list id ≡ none
    → send len b id w t ≡ t
unfolding send send_found
send-none len b id w t e = ap (send_found len b w) (get_client-none id t e)

pub send-IsConsistent :
    (len : ℕ) (b : Bool) (id : ℕ) (w : Bytes) (t : ClientTable)
    → IsConsistent t
    → IsConsistent (send len b id w t)
send-IsConsistent len b id w t s = elim (Option-cases (slot t.client_list id)) [
  | inl e ↦ rw (send-none len b id w t e) s
  | inr (c, e) ↦
      let found = increase_reference_count c in
      rw (send-some len b id w t c e) (
        finish_client-IsConsistent (send_to len b w found) (put id found t)
          (IsKnown-same found (send_to len b w found) (put id found t) (send_to_id len b w found)
            (get_client-IsKnown id t c s e))
          (put_found-IsConsistent id t c found s e refl))
]

pub disconnect_client-IsConsistent :
    (id : ℕ) (t : ClientTable) → IsConsistent t → IsConsistent (disconnect_client id t)
unfolding disconnect_client
disconnect_client-IsConsistent id t s = elim (Option-cases (slot t.client_list id)) [
  | inl e ↦ rw (disconnect_client, e) s
  | inr (c, e) ↦
      rw (disconnect_client, e)
        (finish_client-IsConsistent (decrease_reference_count (disconnect c)) t
          (c, slot-own id t c s e) s)
]

-- The table after `on_completion` and `assemble` on a client that stands in it.
on_received-IsConsistent :
    (bytes : Bytes) (c : Client) (s : ServerState)
    → IsKnown c s.table
    → IsConsistent s.table
    → IsConsistent (on_received bytes c s).table
on_received-IsConsistent bytes c s k h =
    let gone = put-IsConsistent (disconnect c) s.table k h in
    let ended = terminate_client-IsConsistent c.id (put c.id (disconnect c) s.table) gone in
    let stored = put-IsConsistent (store_received bytes c) s.table k h in
    unfold on_received in ground (arith, gone, ended, stored)

on_sent-IsConsistent :
    (len : ℕ) (b : Bool) (c : Client) (s : ServerState)
    → IsKnown c s.table
    → IsConsistent s.table
    → IsConsistent (on_sent len b c s).table
unfolding on_sent
on_sent-IsConsistent len b c s k h =
    let popped = record c { outbound_message_queue = drop 1 c.outbound_message_queue } in
    let idle = put-IsConsistent (record popped { is_sending = false }) s.table k h in
    let next = decrease_reference_count (
      post_send_event len b (front popped.outbound_message_queue)
        (increase_reference_count popped)) in
    let more =
      finish_client-IsConsistent next s.table
        (IsKnown-same c next s.table
          (post_send_event_id len b (front popped.outbound_message_queue)
            (increase_reference_count popped))
          k)
        h in
    elim (Bool-cases (length popped.outbound_message_queue == 0)) [
      | inl e ↦ rw e idle
      | inr e ↦ rw e more
    ]

on_kind-IsConsistent :
    (len : ℕ) (b : Bool) (completion : Completion) (c : Client) (s : ServerState)
    → IsKnown c s.table
    → IsConsistent s.table
    → IsConsistent (on_kind len b completion c s).table
unfolding on_kind
on_kind-IsConsistent len b (received bytes) c s k h = on_received-IsConsistent bytes c s k h
on_kind-IsConsistent len b sent c s k h = on_sent-IsConsistent len b c s k h

pub completed_operation_id :
    (completion : Completion) (c : Client) → (completed_operation completion c).id ≡ c.id
unfolding completed_operation
completed_operation_id (received bytes) c = refl
completed_operation_id sent c = refl

-- The client table stays consistent in every completion of an operation.
pub on_completion-IsConsistent :
    (len : ℕ) (b : Bool) (id : ℕ) (completion : Completion) (s : ServerState)
    → IsConsistent s.table
    → IsConsistent (on_completion len b id completion s).table
unfolding on_completion
on_completion-IsConsistent len b id completion s h =
    elim (Option-cases (slot s.table.client_list id)) [
      | inl e ↦ rw (on_completion, e) h
      | inr (found, e) ↦
          let done = completed_operation completion found in
          let c = decrease_reference_count done in
          let k : IsKnown c s.table =
            IsKnown-same found c s.table (completed_operation_id completion found)
              (found, slot-own id s.table found h e) in
          let kept = on_kind-IsConsistent len b completion c s k h in
          let gone =
            terminate_client-IsConsistent c.id (put c.id c s.table)
              (put-IsConsistent c s.table k h) in
          rw (on_completion, e)
            (elim (Bool-cases (is_released c)) [
              | inl free ↦ rw free gone
              | inr held ↦ rw held kept
            ])
    ]

assemble-IsConsistent :
    (iterate : Headers → Headers) (l : Limits) (len : ℕ) (b a : Bool) (found : Client)
    (s : ServerState)
    → IsKnown found s.table
    → IsConsistent s.table
    → IsConsistent (assemble iterate l len b a found s).table
unfolding assemble
assemble-IsConsistent iterate l len b a found s k h =
    let fed = (feed iterate l s.client_states found.id found.recv_buffer found.recv_len len).0 in
    let c = record found { recv_buffer = fed.buffer; recv_len = fed.buffer_len } in
    let t = put c.id c s.table in
    let stored = put-IsConsistent c s.table k h in
    let answered = send len b c.id fed.result.error_message t in
    let failed =
      disconnect_client-IsConsistent c.id answered
        (send-IsConsistent len b c.id fed.result.error_message t stored) in
    let next =
      decrease_reference_count
        (decrease_reference_count (post_receive_event a (increase_reference_count c))) in
    let known : IsKnown next t =
      IsKnown-same c next t (post_receive_event_id a (increase_reference_count c))
        (c, put-slot c s.table k) in
    let kept = finish_client-IsConsistent next t known stored in
    elim (Bool-cases fed.result.error) [ inl e ↦ rw e failed | inr e ↦ rw e kept ]

-- The client table stays consistent in every connection that is accepted.
pub on_connection-IsConsistent :
    (len port : ℕ) (ip : Bytes) (sock : ℕ) (buffer : Bytes) (a b : Bool) (s : ServerState)
    → IsConsistent s.table
    → IsConsistent (on_connection len port ip sock buffer a b s).table
unfolding on_connection
on_connection-IsConsistent len port ip sock buffer a b s h =
    let t = (add_client port ip sock len buffer s.table).1 in
    let id = (add_client port ip sock len buffer s.table).0 in
    let g = add_client-IsConsistent port ip sock len buffer s.table h in
    elim (Option-cases (slot t.client_list id)) [
      | inl e ↦ rw (on_connection, e) h
      | inr (c, e) ↦
          let next =
            decrease_reference_count
              (decrease_reference_count (post_receive_event a (increase_reference_count c))) in
          rw (on_connection, e)
            (finish_client-IsConsistent next t
              (IsKnown-same c next t (post_receive_event_id a (increase_reference_count c))
                (c, slot-own id t c g e))
              g)
    ]

pub assemble_found-IsConsistent :
    (iterate : Headers → Headers) (l : Limits) (len : ℕ) (b a : Bool) (id : ℕ) (s : ServerState)
    → IsConsistent s.table
    → IsConsistent (assemble_found iterate l len b a (get_client id s.table) s).table
unfolding assemble_found
assemble_found-IsConsistent iterate l len b a id s h =
    elim (Option-cases (slot s.table.client_list id)) [
      | inl e ↦ rw (get_client-none id s.table e) h
      | inr (c, e) ↦
          let found = increase_reference_count c in
          let t = put id found s.table in
          rw (get_client-some id s.table c e) (
            assemble-IsConsistent iterate l len b a found (record s { table = t })
              (get_client-IsKnown id s.table c h e)
              (put_found-IsConsistent id s.table c found h e refl))
    ]
