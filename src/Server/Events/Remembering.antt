-- ===== src/Server/Events/Remembering.antt =====
-- The clients that are connected to the server of src/networking/TCPServer.h, and what they wait for.
use pulse_net.Base.{
  ℕ, ◌<◌, Bool, true, false, ◌≡◌, refl, sym, ◌∙◌, subst, List, ◌==◌, length, ◌⊎◌, inl, inr, arith,
  Bool-cases, Option-cases,
}
use pulse_net.Base.Bytes.{Bytes}
use pulse_net.Server.Client.{
  Client, increase_reference_count, decrease_reference_count, disconnect, is_released,
}
use pulse_net.Server.Table.{ClientTable, slot, add_client}
use pulse_net.Server.Table.Laws.{IsConsistent, add_client-IsConsistent, add_client-slot}
use pulse_net.Server.Sending.{front, post_receive_event, post_send_event, finish_client, send_to}
use pulse_net.Server.Sending.Posting.{popped}
use pulse_net.Server.Events.{
  ServerState, push_id, Completion, received, sent, store_received, completed_operation,
  on_connection, on_received, on_sent, on_kind, on_completion,
}
use pulse_net.Server.Events.Table.{
  IsKnown, IsKnown-same, slot-own, post_receive_event_id, post_send_event_id,
}
use pulse_net.Server.Events.Counting.{done, done_id}
use pulse_net.Server.Events.Waking.{All, Others, put-All, terminate_client-All, finish_client-All}
use pulse_net.Server.Events.Queues.{IsQueued, push_id-length, push_id-IsQueued, push_id-others}

-- A client at the id `j` that is connected has a receive pending, or waits in the queue of a worker.
unfoldable pub IsAwaited : List (List ℕ) → ℕ → Client → Type 0
IsAwaited queues j c = c.is_disconnecting ≡ false → (0 < c.pending_receives) ⊎ IsQueued j queues

-- What a client that comes of another one keeps of it.
abbrev pub IsKept : Client → Client → Type 0
IsKept c d =
    (d.pending_receives ≡ c.pending_receives)
    × (d.is_disconnecting ≡ false → c.is_disconnecting ≡ false)

pub IsAwaited-kept :
    (queues : List (List ℕ)) (j : ℕ) (c d : Client)
    → IsKept c d
    → IsAwaited queues j c
    → IsAwaited queues j d
unfolding IsAwaited
IsAwaited-kept queues j c d k w e = elim (w (k.1 e)) [
  | inl p ↦ inl (omega (arith, p, k.0))
  | inr q ↦ inr q
]

pub disconnect-IsAwaited :
    (queues : List (List ℕ)) (j : ℕ) (c : Client)
    → IsAwaited queues j (decrease_reference_count (disconnect c))
unfolding IsAwaited
disconnect-IsAwaited queues j c e = absurd cc

-- A receive is posted, or the client is disconnected.
pub posted-IsAwaited :
    (queues : List (List ℕ)) (j : ℕ) (a : Bool) (c : Client)
    → IsAwaited queues j (
        decrease_reference_count
          (decrease_reference_count (post_receive_event a (increase_reference_count c))))
unfolding IsAwaited post_receive_event
posted-IsAwaited queues j true c e = inl (omega arith)
posted-IsAwaited queues j false c e = absurd cc

pub send_to-IsKept : (len : ℕ) (b : Bool) (w : Bytes) (c : Client) → IsKept c (send_to len b w c)
unfolding send_to post_send_event
send_to-IsKept len b w c = (ground arith, λ e. ground arith)

post_send_event-IsKept :
    (len : ℕ) (b : Bool) (w : Bytes) (c : Client) → IsKept c (post_send_event len b w c)
unfolding post_send_event
post_send_event-IsKept len b w c = (ground arith, λ e. ground arith)

-- All clients that are connected are awaited.
unfoldable pub AreAwaited : ServerState → Type 0
AreAwaited s = (0 < length s.assembling_queues) × All (IsAwaited s.assembling_queues) s.table

pub on_connection-AreAwaited :
    (len port : ℕ) (ip : Bytes) (sock : ℕ) (buffer : Bytes) (a b : Bool) (s : ServerState)
    → IsConsistent s.table
    → AreAwaited s
    → AreAwaited (on_connection len port ip sock buffer a b s)
unfolding on_connection AreAwaited
on_connection-AreAwaited len port ip sock buffer a b s h w =
    let made = add_client port ip sock len buffer s.table in
    let t = made.1 in
    let id = made.0 in
    let g = add_client-IsConsistent port ip sock len buffer s.table h in
    let slots = (add_client-slot port ip sock len buffer s.table h).1 in
    let Q = IsAwaited s.assembling_queues in
    let others : Others id Q t = λ j d e differ. w.1 j d (ground (arith, slots j)) in
    elim (Option-cases (slot t.client_list id)) [
      | inl e ↦ rw (on_connection, e) w
      | inr (c, e) ↦
          let posted = post_receive_event a (increase_reference_count c) in
          let next = decrease_reference_count (decrease_reference_count posted) in
          let same : next.id ≡ c.id = post_receive_event_id a (increase_reference_count c) in
          let at : next.id ≡ id = same ∙ g.own id c e in
          rw (on_connection, e)
            (
              w.0,
              finish_client-All Q next t (IsKnown-same c next t same (c, slot-own id t c g e))
                  (posted-IsAwaited s.assembling_queues next.id a c)
                  (subst (λ (x : ℕ). Others x Q t) (sym at) others),
            )
    ]

-- The bytes of a receive: the client is disconnected, or its id is queued.
on_received-AreAwaited :
    (bytes : Bytes) (c : Client) (s : ServerState)
    → IsKnown c s.table
    → 0 < length s.assembling_queues
    → Others c.id (IsAwaited s.assembling_queues) s.table
    → AreAwaited (on_received bytes c s)
unfolding on_received finish_client AreAwaited IsAwaited
on_received-AreAwaited bytes c s k h others =
    let pushed = push_id c.id s.assembling_queues in
    let gone =
      finish_client-All (IsAwaited s.assembling_queues) (disconnect c) s.table k (λ e. absurd cc)
        others in
    let stored =
      put-All (IsAwaited pushed) (store_received bytes c) s.table k
        (λ e. inr (push_id-IsQueued c.id s.assembling_queues h))
        (λ j d f differ e. elim (others j d f differ e) [
          | inl p ↦ inl p
          | inr q ↦ inr (push_id-others j c.id s.assembling_queues h q)
        ]) in
    let size = push_id-length c.id s.assembling_queues in
    elim (Bool-cases (length bytes == 0)) [
      | inl e ↦ rw e (h, gone)
      | inr e ↦ rw e (omega (arith, size, h), stored)
    ]

-- The front of the queue was sent.
on_sent-AreAwaited :
    (len : ℕ) (b : Bool) (c : Client) (s : ServerState)
    → IsKnown c s.table
    → 0 < length s.assembling_queues
    → IsAwaited s.assembling_queues c.id c
    → Others c.id (IsAwaited s.assembling_queues) s.table
    → AreAwaited (on_sent len b c s)
unfolding on_sent AreAwaited
on_sent-AreAwaited len b c s k h w others =
    let Q = IsAwaited s.assembling_queues in
    let p = popped c in
    let next =
      decrease_reference_count
        (post_send_event len b (front p.outbound_message_queue) (increase_reference_count p)) in
    let same : next.id ≡ c.id =
      post_send_event_id len b (front p.outbound_message_queue) (increase_reference_count p) in
    let keep : IsKept c next =
      post_send_event-IsKept len b (front p.outbound_message_queue) (increase_reference_count p) in
    elim (Bool-cases (length p.outbound_message_queue == 0)) [
      | inl e ↦ rw e (
        h,
        put-All Q (record p { is_sending = false }) s.table k
            (IsAwaited-kept s.assembling_queues c.id c (record p { is_sending = false })
              (refl, λ f. f) w)
            others,
      )
      | inr e ↦ rw e (
        h,
        finish_client-All Q next s.table (IsKnown-same c next s.table same k)
            (subst (λ (x : ℕ). Q x next) (sym same)
              (IsAwaited-kept s.assembling_queues c.id c next keep w))
            (subst (λ (x : ℕ). Others x Q s.table) (sym same) others),
      )
    ]

pub Others-of : (Q : ℕ → Client → Type 0) (id : ℕ) (t : ClientTable) → All Q t → Others id Q t
Others-of Q id t all j c e differ = all j c e

sent-IsKept : (c : Client) → IsKept c (done sent c)
unfolding done completed_operation
sent-IsKept c = (refl, λ e. e)

on_kind-AreAwaited :
    (len : ℕ) (b : Bool) (completion : Completion) (c : Client) (s : ServerState)
    → IsKnown (done completion c) s.table
    → AreAwaited s
    → IsAwaited s.assembling_queues c.id c
    → AreAwaited (on_kind len b completion (done completion c) s)
unfolding on_kind AreAwaited done completed_operation
on_kind-AreAwaited len b (received bytes) c s k w at =
    on_received-AreAwaited bytes (done (received bytes) c) s k w.0
      (Others-of (IsAwaited s.assembling_queues) (done (received bytes) c).id s.table w.1)
on_kind-AreAwaited len b sent c s k w at =
    on_sent-AreAwaited len b (done sent c) s k w.0
      (IsAwaited-kept s.assembling_queues c.id c (done sent c) (sent-IsKept c) at)
      (Others-of (IsAwaited s.assembling_queues) (done sent c).id s.table w.1)

pub on_completion-AreAwaited :
    (len : ℕ) (b : Bool) (id : ℕ) (completion : Completion) (s : ServerState)
    → IsConsistent s.table
    → AreAwaited s
    → AreAwaited (on_completion len b id completion s)
unfolding on_completion done AreAwaited
on_completion-AreAwaited len b id completion s h w =
    elim (Option-cases (slot s.table.client_list id)) [
      | inl e ↦ rw (on_completion, e) w
      | inr (found, e) ↦
          let c = done completion found in
          let Q = IsAwaited s.assembling_queues in
          let own = slot-own id s.table found h e in
          let k : IsKnown c s.table =
            IsKnown-same found c s.table (done_id completion found) (found, own) in
          let gone = terminate_client-All Q c s.table k (Others-of Q c.id s.table w.1) in
          let kept = on_kind-AreAwaited len b completion found s k w (w.1 found.id found own) in
          rw (on_completion, e)
            (elim (Bool-cases (is_released c)) [
              | inl free ↦ rw free (w.0, gone)
              | inr held ↦ rw held kept
            ])
    ]
