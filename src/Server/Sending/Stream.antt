-- ===== src/Server/Sending/Stream.antt =====
-- The bytes that a client of src/networking/TCPServer.h is sent, in their order.
use mathlib.Core.List.{append_assoc}
use pulse_net.Base.{
  ℕ, suc, ◌<◌, Bool, true, false, ◌≡◌, refl, sym, ap, ◌∙◌, subst, List, [], ◌∷◌, ◌++◌, length, drop,
  arith, if◌then◌else◌, ◌==◌, le→ltb_false, Bool-cases, inl, inr,
}
use pulse_net.Base.Bytes.{concat, Bytes}
use pulse_net.Server.Client.{Client, increase_reference_count, decrease_reference_count}
use pulse_net.Server.Sending.{front, outgoing, post_send_event, send_to}
use pulse_net.Server.Sending.Outgoing.{outgoing-parts}
use pulse_net.Server.Sending.Delivery.{front_short}
use pulse_net.Server.Sending.Counting.{IsCounted}
use pulse_net.Server.Sending.Posting.{
  IsWaiting, popped, queue_up, sent_by, sent_by-send_to, queue_up-IsWaiting, popped-IsWaiting,
  increase-IsWaiting,
}

-- What is still to be sent: the front of the queue is left out while it is being sent.
abbrev pub unsent : Client → List Bytes
unsent c =
    if c.pending_sends == 0 then c.outbound_message_queue else drop 1 c.outbound_message_queue

-- What was given to the system and what is still to be given to it.
abbrev pub parts : Client → List Bytes
parts c = c.transmitted ++ unsent c

front-drop : (queue : List Bytes) → 0 < length queue → front queue ∷ drop 1 queue ≡ queue
front-drop [] h = absurd (omega arith)
front-drop (x ∷ xs) h = refl

-- The front of a queue is given to the system.
front-parts :
    (given queue : List Bytes)
    → 0 < length queue
    → (given ++ front queue ∷ []) ++ drop 1 queue ≡ given ++ queue
front-parts given queue h =
    append_assoc given (front queue ∷ []) (drop 1 queue)
    ∙ ap (λ (q : List Bytes). given ++ q) (front-drop queue h)

pub post_send_event-parts :
    (len held : ℕ) (b : Bool) (c : Client)
    → IsWaiting len held c
    → parts (post_send_event len b (front c.outbound_message_queue) c)
      ≡ c.transmitted ++ c.outbound_message_queue
unfolding post_send_event
post_send_event-parts len held true c w =
    let fits = front_short len [] c.outbound_message_queue tt w.short_parts in
    rw (le→ltb_false _ _ fits, w.none_sent)
      (front-parts c.transmitted c.outbound_message_queue w.some_part)
post_send_event-parts len held false c w =
    let fits = front_short len [] c.outbound_message_queue tt w.short_parts in
    rw (le→ltb_false _ _ fits, w.none_sent) refl

pub idle-parts :
    (c : Client) → c.pending_sends ≡ 0 → parts c ≡ c.transmitted ++ c.outbound_message_queue
idle-parts c e = rw e refl

drop-append :
    (queue more : List Bytes) → 0 < length queue → drop 1 (queue ++ more) ≡ drop 1 queue ++ more
drop-append [] more h = absurd (omega arith)
drop-append (x ∷ xs) more h = refl

-- A client that is sending: the parts of the message wait behind the others.
queue_up-parts :
    (len held : ℕ) (more : List Bytes) (c : Client)
    → IsCounted len held c
    → parts (queue_up more c) ≡ parts c ++ more
queue_up-parts len held more c k = elim (Bool-cases (c.pending_sends == 0)) [
  | inl e ↦ rw e (sym (append_assoc c.transmitted c.outbound_message_queue more))
  | inr e ↦
      let some_part = k.front_sent (ground arith) in
      rw (e, drop-append c.outbound_message_queue more some_part)
        (sym (append_assoc c.transmitted (drop 1 c.outbound_message_queue) more))
]

sent_by-parts :
    (len held : ℕ) (b : Bool) (message : Bytes) (c : Client) (busy : Bool)
    → 0 < len
    → c.is_sending ≡ busy
    → IsCounted len (suc held) c
    → parts (sent_by len b message c busy) ≡ parts c ++ outgoing len message
unfolding sent_by
sent_by-parts len held b message c true h e k =
    queue_up-parts len (suc held) (outgoing len message) c k
sent_by-parts len held b message c false h e k =
    let q = queue_up (outgoing len message) c in
    let w = queue_up-IsWaiting len (suc held) message c h e k in
    let sent =
      post_send_event-parts len (suc (suc held)) b (increase_reference_count q)
        (increase-IsWaiting len (suc held) q w) in
    sent
    ∙ sym (append_assoc c.transmitted c.outbound_message_queue (outgoing len message))
    ∙ ap (λ (old : List Bytes). old ++ outgoing len message) (sym (idle-parts c (k.idle e)))

pub send_to-parts :
    (len held : ℕ) (b : Bool) (message : Bytes) (c : Client)
    → 0 < len
    → IsCounted len (suc held) c
    → parts (send_to len b message c) ≡ parts c ++ outgoing len message
send_to-parts len held b message c h k =
    subst (λ (d : Client). parts d ≡ parts c ++ outgoing len message)
      (sent_by-send_to len b message c c.is_sending refl)
      (sent_by-parts len held b message c c.is_sending h refl k)

concat-append : (old new : List Bytes) → concat (old ++ new) ≡ concat old ++ concat new
concat-append [] new = refl
concat-append (x ∷ xs) new =
    ap (λ (rest : Bytes). x ++ rest) (concat-append xs new)
    ∙ sym (append_assoc x (concat xs) (concat new))

-- The bytes of a client that were given to the system or wait for it, in their order.
abbrev pub stream : Client → Bytes
stream c = concat (parts c)

pub send_to-stream :
    (len held : ℕ) (b : Bool) (message : Bytes) (c : Client)
    → 0 < len
    → IsCounted len (suc held) c
    → stream (send_to len b message c) ≡ stream c ++ message
send_to-stream len held b message c h k =
    ap concat (send_to-parts len held b message c h k)
    ∙ concat-append (parts c) (outgoing len message)
    ∙ ap (λ (new : Bytes). stream c ++ new) (outgoing-parts len message h).0

-- The client once its front was sent, which leaves the queue.
pub popped-parts :
    (len : ℕ) (b : Bool) (c : Client)
    → IsWaiting len 0 c
    → (length (popped c).outbound_message_queue == 0) ≡ false
    → parts (
        decrease_reference_count (
          post_send_event len b
            (front (popped c).outbound_message_queue)
            (increase_reference_count (popped c))))
      ≡ parts (popped c)
popped-parts len b c w more =
    let p = increase_reference_count (popped c) in
    let ready = increase-IsWaiting len 0 (popped c) (popped-IsWaiting len c w more) in
    post_send_event-parts len 1 b p ready ∙ sym (idle-parts (popped c) w.none_sent)
