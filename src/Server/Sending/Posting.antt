-- ===== src/Server/Sending/Posting.antt =====
-- The reference count of a client through `postReceiveEvent`, `postSendEvent` and `send`
-- (src/networking/TCPServer.h).
use pulse_net.Base.{
  ℕ, suc, ◌+◌, ◌≤◌, ◌<◌, Bool, true, false, ◌≡◌, ◌≢◌, refl, List, [], ◌∷◌, ◌++◌, length, drop,
  arith, if◌then◌else◌, length-append, subst, sym, ap, le→ltb_false, ◌==◌, ==_iff,
}
use pulse_net.Base.Int.{ℤ}
use pulse_net.Base.Bytes.{Bytes}
use pulse_net.Server.Client.{Client, increase_reference_count, decrease_reference_count}
use pulse_net.Server.Sending.{front, outgoing, post_receive_event, post_send_event, send_to}
use pulse_net.Server.Sending.Outgoing.{AreShort, outgoing-parts}
use pulse_net.Server.Sending.Delivery.{front_short, AreShort-append}
use pulse_net.Server.Sending.Counting.{IsCounted, decrease-IsCounted, disconnect-IsCounted}

pub post_receive_event-IsCounted :
    (len held : ℕ) (b : Bool) (c : Client)
    → IsCounted len held c
    → IsCounted len held (post_receive_event b c)
unfolding post_receive_event
post_receive_event-IsCounted len held true c k = record {
  counted = ground arith;
  one_send = k.one_send;
  idle = k.idle;
  front_sent = k.front_sent;
  moving = k.moving;
  drained = k.drained;
  short = k.short;
}
post_receive_event-IsCounted len held false c k = disconnect-IsCounted len held c k

length_pos : (parts : List Bytes) → parts ≢ [] → 0 < length parts
length_pos [] h = absurd (h refl)
length_pos (x ∷ xs) h = omega arith

-- Nothing is being sent, and the queue is not empty: the front can be sent.
pub record IsWaiting (len held : ℕ) (c : Client) : Type 0 where
  pub waiting : c.reference_count ≡ ℤ.pos (c.pending_receives + held)
  pub none_sent : c.pending_sends ≡ 0
  pub some_part : 0 < length c.outbound_message_queue
  pub short_parts : AreShort len c.outbound_message_queue

front-short : (len : ℕ) (parts : List Bytes) → AreShort len parts → length (front parts) ≤ len
front-short len parts a = front_short len [] parts tt a

-- The front is given to the system, or the client is disconnected.
pub post_send_event-IsCounted :
    (len held : ℕ) (b : Bool) (c : Client)
    → IsWaiting len held c
    → IsCounted len held (post_send_event len b (front c.outbound_message_queue) c)
unfolding post_send_event
post_send_event-IsCounted len held true c w =
    let fits = front-short len c.outbound_message_queue w.short_parts in
    rw (le→ltb_false _ _ fits) (record {
      counted = ground (arith, w.waiting, w.none_sent);
      one_send = omega (arith, w.none_sent);
      idle = λ e. absurd cc;
      front_sent = λ h. w.some_part;
      moving = λ d e. omega (arith, w.none_sent);
      drained = λ d e. absurd cc;
      short = w.short_parts;
    })
post_send_event-IsCounted len held false c w =
    let fits = front-short len c.outbound_message_queue w.short_parts in
    rw (le→ltb_false _ _ fits) (record {
      counted = ground (arith, w.waiting, w.none_sent);
      one_send = omega (arith, w.none_sent);
      idle = λ e. w.none_sent;
      front_sent = λ h. w.some_part;
      moving = λ d e. absurd cc;
      drained = λ d e. absurd cc;
      short = w.short_parts;
    })

pub increase-IsWaiting :
    (len held : ℕ) (c : Client)
    → IsWaiting len held c
    → IsWaiting len (suc held) (increase_reference_count c)
increase-IsWaiting len held c w = record {
  waiting = ground (arith, w.waiting);
  none_sent = w.none_sent;
  some_part = w.some_part;
  short_parts = w.short_parts;
}

-- The reference that stands round `postSendEvent` is given back.
pub posted-IsCounted :
    (len held : ℕ) (b : Bool) (c : Client)
    → IsWaiting len held c
    → IsCounted len held (
        decrease_reference_count
          (post_send_event len b (front c.outbound_message_queue) (increase_reference_count c)))
posted-IsCounted len held b c w = decrease-IsCounted len held _ (
    post_send_event-IsCounted len (suc held) b (increase_reference_count c)
      (increase-IsWaiting len held c w))

abbrev pub queue_up : List Bytes → Client → Client
queue_up parts c = record c { outbound_message_queue = c.outbound_message_queue ++ parts }

-- `send_to`, on whether a block is being sent.
unfoldable pub sent_by : ℕ → Bool → Bytes → Client → Bool → Client
sent_by len b message c busy =
    let q = queue_up (outgoing len message) c in
    decrease_reference_count (
      if busy
      then q
      else decrease_reference_count
          (post_send_event len b (front q.outbound_message_queue) (increase_reference_count q)))

pub sent_by-send_to :
    (len : ℕ) (b : Bool) (message : Bytes) (c : Client) (busy : Bool)
    → c.is_sending ≡ busy
    → sent_by len b message c busy ≡ send_to len b message c
unfolding send_to sent_by
sent_by-send_to len b message c busy e = ap (sent_by len b message c) (sym e)

pub queue_up-IsWaiting :
    (len held : ℕ) (message : Bytes) (c : Client)
    → 0 < len
    → c.is_sending ≡ false
    → IsCounted len held c
    → IsWaiting len held (queue_up (outgoing len message) c)
queue_up-IsWaiting len held message c h e k =
    let parts = outgoing len message in
    let (same, short, some_part) = outgoing-parts len message h in
    let size = length-append c.outbound_message_queue parts in
    record {
      waiting = ground (arith, k.counted, k.idle e);
      none_sent = k.idle e;
      some_part = omega (arith, size, length_pos parts some_part);
      short_parts = AreShort-append len c.outbound_message_queue parts k.short short;
    }

sent_by-IsCounted :
    (len held : ℕ) (b : Bool) (message : Bytes) (c : Client) (busy : Bool)
    → 0 < len
    → c.is_sending ≡ busy
    → IsCounted len (suc held) c
    → IsCounted len held (sent_by len b message c busy)
unfolding sent_by
sent_by-IsCounted len held b message c true h e k =
    let parts = outgoing len message in
    let (same, short, some_part) = outgoing-parts len message h in
    let size = length-append c.outbound_message_queue parts in
    decrease-IsCounted len held (queue_up parts c) (record {
      counted = k.counted;
      one_send = k.one_send;
      idle = k.idle;
      front_sent = λ p. omega (arith, k.front_sent p, size);
      moving = k.moving;
      drained = λ d f. absurd cc;
      short = AreShort-append len c.outbound_message_queue parts k.short short;
    })
sent_by-IsCounted len held b message c false h e k = decrease-IsCounted len held _ (
    posted-IsCounted len (suc held) b (queue_up (outgoing len message) c)
      (queue_up-IsWaiting len (suc held) message c h e k))

-- `send` gives back the reference that `getClient` counted.
pub send_to-IsCounted :
    (len held : ℕ) (b : Bool) (message : Bytes) (c : Client)
    → 0 < len
    → IsCounted len (suc held) c
    → IsCounted len held (send_to len b message c)
send_to-IsCounted len held b message c h k =
    subst (IsCounted len held) (sent_by-send_to len b message c c.is_sending refl)
      (sent_by-IsCounted len held b message c c.is_sending h refl k)

AreShort-drop : (len : ℕ) (parts : List Bytes) → AreShort len parts → AreShort len (drop 1 parts)
AreShort-drop len [] a = tt
AreShort-drop len (x ∷ xs) a = a.1

abbrev pub popped : Client → Client
popped c = record c { outbound_message_queue = drop 1 c.outbound_message_queue }

-- The front was sent, and there are more parts.
pub popped-IsWaiting :
    (len : ℕ) (c : Client)
    → IsWaiting len 0 c
    → (length (popped c).outbound_message_queue == 0) ≡ false
    → IsWaiting len 0 (popped c)
popped-IsWaiting len c w more = record {
  waiting = w.waiting;
  none_sent = w.none_sent;
  some_part = ground arith;
  short_parts = AreShort-drop len c.outbound_message_queue w.short_parts;
}

-- The front leaves the queue, and the next part is sent.
pub next-IsCounted :
    (len : ℕ) (b : Bool) (c : Client)
    → IsWaiting len 0 c
    → (length (popped c).outbound_message_queue == 0) ≡ false
    → IsCounted len 0 (
        decrease_reference_count (
          post_send_event len b
            (front (popped c).outbound_message_queue)
            (increase_reference_count (popped c))))
next-IsCounted len b c w more = posted-IsCounted len 0 b (popped c) (popped-IsWaiting len c w more)

-- The last part was sent.
pub last-IsCounted :
    (len : ℕ) (c : Client)
    → IsWaiting len 0 c
    → (length (popped c).outbound_message_queue == 0) ≡ true
    → IsCounted len 0 (record (popped c) { is_sending = false })
last-IsCounted len c w last = record {
  counted = ground (arith, w.waiting, w.none_sent);
  one_send = omega (arith, w.none_sent);
  idle = λ e. w.none_sent;
  front_sent = λ h. absurd (omega (arith, w.none_sent));
  moving = λ d e. absurd cc;
  drained = λ d e. (==_iff (length (popped c).outbound_message_queue) 0).0 last;
  short = AreShort-drop len c.outbound_message_queue w.short_parts;
}
