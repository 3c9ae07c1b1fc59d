-- ===== src/Server/Sending/Delivery.antt =====
-- `send` of src/networking/TCPServer.h on the client that it found.
use pulse_net.Base.{
  ◌+◌, ℕ, ◌≤◌, ◌<◌, ◌≡◌, refl, ap, true, List, [], ◌∷◌, ◌++◌, length, arith, if◌then◌else◌,
  le→ltb_false, Bool-cases, inl, inr,
}
use pulse_net.Base.Int.{ℤ, ◌+ℤ◌, ◌-ℤ◌}
use pulse_net.Base.Bytes.{Bytes}
use pulse_net.Server.Client.{Client}
use pulse_net.Server.Sending.{front, outgoing, post_send_event, send_to}
use pulse_net.Server.Sending.Outgoing.{AreShort, outgoing-parts}

-- The front of a queue whose parts are short.
pub front_short :
    (len : ℕ) (old new : List Bytes)
    → AreShort len old
    → AreShort len new
    → length (front (old ++ new)) ≤ len
front_short len [] [] a b = omega arith
front_short len [] (x ∷ xs) a b = b.0
front_short len (x ∷ xs) new a b = a.0

pub AreShort-append :
    (len : ℕ) (old new : List Bytes)
    → AreShort len old
    → AreShort len new
    → AreShort len (old ++ new)
AreShort-append len [] new a b = b
AreShort-append len (x ∷ xs) new a b = (a.0, AreShort-append len xs new a.1 b)

-- Two references that are counted and released again.
two_up_two_down : (x : ℤ) → x +ℤ ℤ.pos 1 +ℤ ℤ.pos 1 -ℤ ℤ.pos 1 -ℤ ℤ.pos 1 ≡ x
two_up_two_down (ℤ.pos n) = ground arith
two_up_two_down (ℤ.negsuc n) = ground arith

-- With a buffer that is not empty, a queue whose parts are not longer than it, and WSASend accepting,
-- `send` puts the parts of the message behind the queue, and all parts stay that short. It does not
-- disconnect the client. A transfer is under way afterwards; the reference that `getClient` counted
-- is released if one was before, and otherwise is the reference of the transfer that is begun.
pub send_to-accepted :
    (len : ℕ) (message : Bytes) (c : Client)
    → 0 < len
    → AreShort len c.outbound_message_queue
    → (send_to len true message c ≡ record c {
      outbound_message_queue = c.outbound_message_queue ++ outgoing len message;
      is_sending = true;
      reference_count = if c.is_sending then c.reference_count -ℤ ℤ.pos 1 else c.reference_count;
      pending_sends = if c.is_sending then c.pending_sends else c.pending_sends + 1;
      transmitted =
          if c.is_sending
          then c.transmitted
          else c.transmitted ++ front (c.outbound_message_queue ++ outgoing len message) ∷ [];
    })
      × AreShort len (send_to len true message c).outbound_message_queue
unfolding send_to post_send_event
send_to-accepted len message c h a =
    let (same, short, some_part) = outgoing-parts len message h in
    let fits = front_short len c.outbound_message_queue (outgoing len message) a short in
    let all = AreShort-append len c.outbound_message_queue (outgoing len message) a short in
    elim (Bool-cases c.is_sending) [
      | inl e ↦ rw e (refl, all)
      | inr e ↦
          rw (e, le→ltb_false _ _ fits)
            (
              ap
                  (λ x. record c {
                    outbound_message_queue = c.outbound_message_queue ++ outgoing len message;
                    is_sending = true;
                    reference_count = x;
                    pending_sends = c.pending_sends + 1;
                    transmitted =
                        c.transmitted
                        ++ front (c.outbound_message_queue ++ outgoing len message) ∷ [];
                  })
                  (two_up_two_down c.reference_count),
              all,
            )
    ]
