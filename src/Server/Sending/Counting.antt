-- ===== src/Server/Sending/Counting.antt =====
-- What the reference count of a client counts (src/networking/Client.h, src/networking/TCPServer.h).
use pulse_net.Base.{ℕ, suc, ◌+◌, ◌≤◌, ◌<◌, true, false, ◌≡◌, refl, length, arith}
use pulse_net.Base.Int.{ℤ}
use pulse_net.Base.Bytes.{Bytes}
use pulse_net.Server.Client.{
  Client, make_client, increase_reference_count, decrease_reference_count, disconnect, is_released,
}
use pulse_net.Server.Sending.Outgoing.{AreShort}

-- `held` references are held by threads; every other one stands for an operation that the system has
-- accepted. At most one block is being sent, the front of the queue, and it is being sent unless the
-- queue is empty or the client is being disconnected.
pub record IsCounted (len held : ℕ) (c : Client) : Type 0 where
  pub counted : c.reference_count ≡ ℤ.pos (c.pending_receives + c.pending_sends + held)
  pub one_send : c.pending_sends ≤ 1
  pub idle : c.is_sending ≡ false → c.pending_sends ≡ 0
  pub front_sent : 0 < c.pending_sends → 0 < length c.outbound_message_queue
  pub moving : c.is_disconnecting ≡ false → c.is_sending ≡ true → c.pending_sends ≡ 1
  pub drained :
      c.is_disconnecting ≡ false → c.is_sending ≡ false → length c.outbound_message_queue ≡ 0
  pub short : AreShort len c.outbound_message_queue

pub make_client-IsCounted :
    (len id port : ℕ) (ip : Bytes) (sock : ℕ) (buffer : Bytes)
    → IsCounted len 1 (increase_reference_count (make_client id port ip len sock buffer))
unfolding make_client
make_client-IsCounted len id port ip sock buffer = record {
  counted = ground arith;
  one_send = omega arith;
  idle = λ e. refl;
  front_sent = λ h. absurd (omega arith);
  moving = λ d e. absurd cc;
  drained = λ d e. refl;
  short = tt;
}

module _ (len held : ℕ) (c : Client) where
  pub increase-IsCounted :
      IsCounted len held c → IsCounted len (suc held) (increase_reference_count c)
  increase-IsCounted k = record {
    counted = ground arith;
    one_send = k.one_send;
    idle = k.idle;
    front_sent = k.front_sent;
    moving = k.moving;
    drained = k.drained;
    short = k.short;
  }

  pub decrease-IsCounted :
      IsCounted len (suc held) c → IsCounted len held (decrease_reference_count c)
  decrease-IsCounted k = record {
    counted = ground arith;
    one_send = k.one_send;
    idle = k.idle;
    front_sent = k.front_sent;
    moving = k.moving;
    drained = k.drained;
    short = k.short;
  }

  pub disconnect-IsCounted : IsCounted len held c → IsCounted len held (disconnect c)
  disconnect-IsCounted k = record {
    counted = k.counted;
    one_send = k.one_send;
    idle = k.idle;
    front_sent = k.front_sent;
    moving = λ d e. absurd cc;
    drained = λ d e. absurd cc;
    short = k.short;
  }

  -- A released client has no operation that the system holds.
  pub is_released-IsCounted :
      IsCounted len held c
      → is_released c ≡ true
      → (held ≡ 0) × (c.pending_receives ≡ 0) × (c.pending_sends ≡ 0)
  is_released-IsCounted k e = ground arith
