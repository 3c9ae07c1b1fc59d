-- ===== src/Server/Client.antt =====
-- src/networking/Client.h and Client.cpp: what the server keeps for a connection. The locks are left
-- out; a socket is the number that the system gave it. Of the two OVERLAPPED structures the model
-- keeps how many operations the system accepted on them and did not complete yet, and of the socket
-- the blocks that were given to WSASend, in their order.
use pulse_net.Base.{ℕ, ◌+◌, Bool, true, false, List, [], ◌&&◌}
use pulse_net.Base.Int.{ℤ, ◌+ℤ◌, ◌-ℤ◌, eq_ℤ}
use pulse_net.Base.Bytes.{Bytes}

pub record Client : Type 0 where
  pub id : ℕ
  pub port : ℕ
  pub ip_address : Bytes
  pub sock : ℕ
  pub recv_buffer : Bytes
  pub recv_len : ℕ
  pub send_len : ℕ
  pub last_bytes_received : ℕ
  pub is_disconnecting : Bool
  pub is_sending : Bool
  pub max_buffer_len : ℕ
  pub outbound_message_queue : List Bytes
  pub reference_count : ℤ
  pub pending_receives : ℕ
  pub pending_sends : ℕ
  pub transmitted : List Bytes

-- `Client::Client`; `buffer` is the memory that `new char[max_buffer_len]` gave.
unfoldable pub make_client : ℕ → ℕ → Bytes → ℕ → ℕ → Bytes → Client
make_client id port ip_address max_buffer_len sock buffer = record {
  id = id;
  port = port;
  ip_address = ip_address;
  sock = sock;
  recv_buffer = buffer;
  recv_len = 0;
  send_len = 0;
  last_bytes_received = 0;
  is_disconnecting = false;
  is_sending = false;
  max_buffer_len = max_buffer_len;
  outbound_message_queue = [];
  reference_count = ℤ.pos 0;
  pending_receives = 0;
  pending_sends = 0;
  transmitted = [];
}

abbrev pub increase_reference_count : Client → Client
increase_reference_count c = record c { reference_count = c.reference_count +ℤ ℤ.pos 1 }

abbrev pub decrease_reference_count : Client → Client
decrease_reference_count c = record c { reference_count = c.reference_count -ℤ ℤ.pos 1 }

abbrev pub disconnect : Client → Client
disconnect c = record c { is_disconnecting = true }

-- `isDisconnecting() && getReferenceCount() == 0`
abbrev pub is_released : Client → Bool
is_released c = c.is_disconnecting && eq_ℤ c.reference_count (ℤ.pos 0)

-- `addBytesReceived`, which the server does not call.
unfoldable pub add_bytes_received : ℕ → Client → Client
add_bytes_received bytes c = record c { recv_len = c.recv_len + bytes; last_bytes_received = bytes }
