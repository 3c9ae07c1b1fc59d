-- ===== src/Server/Table.antt =====
-- src/networking/TCPServer.h: `m_client_list` and `m_free_ids`, with `addClient`, `getClient` and
-- `terminateClient`. An entry of the list is `none` for a null pointer; `m_free_ids` has its back at
-- the head. The model also counts the operations that the system still held on a client that was
-- freed: their completions would come with a dangling key.
pub mod Laws
use pulse_net.Base.{ℕ, ◌+◌, Option, none, some, List, [], ◌∷◌, ◌++◌, ◌+◌, length, get_elem?, set}
use pulse_net.Base.Bytes.{Bytes}
use pulse_net.Server.Client.{Client, make_client, increase_reference_count}

pub record ClientTable : Type 0 where
  pub client_list : List (Option Client)
  pub free_ids : List ℕ
  pub closed_sockets : List ℕ
  pub abandoned_operations : ℕ

abbrev pub empty_table : ClientTable
empty_table = record {
  client_list = [];
  free_ids = [];
  closed_sockets = [];
  abandoned_operations = 0;
}

-- The entry of an id, `none` too where the id is out of range.
unfoldable pub slot : List (Option Client) → ℕ → Option Client
slot cs id = elim (get_elem? cs id) [ none ↦ none | some c ↦ c ]

abbrev pub put : ℕ → Client → ClientTable → ClientTable
put id c t = record t { client_list = set t.client_list id (some c) }

-- The id of the new client, and the table.
unfoldable pub add_client : ℕ → Bytes → ℕ → ℕ → Bytes → ClientTable → ℕ × ClientTable
add_client port ip sock buffer_len buffer t = elim t.free_ids [
  | [] ↦
      let id = length t.client_list in
      let c = increase_reference_count (make_client id port ip buffer_len sock buffer) in
      (id, record t { client_list = set (t.client_list ++ none ∷ []) id (some c) })
  | id ∷ ids ↦
      let c = increase_reference_count (make_client id port ip buffer_len sock buffer) in
      (id, record t { client_list = set t.client_list id (some c); free_ids = ids })
]

-- A client that is there is returned with its reference counted.
unfoldable pub get_client : ℕ → ClientTable → Option Client × ClientTable
get_client id t = elim (slot t.client_list id) [
  | none ↦ (none, t)
  | some c ↦ (some (increase_reference_count c), put id (increase_reference_count c) t)
]

unfoldable pub terminate_client : ℕ → ClientTable → ClientTable
terminate_client id t = elim (slot t.client_list id) [
  | none ↦ t
  | some c ↦ record {
    client_list = set t.client_list id none;
    free_ids = id ∷ t.free_ids;
    closed_sockets = c.sock ∷ t.closed_sockets;
    abandoned_operations = t.abandoned_operations + c.pending_receives + c.pending_sends;
  }
]
