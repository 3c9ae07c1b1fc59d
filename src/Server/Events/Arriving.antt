-- ===== src/Server/Events/Arriving.antt =====
-- Bytes that arrive for a client of src/networking/TCPServer.h, and the round of `assemblerWorker` that
-- takes them.
use pulse_net.Base.{
  ℕ, ◌+◌, ◌-◌, ◌%◌, ◌<◌, Bool, true, false, ◌&&◌, ◌≡◌, refl, sym, ap, ◌∙◌, subst, some, List, [],
  ◌∷◌, ◌++◌, ◌==◌, ==_iff, length, length-set, set, get_or, map, if◌then◌else◌, arith,
}
use pulse_net.Base.Int.{ℤ, eq_ℤ}
use pulse_net.Base.Bytes.{Bytes}
use pulse_net.Http.Message.HeaderMap.{Headers}
use pulse_net.Http.Assembler.State.{Limits}
use pulse_net.Http.Assembler.Feed.{Fed, ClientStates, feed, feed_client, client_state}
use pulse_net.Http.Assembler.Outcome.{feed-client_state}
use pulse_net.Http.Assembler.Pieces.Answers.{stored}
use pulse_net.Server.Client.{
  Client, increase_reference_count, decrease_reference_count, is_released,
}
use pulse_net.Server.Table.{ClientTable, slot, put}
use pulse_net.Server.Table.Laws.{get_client-some}
use pulse_net.Server.Sending.{post_receive_event, finish_client}
use pulse_net.Server.Events.{
  ServerState, create_request, push_id, pop_id, received, store_received, completed_operation,
  on_received, on_kind, on_completion, assemble, assemble_found, assemble_next, assembler_worker,
}
use pulse_net.Server.Events.Table.{IsKnown-same, put-slot}
use pulse_net.Server.Events.Queues.{get_or-set, push_id-length}

-- The worker that takes a client.
abbrev worker_of : Client → ServerState → ℕ
worker_of c s = c.id % length s.assembling_queues

-- A client that stands in the table, is not disconnecting, and whose worker has nothing to do.
pub record IsOpen (c : Client) (s : ServerState) : Type 0 where
  pub there : slot s.table.client_list c.id ≡ some c
  pub connected : c.is_disconnecting ≡ false
  pub workers : 0 < length s.assembling_queues
  pub idle : get_or s.assembling_queues (worker_of c s) [] ≡ []

-- The client behind the completion.
abbrev arrived : Bytes → Client → Client
arrived bytes c =
    store_received bytes
      (decrease_reference_count (record c { pending_receives = c.pending_receives - 1 }))

abbrev behind_arrival : Bytes → Client → ServerState → ServerState
behind_arrival bytes c s = record s {
  table = put c.id (arrived bytes c) s.table;
  assembling_queues = push_id c.id s.assembling_queues;
}

on_completion-arrived :
    (len : ℕ) (b : Bool) (bytes : Bytes) (c : Client) (s : ServerState)
    → slot s.table.client_list c.id ≡ some c
    → c.is_disconnecting ≡ false
    → 0 < length bytes
    → on_completion len b c.id (received bytes) s ≡ behind_arrival bytes c s
unfolding on_completion on_kind on_received completed_operation
on_completion-arrived len b bytes c s e open_client some_bytes =
    let more : (length bytes == 0) ≡ false = ground arith in
    rw (on_completion, e, open_client, more) refl

-- The only id of a queue is taken out of it.
abbrev emptied : ℕ → List (List ℕ) → List (List ℕ)
emptied id queues = set (push_id id queues) (id % length queues) []

pop_id-front :
    (k id : ℕ) (ids : List ℕ) (queues : List (List ℕ))
    → get_or queues k [] ≡ id ∷ ids
    → pop_id k queues ≡ some (id, set queues k ids)
unfolding pop_id
pop_id-front k id ids queues e = rw (pop_id, e) refl

pushed_front :
    (id : ℕ) (queues : List (List ℕ))
    → 0 < length queues
    → get_or queues (id % length queues) [] ≡ []
    → get_or (push_id id queues) (id % length queues) [] ≡ id ∷ []
unfolding push_id
pushed_front id queues h e =
    let k = id % length queues in
    get_or-set queues k k (get_or queues k [] ++ id ∷ []) (omega arith)
    ∙ ground arith
    ∙ ap (λ q. q ++ id ∷ []) e

emptied-length : (id : ℕ) (queues : List (List ℕ)) → length (emptied id queues) ≡ length queues
emptied-length id queues =
    length-set (push_id id queues) (id % length queues) [] ∙ push_id-length id queues

emptied-get_or :
    (id : ℕ) (queues : List (List ℕ))
    → 0 < length queues
    → get_or (emptied id queues) (id % length (emptied id queues)) [] ≡ []
emptied-get_or id queues h =
    let k = id % length queues in
    rw (emptied-length id queues) (
      get_or-set (push_id id queues) k k [] (omega (arith, push_id-length id queues))
      ∙ ground arith)

-- A client that is not disconnecting stays in the table.
finish_client-open :
    (c : Client) (t : ClientTable) → c.is_disconnecting ≡ false → finish_client c t ≡ put c.id c t
unfolding finish_client
finish_client-open c t e =
    let kept : is_released c ≡ false = ap (λ x. x && eq_ℤ c.reference_count (ℤ.pos 0)) e in
    rw (finish_client, kept) refl

-- The client when its next receive is posted.
abbrev awaiting_more : Fed → Client → Client
awaiting_more fed found =
    let c = record found { recv_buffer = fed.buffer; recv_len = fed.buffer_len } in
    decrease_reference_count
      (decrease_reference_count (post_receive_event true (increase_reference_count c)))

-- A client that is still the one that was connected.
abbrev pub IsSamePeer : Client → Client → Type 0
IsSamePeer c d = (d.id ≡ c.id) × (d.ip_address ≡ c.ip_address) × (d.port ≡ c.port)

-- What a round leaves of the client and of the server.
pub record IsRound (c : Client) (s : ServerState) (fed : Fed) (d : Client) (t : ServerState)
    : Type 0 where
  pub open_again : IsOpen d t
  pub peer : IsSamePeer c d
  pub same_buffer : d.recv_buffer ≡ fed.buffer
  pub same_len : d.recv_len ≡ fed.buffer_len
  pub same_client : client_state c.id t.client_states ≡ fed.client
  pub more_requests : t.requests ≡ s.requests ++ map (create_request c) fed.result.messages

module _ (iterate : Headers → Headers) (l : Limits) (len : ℕ) (b : Bool) where
  -- What the round leaves, when the bytes are well formed so far.
  abbrev after_round : Client → ServerState → ServerState
  after_round found s =
      let (fed, states) =
        feed iterate l s.client_states found.id found.recv_buffer found.recv_len len in
      let c = record found { recv_buffer = fed.buffer; recv_len = fed.buffer_len } in
      record s {
        table = put c.id (awaiting_more fed found) (put c.id c s.table);
        requests = s.requests ++ map (create_request c) fed.result.messages;
        client_states = states;
      }

  assemble-going :
      (found : Client) (s : ServerState)
      → found.is_disconnecting ≡ false
      → (feed iterate l s.client_states found.id found.recv_buffer found.recv_len
          len).0.result.error
        ≡ false
      → assemble iterate l len b true found s ≡ after_round found s
  unfolding assemble post_receive_event
  assemble-going found s e good =
      let fed = (feed iterate l s.client_states found.id found.recv_buffer found.recv_len len).0 in
      let c = record found { recv_buffer = fed.buffer; recv_len = fed.buffer_len } in
      let kept = finish_client-open (awaiting_more fed found) (put c.id c s.table) e in
      rw (good, kept) refl

  -- The client that the worker finds, and the server that it finds it in.
  abbrev found_of : Bytes → Client → Client
  found_of bytes c = increase_reference_count (arrived bytes c)

  abbrev taken_of : Bytes → Client → ServerState → ServerState
  taken_of bytes c s = record (behind_arrival bytes c s) {
    table = put c.id (found_of bytes c) (put c.id (arrived bytes c) s.table);
    assembling_queues = emptied c.id s.assembling_queues;
  }

  found_of-IsKnown :
      (bytes : Bytes) (c : Client) (s : ServerState)
      → slot s.table.client_list c.id ≡ some c
      → slot (put c.id (arrived bytes c) s.table).client_list c.id ≡ some (arrived bytes c)
  found_of-IsKnown bytes c s e = put-slot (arrived bytes c) s.table (c, e)

  worker_takes :
      (bytes : Bytes) (c : Client) (s : ServerState)
      → IsOpen c s
      → assembler_worker iterate l len b true (worker_of c s) (behind_arrival bytes c s)
        ≡ some (assemble iterate l len b true (found_of bytes c) (taken_of bytes c s))
  unfolding assembler_worker assemble_next assemble_found
  worker_takes bytes c s o =
      let u = behind_arrival bytes c s in
      let k = worker_of c s in
      let queues = emptied c.id s.assembling_queues in
      let front = pushed_front c.id s.assembling_queues o.workers o.idle in
      let popped = pop_id-front k c.id [] (push_id c.id s.assembling_queues) front in
      let known =
        get_client-some c.id u.table (arrived bytes c) (found_of-IsKnown bytes c s o.there) in
      ap (λ x. assemble_next iterate l len b true x u) popped
      ∙ ap
          (λ x.
            some (assemble_found iterate l len b true x (record u { assembling_queues = queues })))
          known

  -- The call of `feed` on what arrived.
  abbrev feed_of : Bytes → Client → ServerState → Fed × ClientStates
  feed_of bytes c s =
      feed iterate l s.client_states c.id (stored c.recv_buffer c.recv_len bytes)
        (c.recv_len + length bytes) len

  abbrev fed_of : Bytes → Client → ServerState → Fed
  fed_of bytes c s =
      feed_client iterate l (client_state c.id s.client_states)
        (stored c.recv_buffer c.recv_len bytes) (c.recv_len + length bytes) len

  -- The client of the round in the table that the round leaves.
  after_round-slot :
      (found : Client) (s : ServerState) (fed : Fed) (d : Client)
      → d.id ≡ found.id
      → slot s.table.client_list found.id ≡ some found
      → slot
          (put found.id d (
            put found.id
              (record found { recv_buffer = fed.buffer; recv_len = fed.buffer_len })
              s.table)).client_list
          d.id
        ≡ some d
  after_round-slot found s fed d same e =
      let c = record found { recv_buffer = fed.buffer; recv_len = fed.buffer_len } in
      let t = put found.id c s.table in
      let known : slot t.client_list found.id ≡ some c = put-slot c s.table (found, e) in
      subst (λ (x : ℕ). slot (put x d t).client_list d.id ≡ some d) same
        (put-slot d t (IsKnown-same c d t same (c, known)))

  after_round-IsRound :
      (bytes : Bytes) (c : Client) (s : ServerState)
      → IsOpen c s
      → IsRound c s
          (feed_of bytes c s).0
          (awaiting_more (feed_of bytes c s).0 (found_of bytes c))
          (after_round (found_of bytes c) (taken_of bytes c s))
  unfolding post_receive_event create_request
  after_round-IsRound bytes c s o =
      let size = emptied-length c.id s.assembling_queues in
      let found = found_of bytes c in
      let fed = (feed_of bytes c s).0 in
      let d = awaiting_more fed found in
      let state =
        feed-client_state iterate l s.client_states c.id (stored c.recv_buffer c.recv_len bytes)
          (c.recv_len + length bytes) len c.id in
      record {
        open_again = record {
          there = after_round-slot found (taken_of bytes c s) fed d refl (
              put-slot found (put c.id (arrived bytes c) s.table)
                (arrived bytes c, found_of-IsKnown bytes c s o.there));
          connected = o.connected;
          workers = let w = o.workers in omega arith;
          idle = emptied-get_or c.id s.assembling_queues o.workers;
        };
        peer = (refl, refl, refl);
        same_buffer = refl;
        same_len = refl;
        same_client =
            state.1
            ∙ ap (λ x. if x then (fed_of bytes c s).client else client_state c.id s.client_states)
                ((==_iff c.id c.id).1 refl)
            ∙ ap (λ f. f.client) (sym state.0);
        more_requests = refl;
      }

  -- Bytes that arrive, and the round of the worker that takes them: when they are well formed, the
  -- client is open again, with what `feed` leaves, and the requests are queued.
  pub arrival-IsRound :
      (bytes : Bytes) (c : Client) (s : ServerState)
      → IsOpen c s
      → 0 < length bytes
      → (fed_of bytes c s).result.error ≡ false
      → (d : Client) × (t : ServerState) × (assembler_worker iterate l len b true
            (worker_of c s)
            (on_completion len b c.id (received bytes) s)
          ≡ some t)
        × IsRound c s (fed_of bytes c s) d t
  arrival-IsRound bytes c s o some_bytes good =
      let same =
        (feed-client_state iterate l s.client_states c.id (stored c.recv_buffer c.recv_len bytes)
          (c.recv_len + length bytes) len c.id).0 in
      let taken = taken_of bytes c s in
      let found = found_of bytes c in
      (
        awaiting_more (feed_of bytes c s).0 found,
        after_round found taken,
        ap (assembler_worker iterate l len b true (worker_of c s))
              (on_completion-arrived len b bytes c s o.there o.connected some_bytes)
            ∙ worker_takes bytes c s o
            ∙ ap some
                (assemble-going found taken o.connected (ap (λ f. f.result.error) same ∙ good)),
        subst
            (λ f.
              IsRound c s f (awaiting_more (feed_of bytes c s).0 found) (after_round found taken))
            same (after_round-IsRound bytes c s o),
      )
