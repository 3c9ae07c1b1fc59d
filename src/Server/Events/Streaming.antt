-- ===== src/Server/Events/Streaming.antt =====
-- A client of src/networking/TCPServer.h whose bytes arrive in pieces, each of which a worker takes
-- before the next one arrives.
use mathlib.Core.List.{append_assoc, append-nil, map-append}
use pulse_net.Base.{
  ℕ, ◌+◌, ◌%◌, ◌<◌, Bool, true, false, ◌≡◌, refl, sym, ap, ◌∙◌, subst, some, List, [], ◌∷◌, ◌++◌,
  length, map, if◌then◌else◌, arith,
}
use pulse_net.Base.Bytes.{Bytes, concat}
use pulse_net.Http.Message.{HttpMessage}
use pulse_net.Http.Message.HeaderMap.{Headers}
use pulse_net.Http.Assembler.State.{Limits, initial_state}
use pulse_net.Http.Assembler.Feed.{Fed, client_state, feed_client}
use pulse_net.Http.Assembler.Pieces.Feeding.{feed_pieces}
use pulse_net.Http.Assembler.Pieces.Answers.{stored, behind}
use pulse_net.Http.Assembler.Pieces.Streams.{feed_pieces-request_stream}
use pulse_net.Http.Assembler.Requests.Delivery.{received}
use pulse_net.Http.Assembler.Requests.Pipeline.{AreSendable, request_stream}
use pulse_net.Server.Client.{Client}
use pulse_net.Server.Events
use pulse_net.Server.Events.{ServerState, Request, create_request, on_completion, assembler_worker}
use pulse_net.Server.Events.Arriving.{IsOpen, IsSamePeer, IsRound, arrival-IsRound}

-- Bytes that arrive, and whether the system accepts the receive that the worker then posts.
pub record Arrival : Type 0 where
  pub bytes : Bytes
  pub awaiting : Bool

abbrev pub texts : List Arrival → List Bytes
texts [] = []
texts (x ∷ xs) = x.bytes ∷ texts xs

-- No receive brings nothing, and every receive that follows is accepted.
abbrev pub AreAccepted : List Arrival → Type 0
AreAccepted [] = Unit {0}
AreAccepted (x ∷ xs) = (0 < length x.bytes) × (x.awaiting ≡ true) × AreAccepted xs

same_request :
    (c d : Client)
    → IsSamePeer c d
    → (message : HttpMessage) → create_request d message ≡ create_request c message
unfolding create_request
same_request c d (id, ip, port) message = λ i. record {
  client = record { id = id i; ip_address = ip i; port = port i };
  message = message;
}

-- Of pieces none of which is refused the first is not, nor are the others.
accepted :
    (b : Bool) (first others : Fed)
    → first.result.error ≡ b
    → (if b then first else behind first.result.messages others).result.error ≡ false
    → (b ≡ false) × (others.result.error ≡ false)
accepted true first others e h = absurd (cc (sym e ∙ h))
accepted false first others e h = (refl, h)

module _ (iterate : Headers → Headers) (l : Limits) (len : ℕ) (b : Bool) where
  -- Each piece arrives for the client `id`, and its worker makes a round.
  abbrev pub Arrive : ℕ → List Arrival → ServerState → ServerState → Type 0
  Arrive id [] s t = s ≡ t
  Arrive id (x ∷ xs) s t =
      (u : ServerState) × (assembler_worker iterate l len b x.awaiting
          (id % length s.assembling_queues) (on_completion len b id (Events.received x.bytes) s)
        ≡ some u)
      × Arrive id xs u t

  abbrev pieces_of : Client → ServerState → List Bytes → Fed
  pieces_of c s pieces =
      feed_pieces iterate l len (client_state c.id s.client_states) c.recv_buffer c.recv_len pieces

  rounds-IsRound :
      (first others : Fed) (c d e : Client) (s u t : ServerState)
      → IsRound c s first d u
      → IsRound d u others e t
      → IsRound c s (behind first.result.messages others) e t
  rounds-IsRound first others c d e s u t p q =
      let (id, ip, port) = p.peer in
      let (id2, ip2, port2) = q.peer in
      record {
        open_again = q.open_again;
        peer = (id2 ∙ id, ip2 ∙ ip, port2 ∙ port);
        same_buffer = q.same_buffer;
        same_len = q.same_len;
        same_client = ap (λ x. client_state x t.client_states) (sym id) ∙ q.same_client;
        more_requests =
            q.more_requests
            ∙ (λ i.
                p.more_requests i
                ++ map (λ message. same_request c d p.peer message i) others.result.messages)
            ∙ append_assoc s.requests _ _
            ∙ ap (λ x. s.requests ++ x)
                (sym (map-append (create_request c) first.result.messages others.result.messages));
      }

  -- What the pieces behind the first one are fed to.
  pieces_of-next :
      (first : Fed) (c d : Client) (s u : ServerState) (pieces : List Bytes)
      → IsRound c s first d u
      → pieces_of d u pieces
        ≡ feed_pieces iterate l len first.client first.buffer first.buffer_len pieces
  pieces_of-next first c d s u pieces p =
      ap
        (λ x.
          feed_pieces iterate l len (client_state x u.client_states) d.recv_buffer d.recv_len
            pieces)
        p.peer.0
      ∙ (λ i. feed_pieces iterate l len (p.same_client i) (p.same_buffer i) (p.same_len i) pieces)

  -- A client that is open, whose worker is idle, and whose bytes arrive in pieces that `feed` does not
  -- refuse, each taken by a round of the worker before the next one arrives, behind which the system
  -- accepts the next receive: every round is made, and in the end the client is open and its worker idle, the requests of all pieces stand behind those
  -- that were queued, in their order and with the id and address of the client, and the client's
  -- buffer and parser are what the calls of `feed` leave.
  pub arrivals-IsRound :
      (arrivals : List Arrival) (c : Client) (s : ServerState)
      → IsOpen c s
      → AreAccepted arrivals
      → (pieces_of c s (texts arrivals)).result.error ≡ false
      → (d : Client) × (t : ServerState) × Arrive c.id arrivals s t
        × IsRound c s (pieces_of c s (texts arrivals)) d t
  unfolding feed_pieces
  arrivals-IsRound [] c s o tt good = (
    c,
    s,
    refl,
    record {
      open_again = o;
      peer = (refl, refl, refl);
      same_buffer = refl;
      same_len = refl;
      same_client = refl;
      more_requests = sym (append-nil s.requests);
    },
  )
  arrivals-IsRound (x ∷ xs) c s o (some_bytes, awaits, more) good =
      let first =
        feed_client iterate l (client_state c.id s.client_states)
          (stored c.recv_buffer c.recv_len x.bytes) (c.recv_len + length x.bytes) len in
      let others =
        feed_pieces iterate l len first.client first.buffer first.buffer_len (texts xs) in
      let (fine, rest_fine) = accepted first.result.error first others refl good in
      let (d, u, step, round) = arrival-IsRound iterate l len b x.bytes c s o some_bytes fine in
      let next = pieces_of-next first c d s u (texts xs) round in
      let (e, t, arrive, rounds) =
        arrivals-IsRound xs d u round.open_again more (ap (λ f. f.result.error) next ∙ rest_fine) in
      (
        e,
        t,
        (
          u,
          ap
                (λ awaiting.
                  assembler_worker iterate l len b awaiting (c.id % length s.assembling_queues)
                    (on_completion len b c.id (Events.received x.bytes) s))
                awaits
              ∙ step,
          subst (λ i. Arrive i xs u t) round.peer.0 arrive,
        ),
        subst (λ r. IsRound c s (if r then first else behind first.result.messages others) e t)
            (sym fine)
            (rounds-IsRound first others c d e s u t round
              (subst (λ f. IsRound d u f e t) next rounds)),
      )

  -- A client that is open, whose buffer is empty, whose parser is in its initial state (an id that was
  -- not used before, or one that its last client left between two requests) and whose worker is idle
  -- sends requests that the assembler accepts, as `serialize_request` writes them one behind the other.
  -- Their text is shorter than the client's buffer, it arrives cut anywhere into pieces that are not
  -- empty, each piece is taken by a round of the worker before the next one arrives, and the system
  -- accepts the receive that is posted behind every round. Then every round is made, and the server has queued exactly
  -- these requests for the client, in their order, with the header names in lower case and the first
  -- value of a name; the client is open with an empty buffer and a parser in its initial state.
  pub arrivals-request_stream :
      (ms : List HttpMessage) (arrivals : List Arrival) (c : Client) (s : ServerState)
      → IsOpen c s
      → client_state c.id s.client_states ≡ initial_state
      → c.recv_len ≡ 0
      → length c.recv_buffer ≡ len
      → AreSendable l iterate ms
      → AreAccepted arrivals
      → concat (texts arrivals) ≡ request_stream l iterate ms
      → length (concat (texts arrivals)) < len
      → (d : Client) × (t : ServerState) × Arrive c.id arrivals s t
        × IsOpen d t
        × (d.recv_len ≡ 0)
        × (client_state c.id t.client_states ≡ initial_state)
        × (t.requests ≡ s.requests ++ map (create_request c) (map (received l iterate) ms))
  arrivals-request_stream ms arrivals c s o new empty full sendable accepts text room =
      let pieces = texts arrivals in
      let fed = feed_pieces iterate l (length c.recv_buffer) initial_state c.recv_buffer 0 pieces in
      let (messages, no_error, no_message, client, left) =
        feed_pieces-request_stream l iterate ms pieces c.recv_buffer sendable text (omega arith) in
      let same : pieces_of c s pieces ≡ fed =
        λ i. feed_pieces iterate l (sym full i) (new i) c.recv_buffer (empty i) pieces in
      let (d, t, arrive, round) =
        arrivals-IsRound arrivals c s o accepts (ap (λ f. f.result.error) same ∙ no_error) in
      (
        d,
        t,
        arrive,
        round.open_again,
        round.same_len ∙ ap (λ f. f.buffer_len) same ∙ left,
        round.same_client ∙ ap (λ f. f.client) same ∙ client,
        round.more_requests
            ∙ ap (λ f. s.requests ++ map (create_request c) f.result.messages) same
            ∙ ap (λ x. s.requests ++ map (create_request c) x) messages,
      )
