-- ===== src/Http/Assembler/Outcome.antt =====
-- The client states of src/networking/http/HttpAssembler.cpp behind a call of `HttpAssembler::feed`.
use pulse_net.Base.{ℕ, ◌≡◌, refl, [], ◌∷◌, ◌==◌, if◌then◌else◌, arith}
use pulse_net.Base.Bytes.{Bytes}
use pulse_net.Http.Message.HeaderMap.{Headers}
use pulse_net.Http.Assembler.State.{HttpStreamState, Limits}
use pulse_net.Http.Assembler.Feed.{ClientStates, feed_client, client_state, set_client_state, feed}

pub client_state-set_client_state :
    (id j : ℕ) (s : HttpStreamState) (states : ClientStates)
    → client_state j (set_client_state id s states) ≡ (if id == j then s else client_state j states)
unfolding client_state set_client_state
client_state-set_client_state id j s [] = refl
client_state-set_client_state id j s ((k, t) ∷ rest) =
    ground (arith, client_state-set_client_state id j s rest)

-- A call for one client changes the state of that client only, and it reads no other.
pub feed-client_state :
    (iterate : Headers → Headers) (l : Limits) (states : ClientStates) (id : ℕ) (buffer : Bytes)
    (len capacity j : ℕ)
    → ((feed iterate l states id buffer len capacity).0
        ≡ feed_client iterate l (client_state id states) buffer len capacity)
      × (client_state j (feed iterate l states id buffer len capacity).1 ≡ (
          if id == j
          then (feed_client iterate l (client_state id states) buffer len capacity).client
          else client_state j states))
unfolding feed
feed-client_state iterate l states id buffer len capacity j =
    (refl, client_state-set_client_state id j _ states)
