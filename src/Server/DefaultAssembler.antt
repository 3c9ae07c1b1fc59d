-- ===== src/Server/DefaultAssembler.antt =====
-- src/networking/DefaultMessageAssembler.h: `feed`. A buffer is never a null pointer here, and a length
-- below 0, which is handled as 0 is, does not occur.
use pulse_net.Base.{
  ℕ, ◌+◌, ◌<◌, Bool, false, ◌≡◌, refl, ap, ◌∙◌, List, [], ◌∷◌, ◌++◌, length, take, lt→ltb, ltb,
  if◌then◌else◌, arith,
}
use pulse_net.Base.Bytes.{Bytes}

-- `AssemblingResult` of string messages, and the length that `feed` leaves.
pub record DefaultFed : Type 0 where
  pub messages : List Bytes
  pub error : Bool
  pub buffer_len : ℕ

-- No receive is empty: the server disconnects the client instead.
abbrev pub AreReceived : List Bytes → Type 0
AreReceived [] = Unit {0}
AreReceived (bytes ∷ more) = (0 < length bytes) × AreReceived more

take_whole : (w : Bytes) → take (length w) w ≡ w
take_whole [] = refl
take_whole (c ∷ w) = ap (◌∷◌ c) (take_whole w)

unfoldable pub feed_default : Bytes → ℕ → DefaultFed
feed_default buffer buffer_len =
    if ltb 0 buffer_len
    then record { messages = take buffer_len buffer ∷ []; error = false; buffer_len = 0 }
    else record { messages = []; error = false; buffer_len = buffer_len }

-- The messages that come of one receive after the other: the bytes of each are written behind the
-- ones that the last call left.
unfoldable pub feed_receives : Bytes → ℕ → List Bytes → List Bytes
unfolding feed_default
feed_receives buffer buffer_len [] = []
feed_receives buffer buffer_len (bytes ∷ more) =
    let stored = take buffer_len buffer ++ bytes in
    let fed = feed_default stored (buffer_len + length bytes) in
    fed.messages ++ feed_receives stored fed.buffer_len more

feed_default-whole :
    (w : Bytes)
    → 0 < length w
    → feed_default w (0 + length w) ≡ record { messages = w ∷ []; error = false; buffer_len = 0 }
unfolding feed_default
feed_default-whole w h =
    let same : 0 + length w ≡ length w = omega arith in
    rw (same, lt→ltb 0 (length w) h, take_whole w) refl

-- Of receives that are not empty, each is a message of its own, with the bytes that it brought.
pub feed_receives-messages :
    (buffer : Bytes) (receives : List Bytes)
    → AreReceived receives
    → feed_receives buffer 0 receives ≡ receives
unfolding feed_receives
feed_receives-messages buffer [] h = refl
feed_receives-messages buffer (bytes ∷ more) h =
    ap (λ (fed : DefaultFed). fed.messages ++ feed_receives bytes fed.buffer_len more)
      (feed_default-whole bytes h.0)
    ∙ ap (◌∷◌ bytes) (feed_receives-messages bytes more h.1)
