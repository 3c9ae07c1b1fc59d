-- ===== src/Server/Events/Waking.antt =====
-- How one handler of src/networking/TCPServer.h leaves the clients that it does not handle.
use pulse_net.Base.{
  ℕ, Bool, false, ◌≡◌, sym, ◌∙◌, subst, none, some, ◌==◌, ==_iff, set, Bool-cases, Option-cases,
  inl, inr, arith,
}
use pulse_net.Base.Bytes.{Bytes}
use pulse_net.Server.Client.{
  Client, increase_reference_count, decrease_reference_count, disconnect, is_released,
}
use pulse_net.Server.Table.{ClientTable, slot, put, terminate_client}
use pulse_net.Server.Table.Laws.{IsConsistent, slot-vacant, terminate_client-some}
use pulse_net.Server.Sending.{finish_client, send_to, send}
use pulse_net.Server.Events.{disconnect_client}
use pulse_net.Server.Events.Table.{
  IsKnown, IsKnown-same, put-slot, slot-own, send-some, send-none, send_to_id, get_client-IsKnown,
}
use pulse_net.Server.Events.Serving.{put_same, set_other, set_none, none-some}

-- What holds of every client and its id, and of all but the one at `id`.
abbrev pub All : (ℕ → Client → Type 0) → ClientTable → Type 0
All Q t = (j : ℕ) (c : Client) → slot t.client_list j ≡ some c → Q j c

abbrev pub Others : ℕ → (ℕ → Client → Type 0) → ClientTable → Type 0
Others id Q t = (j : ℕ) (c : Client) → slot t.client_list j ≡ some c → (id == j) ≡ false → Q j c

module _ (Q : ℕ → Client → Type 0) where
  pub All-here :
      (id : ℕ) (t : ClientTable)
      → Others id Q t
      → ((c : Client) → slot t.client_list id ≡ some c → Q id c)
      → All Q t
  All-here id t others here j c e = elim (Bool-cases (id == j)) [
    | inr differ ↦ others j c e differ
    | inl same ↦
        let at : id ≡ j = (==_iff id j).0 same in
        subst (λ (x : ℕ). Q x c) at
          (here c (subst (λ (x : ℕ). slot t.client_list x ≡ some c) (sym at) e))
  ]

  pub put-Others :
      (c : Client) (t : ClientTable) → IsKnown c t → Others c.id Q t → Others c.id Q (put c.id c t)
  put-Others c t k others j d e differ =
      let room = (slot-vacant t.client_list c.id k.0 k.1).1 in
      others j d (set_other c.id j d (some c) t room e differ) differ

  pub put-All :
      (c : Client) (t : ClientTable)
      → IsKnown c t
      → Q c.id c
      → Others c.id Q t
      → All Q (put c.id c t)
  put-All c t k q others =
      All-here c.id (put c.id c t) (put-Others c t k others)
        (λ d e. subst (Q c.id) (put_same c d t k e) q)

  pub terminate_client-All :
      (c : Client) (t : ClientTable)
      → IsKnown c t
      → Others c.id Q t
      → All Q (terminate_client c.id (put c.id c t))
  terminate_client-All c t k others =
      let u = put c.id c t in
      let first = (slot-vacant t.client_list c.id k.0 k.1).1 in
      let room = (slot-vacant u.client_list c.id c (put-slot c t k)).1 in
      rw (terminate_client-some c.id u c (put-slot c t k)) (
        All-here c.id (record u { client_list = set u.client_list c.id none })
          (λ j d e differ.
            others j d
              (set_other c.id j d (some c) t first (set_other c.id j d none u room e differ) differ)
              differ)
          (λ d e. absurd (set_none c.id d u room e)))

  pub finish_client-All :
      (c : Client) (t : ClientTable)
      → IsKnown c t
      → Q c.id c
      → Others c.id Q t
      → All Q (finish_client c t)
  unfolding finish_client
  finish_client-All c t k q others = elim (Bool-cases (is_released c)) [
    | inl free ↦ rw (finish_client, free) (terminate_client-All c t k others)
    | inr kept ↦ rw (finish_client, kept) (put-All c t k q others)
  ]

  -- `send` to a client, of which the same holds with the message in its queue.
  pub send-All :
      (len id : ℕ) (b : Bool) (w : Bytes) (t : ClientTable)
      → IsConsistent t
      → Others id Q t
      → ((c : Client)
          → slot t.client_list id ≡ some c
          → Q id (send_to len b w (increase_reference_count c)))
      → All Q (send len b id w t)
  send-All len id b w t s others here = elim (Option-cases (slot t.client_list id)) [
    | inl e ↦
        rw (send-none len b id w t e)
          (All-here id t others (λ c f. absurd (none-some c (sym e ∙ f))))
    | inr (c, e) ↦
        let found = increase_reference_count c in
        let u = put id found t in
        let after = send_to len b w found in
        let same : after.id ≡ id = send_to_id len b w found ∙ s.own id c e in
        let k : IsKnown after u =
          IsKnown-same found after u (send_to_id len b w found) (get_client-IsKnown id t c s e) in
        let room = (slot-vacant t.client_list id c e).1 in
        let kept : Others id Q u =
          λ j d f differ. others j d (set_other id j d (some found) t room f differ) differ in
        rw (send-some len b id w t c e) (
          finish_client-All after u k (subst (λ (x : ℕ). Q x after) (sym same) (here c e))
            (subst (λ (x : ℕ). Others x Q u) (sym same) kept))
  ]

  -- A client that is disconnected.
  pub disconnect_client-All :
      (id : ℕ) (t : ClientTable)
      → IsConsistent t
      → Others id Q t
      → ((c : Client) → Q id (decrease_reference_count (disconnect c)))
      → All Q (disconnect_client id t)
  unfolding disconnect_client
  disconnect_client-All id t s others here = elim (Option-cases (slot t.client_list id)) [
    | inl e ↦
        rw (disconnect_client, e) (All-here id t others (λ c f. absurd (none-some c (sym e ∙ f))))
    | inr (c, e) ↦
        let after = decrease_reference_count (disconnect c) in
        let same : after.id ≡ id = s.own id c e in
        rw (disconnect_client, e)
          (finish_client-All after t (c, slot-own id t c s e)
            (subst (λ (x : ℕ). Q x after) (sym same) (here c))
            (subst (λ (x : ℕ). Others x Q t) (sym same) others))
  ]

not_other : (id : ℕ) → (id == id) ≡ false → ⊥
not_other id e = ground arith

-- The same of all clients but the one that a message is sent to.
pub send-Others :
    (Q : ℕ → Client → Type 0) (len id : ℕ) (b : Bool) (w : Bytes) (t : ClientTable)
    → IsConsistent t
    → Others id Q t
    → Others id Q (send len b id w t)
send-Others Q len id b w t s others =
    send-All (λ j c. (id == j) ≡ false → Q j c) len id b w t s
      (λ j c e differ _. others j c e differ) (λ c e differ. absurd (not_other id differ))
