-- ===== src/Server/Events/Serving.antt =====
-- The references of all clients of src/networking/TCPServer.h while one of them is handled.
use pulse_net.Base.{
  ℕ, suc, ◌<◌, Bool, false, ◌≡◌, refl, sym, ◌∙◌, subst, none, some, ◌==◌, ==_iff, arith, Bool-cases,
  Option-cases, inl, inr, Option, length, set,
}
use pulse_net.Base.Bytes.{Bytes}
use pulse_net.Server.Client.{
  Client, increase_reference_count, decrease_reference_count, disconnect, is_released,
}
use pulse_net.Server.Table.{ClientTable, slot, put, terminate_client}
use pulse_net.Server.Table.Laws.{IsConsistent, slot-set, slot-vacant, terminate_client-some}
use pulse_net.Server.Sending.{finish_client, send_to, send}
use pulse_net.Server.Sending.Counting.{
  IsCounted, increase-IsCounted, decrease-IsCounted, disconnect-IsCounted, is_released-IsCounted,
}
use pulse_net.Server.Sending.Posting.{send_to-IsCounted}
use pulse_net.Server.Events.{disconnect_client}
use pulse_net.Server.Events.Table.{
  IsKnown, IsKnown-same, put-slot, slot-own, send-some, send-none, send_to_id, get_client-IsKnown,
}

-- Threads hold `held` references to the client at `id`, and none to the others; no operation was
-- abandoned.
pub record IsServed (len id held : ℕ) (t : ClientTable) : Type 0 where
  pub here : (c : Client) → slot t.client_list id ≡ some c → IsCounted len held c
  pub others :
      (j : ℕ) (c : Client) → slot t.client_list j ≡ some c → (id == j) ≡ false → IsCounted len 0 c
  pub none_abandoned : t.abandoned_operations ≡ 0

-- No thread holds a reference.
pub record AreServed (len : ℕ) (t : ClientTable) : Type 0 where
  pub each : (j : ℕ) (c : Client) → slot t.client_list j ≡ some c → IsCounted len 0 c
  pub nothing_lost : t.abandoned_operations ≡ 0

pub AreServed-at : (len id : ℕ) (t : ClientTable) → AreServed len t → IsServed len id 0 t
AreServed-at len id t s = record {
  here = s.each id;
  others = λ j c e n. s.each j c e;
  none_abandoned = s.nothing_lost;
}

pub IsServed-all : (len id : ℕ) (t : ClientTable) → IsServed len id 0 t → AreServed len t
IsServed-all len id t s = record {
  each = λ j c e. elim (Bool-cases (id == j)) [
    | inl same ↦
        s.here c (subst (λ (x : ℕ). slot t.client_list x ≡ some c) (sym ((==_iff id j).0 same)) e)
    | inr differ ↦ s.others j c e differ
  ];
  nothing_lost = s.none_abandoned;
}

some-eq : (c d : Client) → some c ≡ some d → c ≡ d
some-eq c d e = cc

-- The entry of a client that is written, and the entries of the others.
pub put_same :
    (c d : Client) (t : ClientTable)
    → IsKnown c t
    → slot (put c.id c t).client_list c.id ≡ some d
    → c ≡ d
put_same c d t k e = some-eq c d (sym (put-slot c t k) ∙ e)

pub set_other :
    (id j : ℕ) (d : Client) (o : Option Client) (t : ClientTable)
    → id < length t.client_list
    → slot (set t.client_list id o) j ≡ some d
    → (id == j) ≡ false
    → slot t.client_list j ≡ some d
set_other id j d o t room e n = sym (slot-set t.client_list id j o room ∙ rw n refl) ∙ e

pub set_none :
    (id : ℕ) (d : Client) (t : ClientTable)
    → id < length t.client_list
    → slot (set t.client_list id none) id ≡ some d
    → ⊥
set_none id d t room e = ground (arith, slot-set t.client_list id id none room)

module _ (len held was : ℕ) (c : Client) (t : ClientTable) where
  pub put-IsServed :
      IsKnown c t
      → IsCounted len held c
      → IsServed len c.id was t
      → IsServed len c.id held (put c.id c t)
  put-IsServed k n s =
      let room = (slot-vacant t.client_list c.id k.0 k.1).1 in
      record {
        here = λ d e. subst (IsCounted len held) (put_same c d t k e) n;
        others = λ j d e differ. s.others j d (set_other c.id j d (some c) t room e differ) differ;
        none_abandoned = s.none_abandoned;
      }

  -- A client on which the system holds no operation is terminated.
  pub terminate_client-IsServed :
      IsKnown c t
      → c.pending_receives ≡ 0
      → c.pending_sends ≡ 0
      → IsServed len c.id was t
      → IsServed len c.id held (terminate_client c.id (put c.id c t))
  terminate_client-IsServed k receives sends s =
      let u = put c.id c t in
      let first = (slot-vacant t.client_list c.id k.0 k.1).1 in
      let room = (slot-vacant u.client_list c.id c (put-slot c t k)).1 in
      rw (terminate_client-some c.id u c (put-slot c t k)) (record {
        here = λ d e. absurd (set_none c.id d u room e);
        others = λ j d e differ.
            s.others j d
              (set_other c.id j d (some c) t first (set_other c.id j d none u room e differ) differ)
              differ;
        none_abandoned = omega (arith, s.none_abandoned, receives, sends);
      })

  -- So a client that is finished with is terminated only when the system holds no operation on it.
  pub finish_client-IsServed :
      IsKnown c t
      → IsCounted len held c
      → IsServed len c.id was t
      → IsServed len c.id held (finish_client c t)
  unfolding finish_client
  finish_client-IsServed k n s = elim (Bool-cases (is_released c)) [
    | inr kept ↦ rw (finish_client, kept) (put-IsServed k n s)
    | inl free ↦
        let (none_held, receives, sends) = is_released-IsCounted len held c n free in
        rw (finish_client, free) (terminate_client-IsServed k receives sends s)
  ]

pub none-some : (c : Client) → none ≡ some c → ⊥
none-some c e = cc

-- `getClient` counts a reference.
pub get_client-IsServed :
    (len id held : ℕ) (t : ClientTable) (c : Client)
    → IsConsistent t
    → slot t.client_list id ≡ some c
    → IsServed len id held t
    → IsServed len id (suc held) (put id (increase_reference_count c) t)
get_client-IsServed len id held t c s e v =
    let found = increase_reference_count c in
    let same : c.id ≡ id = s.own id c e in
    subst (λ (x : ℕ). IsServed len x (suc held) (put x found t)) same
      (put-IsServed len (suc held) held found t (c, slot-own id t c s e)
        (increase-IsCounted len held c (v.here c e))
        (subst (λ (x : ℕ). IsServed len x held t) (sym same) v))

-- `send` takes a reference to its client and gives it back.
pub send-IsServed :
    (len id held : ℕ) (b : Bool) (w : Bytes) (t : ClientTable)
    → 0 < len
    → IsConsistent t
    → IsServed len id held t
    → IsServed len id held (send len b id w t)
send-IsServed len id held b w t h s v = elim (Option-cases (slot t.client_list id)) [
  | inl e ↦ rw (send-none len b id w t e) v
  | inr (c, e) ↦
      let found = increase_reference_count c in
      let u = put id found t in
      let same : c.id ≡ id = s.own id c e in
      let at_id = get_client-IsServed len id held t c s e v in
      let sent = send_to len b w found in
      let n : IsCounted len held sent =
        send_to-IsCounted len held b w found h (increase-IsCounted len held c (v.here c e)) in
      let k : IsKnown sent u =
        IsKnown-same found sent u (send_to_id len b w found) (get_client-IsKnown id t c s e) in
      let same_id : sent.id ≡ id = send_to_id len b w found ∙ same in
      rw (send-some len b id w t c e) (
        subst (λ (x : ℕ). IsServed len x held (finish_client sent u)) same_id
          (finish_client-IsServed len held (suc held) sent u k n
            (subst (λ (x : ℕ). IsServed len x (suc held) u) (sym same_id) at_id)))
]

-- The end of a round on a malformed request.
pub disconnect_client-IsServed :
    (len id : ℕ) (t : ClientTable)
    → IsConsistent t
    → IsServed len id 1 t
    → IsServed len id 0 (disconnect_client id t)
unfolding disconnect_client
disconnect_client-IsServed len id t s v = elim (Option-cases (slot t.client_list id)) [
  | inl e ↦
      rw (disconnect_client, e)
        (record {
          here = λ c f. absurd (none-some c (sym e ∙ f));
          others = v.others;
          none_abandoned = v.none_abandoned;
        })
  | inr (c, e) ↦
      let d = decrease_reference_count (disconnect c) in
      let same : c.id ≡ id = s.own id c e in
      let n : IsCounted len 0 d =
        decrease-IsCounted len 0 (disconnect c) (disconnect-IsCounted len 1 c (v.here c e)) in
      rw (disconnect_client, e)
        (subst (λ (x : ℕ). IsServed len x 0 (finish_client d t)) same
          (finish_client-IsServed len 0 1 d t (c, slot-own id t c s e) n
            (subst (λ (x : ℕ). IsServed len x 1 t) (sym same) v)))
]
