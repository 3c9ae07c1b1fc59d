-- ===== src/Http/Assembler/Pieces/Runs.antt =====
-- The whole loop of `HttpAssembler::feed` (src/networking/http/HttpAssembler.cpp) on a buffer, and
-- on the same buffer with more bytes behind.
use pulse_net.Base.{
  ℕ, zero, suc, ◌+◌, ◌-◌, ◌≤◌, ◌<◌, ◌≡◌, refl, sym, ap, ◌∙◌, Bool, true, false, List, ◌⊎◌, inl, inr,
  ltb, Bool-cases, ltb→lt, ltb_false→le, arith, subst,
}
use pulse_net.Base.Bytes.{Bytes, byte_at}
use pulse_net.Http.Message.{HttpMessage}
use pulse_net.Http.Assembler.State.{HttpStreamState, Limits, Machine, Flow, leave, again}
use pulse_net.Http.Assembler.Feed.{is_error, end_round, round, run_all}
use pulse_net.Http.Assembler.Progress.{
  Advances, Shrinks, dispatch-Advances, round-Shrinks, run_all_out, run_all_next, run_all_stop,
}
use pulse_net.Http.Assembler.Invariant.Loop.{IsSound, round-IsSound}
use pulse_net.Http.Assembler.Pieces.Reads.{Agree-byte_at}
use pulse_net.Http.Assembler.Pieces.Synced.{
  IsSynced, SyncedAt, StaysSynced, IsSynced-counted, dispatch-StaysSynced,
}
use pulse_net.Http.Assembler.Pieces.View.{View, View-Agree, View-read}
use pulse_net.Http.Assembler.Pieces.Rounds.{FlowView, over, dispatch-View}

-- The machine at the head of the loop.
pub record IsReady (capacity : ℕ) (m : Machine) : Type 0 where
  pub sound : IsSound capacity m
  pub synced : IsSynced m.client
  pub going : is_error m.client.state ≡ false

-- `pos++`
abbrev next : HttpStreamState → HttpStreamState
next s = record s { pos = s.pos + 1 }

module _ (capacity : ℕ) (l : Limits) where
  end_round-Synced :
      (p len : ℕ) (f : Flow)
      → Advances p len f
      → StaysSynced p f
      → (end_round f).1 ≡ false
      → IsSynced (end_round f).0.client × (is_error (end_round f).0.client.state ≡ false)
  unfolding end_round
  end_round-Synced p len (again n) a k e = k
  end_round-Synced p len (leave n) a k e = elim (Bool-cases (is_error n.client.state)) [
    | inl bad ↦ cc (rw bad at e)
    | inr good ↦ rw good (subst (λ x. SyncedAt x n.client) (omega arith) k, good)
  ]

  round-IsReady :
      (m : Machine)
      → m.client.pos < m.buffer_len
      → IsReady capacity m
      → (round l m).1 ≡ false
      → IsReady capacity (round l m).0
  unfolding round
  round-IsReady m more r e =
      let s = record m.client { length_counter = m.client.length_counter + 1 } in
      let n = record m { client = s } in
      let c = byte_at m.buffer m.client.pos in
      let kept =
        end_round-Synced m.client.pos m.buffer_len _ (dispatch-Advances m.client.state l c n more)
          (dispatch-StaysSynced l c n m.client.state refl (IsSynced-counted m.client r.synced)) e in
      record { sound = round-IsSound capacity l m more r.sound e; synced = kept.0; going = kept.1 }

  -- Rounds that end alike.
  abbrev RoundView : List HttpMessage → Bytes → Machine × Bool → Machine × Bool → Type 0
  RoundView before extra (m, a) (n, b) = View before extra m n × (b ≡ a)

  end_round-View :
      (before : List HttpMessage) (extra : Bytes) (f g : Flow)
      → FlowView before extra f g
      → RoundView before extra (end_round f) (end_round g)
  unfolding end_round
  end_round-View before extra (again m) (again n) v = (v, refl)
  end_round-View before extra (leave m) (again n) v = absurd v
  end_round-View before extra (again m) (leave n) v = absurd v
  end_round-View before extra (leave m) (leave n) v =
      let same = v.same_client in
      elim (Bool-cases (is_error m.client.state)) [
        | inl bad ↦
            let copy : is_error n.client.state ≡ true = ap (λ s. is_error s.state) same ∙ bad in
            rw (bad, copy) (v, refl)
        | inr good ↦
            let copy : is_error n.client.state ≡ false = ap (λ s. is_error s.state) same ∙ good in
            rw (good, copy)
              (View-read before extra m n v (next m.client) (next n.client) (ap next same), refl)
      ]

  round-over-View :
      (before : List HttpMessage) (extra : Bytes) (m : Machine) (b : Bytes) (len : ℕ)
      → View before extra m (over before b len m)
      → m.client.pos < m.buffer_len
      → IsReady capacity m
      → RoundView before extra (round l m) (round l (over before b len m))
  unfolding round
  round-over-View before extra m b len v more r =
      let s = record m.client { length_counter = m.client.length_counter + 1 } in
      let n = record m { client = s } in
      let w = View-read before extra m _ v s s refl in
      rw (Agree-byte_at m.buffer_len b m.buffer (View-Agree before extra m _ v) m.client.pos more) (
        end_round-View before extra _ _ (
          dispatch-View before extra n b len w more m.client.state capacity l
            (byte_at m.buffer m.client.pos) refl r.sound.well_formed
            (IsSynced-counted m.client r.synced)))

  View-over :
      (before : List HttpMessage) (extra : Bytes) (m n : Machine)
      → View before extra m n
      → over before n.buffer n.buffer_len m ≡ n
  View-over before extra m n v = λ i. record {
    client = sym v.same_client i;
    buffer = n.buffer;
    buffer_len = n.buffer_len;
    messages = sym v.same_messages i;
  }

  round-View :
      (before : List HttpMessage) (extra : Bytes) (m n : Machine)
      → View before extra m n
      → m.client.pos < m.buffer_len
      → IsReady capacity m
      → RoundView before extra (round l m) (round l n)
  round-View before extra m n v more r =
      let e = View-over before extra m n v in
      subst (λ x. RoundView before extra (round l m) (round l x)) e
        (round-over-View before extra m n.buffer n.buffer_len
          (subst (View before extra m) (sym e) v) more r)

  -- Where the loop stands on the longer buffer when it has ended on the shorter one: it has ended
  -- too, by the error, or it goes on from a machine that has nothing but the other bytes to read.
  abbrev pub Reached : List HttpMessage → Bytes → Machine → Machine → Type 0
  Reached before extra m n =
      (k : Machine) × View before extra (run_all l m) k
      × (((is_error (run_all l m).client.state ≡ true) × (run_all l n ≡ k))
          ⊎ (IsReady capacity (run_all l m)
              × ((run_all l m).buffer_len ≤ (run_all l m).client.pos)
              × (run_all l n ≡ run_all l k)))

  Reached-next :
      (before : List HttpMessage) (extra : Bytes) (m n j k : Machine)
      → run_all l m ≡ run_all l j
      → run_all l n ≡ run_all l k
      → Reached before extra j k
      → Reached before extra m n
  Reached-next before extra m n j k e f (x, v, ended) =
      let w = subst (λ y. View before extra y x) (sym e) v in
      elim ended [
        | inl (bad, same) ↦ (x, w, inl (ap (λ y. is_error y.client.state) e ∙ bad, f ∙ same))
        | inr (ready, out, same) ↦ (
          x,
          w,
          inr (
            subst (IsReady capacity) (sym e) ready,
            subst (λ y. y.buffer_len ≤ y.client.pos) (sym e) out,
            f ∙ same,
          ),
        )
      ]

  more_View :
      (before : List HttpMessage) (extra : Bytes) (m n : Machine)
      → View before extra m n
      → m.client.pos < m.buffer_len
      → n.client.pos < n.buffer_len
  more_View before extra m n v more =
      let e = v.same_len in omega (arith, ap (λ s. s.pos) v.same_client)

  run_all-round :
      (before : List HttpMessage) (extra : Bytes) (m n : Machine)
      → (more : m.client.pos < m.buffer_len) → View before extra m n
      → IsReady capacity m
      → (r t : Machine × Bool) → round l m ≡ r
      → round l n ≡ t
      → RoundView before extra r t
      → ((r.1 ≡ false) → Reached before extra r.0 t.0)
      → Reached before extra m n
  run_all-round before extra m n more v ready (j, true) (k, b) e f (w, same) go =
      let out = run_all_stop l m j more e in
      (
        k,
        subst (λ y. View before extra y k) (sym out) w,
        inl (
          ap (λ y. is_error y.client.state) out ∙ subst (Shrinks m) e (round-Shrinks l m more),
          run_all_stop l n k (more_View before extra m n v more) (f ∙ ap (λ x. (k, x)) same),
        ),
      )
  run_all-round before extra m n more v ready (j, false) (k, b) e f (w, same) go =
      Reached-next before extra m n j k (run_all_next l m j more e)
        (run_all_next l n k (more_View before extra m n v more) (f ∙ ap (λ x. (k, x)) same))
        (go refl)

  round_less :
      (m : Machine) (r : Machine × Bool)
      → Shrinks m r
      → r.1 ≡ false
      → r.0.buffer_len - r.0.client.pos < m.buffer_len - m.client.pos
  round_less m (n, true) h e = cc
  round_less m (n, false) h e = h

  run_out-Reached :
      (before : List HttpMessage) (extra : Bytes) (m n : Machine)
      → m.buffer_len ≤ m.client.pos
      → View before extra m n
      → IsReady capacity m
      → Reached before extra m n
  run_out-Reached before extra m n le v r =
      let e = sym (run_all_out l m le) in
      (
        n,
        subst (λ y. View before extra y n) e v,
        inr (subst (IsReady capacity) e r, subst (λ y. y.buffer_len ≤ y.client.pos) e le, refl),
      )

  -- The loop over the longer buffer does what the loop over the shorter one does, and goes on.
  run-Reached :
      (fuel : ℕ) (before : List HttpMessage) (extra : Bytes) (m n : Machine)
      → m.buffer_len - m.client.pos ≤ fuel
      → View before extra m n
      → IsReady capacity m
      → Reached before extra m n
  run-Reached zero before extra m n h v r = run_out-Reached before extra m n (omega arith) v r
  run-Reached (suc fuel) before extra m n h v r =
      elim (Bool-cases (ltb m.client.pos m.buffer_len)) [
        | inr out ↦ run_out-Reached before extra m n (ltb_false→le _ _ out) v r
        | inl less ↦
            let more = ltb→lt _ _ less in
            let w = round-View before extra m n v more r in
            run_all-round before extra m n more v r (round l m) (round l n) refl refl w (λ e.
              run-Reached fuel before extra (round l m).0 (round l n).0
                (let s = round_less m (round l m) (round-Shrinks l m more) e in omega arith) w.0
                (round-IsReady m more r e))
      ]

  pub run_all-Reached :
      (before : List HttpMessage) (extra : Bytes) (m n : Machine)
      → View before extra m n
      → IsReady capacity m
      → Reached before extra m n
  run_all-Reached before extra m n v r =
      run-Reached (m.buffer_len - m.client.pos) before extra m n (omega arith) v r
