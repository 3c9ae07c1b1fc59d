-- ===== src/Http/Assembler/Pieces/Rounds.antt =====
-- One round of the loop of `HttpAssembler::feed` (src/networking/http/HttpAssembler.cpp) on a
-- buffer, and on the same buffer with more bytes behind.
use pulse_net.Base.{
  ℕ, suc, ◌+◌, ◌-◌, ◌≤◌, ◌<◌, ◌≡◌, refl, sym, ap, true, List, [], ◌∷◌, ◌++◌, inl, inr, ◌==◌,
  Bool-cases, arith, ◌&&◌, ◌||◌, ltb, Option-cases,
}
use pulse_net.Base.Int.{ℤ, pos_part, eq_ℤ}
use pulse_net.Base.Bytes.{Bytes, byte_at, codes}
use pulse_net.Http.Message.{HttpMessage, make_request}
use pulse_net.Http.Message.HeaderMap.{find}
use pulse_net.Http.Assembler.State.{HttpState, HttpStreamState, Limits, Machine, Flow, leave, again}
use pulse_net.Http.Assembler.HeaderLines.{
  header_name, end_of_headers, finish_no_body, is_chunked, end_of_name, count_header_byte,
}
use pulse_net.Http.Assembler.Content.{content, body, chunk, finish_chunk, end_of_chunked_request}
use pulse_net.Http.Assembler.Feed.{dispatch}
use pulse_net.Http.Assembler.Invariant.{IsWellFormed}
use pulse_net.Http.Assembler.Pieces.Reads.{
  Agree, Agree-byte_at, Agree-part, trim-Agree, response_or_request-Agree, response_status-Agree,
  response_headers_start-Agree, request_uri-Agree, request_http_version-Agree, header_value-Agree,
  chunk_size-Agree, chunk_skip_line-Agree,
}
use pulse_net.Http.Assembler.Pieces.Synced.{SyncedAt, ContentSynced}
use pulse_net.Http.Assembler.Pieces.View.{View, View-Agree, View-finished, View-read}

-- The machine `m` with another buffer, and messages in front of its own.
abbrev pub over : List HttpMessage → Bytes → ℕ → Machine → Machine
over before b len m = record m { buffer = b; buffer_len = len; messages = before ++ m.messages }

-- Both end a case of the `switch` alike.
abbrev pub FlowView : List HttpMessage → Bytes → Flow → Flow → Type 0
FlowView before extra (leave m) (leave n) = View before extra m n
FlowView before extra (again m) (again n) = View before extra m n
FlowView before extra (leave m) (again n) = ⊥
FlowView before extra (again m) (leave n) = ⊥

reached : (n : ℕ) (k : ℤ) → eq_ℤ (ℤ.pos n) k ≡ true → pos_part k ≡ n
reached n (ℤ.pos k) e = ground arith
reached n (ℤ.negsuc k) e = ground arith

module _ (before : List HttpMessage) (extra : Bytes) where
  module _ (m : Machine) (b : Bytes) (len : ℕ) (v : View before extra m (over before b len m))
      (more : m.client.pos < m.buffer_len) where
    same : Agree m.buffer_len m.buffer b
    same = sym (View-Agree before extra m (over before b len m) v)

    content_same :
        (k : ℤ) (w : Bytes)
        → m.client.body ≡ w
        → pos_part k ≡ m.client.length_counter
        → ContentSynced w m.client.i_start m.client.length_counter (suc m.client.pos)
        → content k (over before b len m) ≡ content k m
    unfolding content
    content_same k [] e q c =
        rw e (
          sym (Agree-part m.buffer_len m.buffer b same m.client.i_start (pos_part k) (omega arith)))
    content_same k (x ∷ w) e q c = rw e (
        ap (λ r. x ∷ (w ++ r))
          (sym (
            Agree-part m.buffer_len m.buffer b same m.client.i_start (m.client.pos + 1)
              (omega arith))))

    body-View :
        (l : Limits)
        → ContentSynced m.client.body m.client.i_start m.client.length_counter (suc m.client.pos)
        → FlowView before extra (body l m) (body l (over before b len m))
    unfolding body
    body-View l c =
        let s = m.client in
        let message = make_request s.http_version s.method s.uri s.headers in
        elim (Bool-cases (ltb l.max_body_size s.length_counter)) [
          | inl long ↦ rw long (View-read before extra m _ v _ _ refl)
          | inr short ↦ elim (Bool-cases (eq_ℤ (ℤ.pos s.length_counter) s.body_length)) [
            | inl full ↦
                rw (short, full)
                  (View-finished before extra m _ v _ _ _
                    (ap message
                      (content_same s.body_length s.body refl (reached _ s.body_length full) c))
                    more)
            | inr going ↦ rw (short, going) v
          ]
        ]

    finish_chunk-View :
        pos_part m.client.current_chunk_length ≡ m.client.length_counter
        → ContentSynced m.client.body m.client.i_start m.client.length_counter (suc m.client.pos)
        → FlowView before extra (finish_chunk m) (finish_chunk (over before b len m))
    unfolding finish_chunk
    finish_chunk-View q c =
        let s = m.client in
        let message = make_request s.http_version s.method s.uri s.headers in
        View-finished before extra m _ v _ _ _
          (ap message (content_same s.current_chunk_length s.body refl q c)) more

    end_of_chunked_request-View :
        (c : ℕ)
        → m.client.i_end ≡ m.client.pos
        → FlowView before extra
            (end_of_chunked_request c m)
            (end_of_chunked_request c (over before b len m))
    unfolding end_of_chunked_request
    end_of_chunked_request-View c e =
        let s = m.client in
        let ended = s.i_end + 1 - s.i_start == 2 && c == b'\n' && byte_at b (s.pos - 1) == b'\r' in
        let part = ltb (s.i_end + 1 - s.i_start) 2 && (c == b'\n' || c == b'\r') in
        rw (Agree-byte_at m.buffer_len m.buffer b same (s.pos - 1) (omega arith))
          (elim (Bool-cases ended) [
            | inl whole ↦ rw whole (View-finished before extra m _ v _ _ _ refl more)
            | inr other ↦ elim (Bool-cases part) [
              | inl begun ↦ rw (other, begun) (View-read before extra m _ v _ _ refl)
              | inr wrong ↦ rw (other, wrong) (View-read before extra m _ v _ _ refl)
            ]
          ])

    finish_no_body-View :
        FlowView before extra (finish_no_body m) (finish_no_body (over before b len m))
    unfolding finish_no_body
    finish_no_body-View = View-finished before extra m _ v _ _ _ refl more

    end_of_headers-View :
        (l : Limits)
        → FlowView before extra (end_of_headers l m) (end_of_headers l (over before b len m))
    unfolding end_of_headers
    end_of_headers-View l = elim (Bool-cases (is_chunked m.client.headers)) [
      | inl framed ↦ rw framed (View-read before extra m _ v _ _ refl)
      | inr plain ↦ elim (Option-cases (find (codes "content-length") m.client.headers)) [
        | inl missing ↦ rw (plain, missing) finish_no_body-View
        | inr (value, given) ↦ rw (plain, given) (View-read before extra m _ v _ _ refl)
      ]
    ]

  module _ (m : Machine) (b : Bytes) (len : ℕ) (v : View before extra m (over before b len m))
      (more : m.client.pos < m.buffer_len) where
    header_name-View :
        (l : Limits) (c : ℕ)
        → m.client.i_start ≤ m.client.i_end
        → m.client.i_end ≡ m.client.pos
        → FlowView before extra (header_name l c m) (header_name l c (over before b len m))
    unfolding header_name
    header_name-View l c h e =
        let agree = same m b len v more in
        let s = count_header_byte m.client in
        let counted = record m { client = s } in
        let named = c == b':' && ltb s.i_start s.i_end in
        let blank = c == b':' && s.i_end - s.i_start == 0 in
        let ended = c == b'\n' && byte_at b (s.pos - 1) == b'\r' && s.i_end - s.i_start == 1 in
        rw (Agree-byte_at m.buffer_len m.buffer b agree (s.pos - 1) (omega arith))
          (elim (Bool-cases named) [
            | inl yes_named ↦ rw yes_named (
                View-read before extra m _ v _ _ (
                  ap end_of_name
                    (sym (trim-Agree m.buffer_len m.buffer b agree s h (omega arith)))))
            | inr unnamed ↦ elim (Bool-cases blank) [
              | inl empty ↦ rw (unnamed, empty) (View-read before extra m _ v _ _ refl)
              | inr other ↦ elim (Bool-cases ended) [
                | inl whole ↦
                    rw (unnamed, other, whole)
                      (end_of_headers-View counted b len (View-read before extra m _ v s s refl)
                        more l)
                | inr inside ↦ elim (Bool-cases (ltb l.max_total_headers s.total_headers_counter)) [
                  | inl long ↦
                      rw (unnamed, other, inside, long) (View-read before extra m _ v _ _ refl)
                  | inr short ↦
                      rw (unnamed, other, inside, short) (View-read before extra m _ v _ _ refl)
                ]
              ]
            ]
          ])

    chunk-View :
        (l : Limits)
        → ContentSynced m.client.body m.client.i_start m.client.length_counter (suc m.client.pos)
        → FlowView before extra (chunk l m) (chunk l (over before b len m))
    unfolding chunk
    chunk-View l c =
        let s = record m.client { i_end = m.client.i_end + 1 } in
        let w = View-read before extra m _ v s s refl in
        elim (Bool-cases (eq_ℤ (ℤ.pos s.length_counter) s.current_chunk_length)) [
          | inl full ↦ elim (Bool-cases l.assemble_chunked_requests) [
            | inl joined ↦ rw (full, joined) w
            | inr split ↦
                rw (full, split)
                  (finish_chunk-View (record m { client = s }) b len w more
                    (reached _ s.current_chunk_length full) c)
          ]
          | inr going ↦ elim (Bool-cases (ltb l.max_body_size s.length_counter)) [
            | inl long ↦ rw (going, long) (View-read before extra m _ v _ _ refl)
            | inr short ↦ rw (going, short) w
          ]
        ]

    agree : Agree m.buffer_len m.buffer b
    agree = same m b len v more

    -- A case that reads the same of both buffers.
    read_alike :
        (s t : HttpStreamState)
        → s ≡ t
        → View before extra (record m { client = s }) (record (over before b len m) { client = t })
    read_alike s t e = View-read before extra m (over before b len m) v s t (sym e)

    -- Every case of the `switch`.
    pub dispatch-View :
        (st : HttpState) (capacity : ℕ) (l : Limits) (c : ℕ)
        → m.client.state ≡ st
        → IsWellFormed capacity m.client
        → SyncedAt (suc m.client.pos) m.client
        → FlowView before extra (dispatch st l c m) (dispatch st l c (over before b len m))
    unfolding dispatch
    dispatch-View HttpState.parse_response_or_request capacity l c e w y =
        let f = rw e at w in
        read_alike _ _
          (response_or_request-Agree m.buffer_len m.buffer b agree m.client f.0 (omega arith) c)
    dispatch-View HttpState.parse_response_status capacity l c e w y =
        let f = rw e at w in
        read_alike _ _
          (response_status-Agree m.buffer_len m.buffer b agree m.client f.0 (omega arith) l c)
    dispatch-View HttpState.parse_response_headers_start capacity l c e w y =
        let f = rw e at w in
        read_alike _ _ (
          response_headers_start-Agree m.buffer_len m.buffer b agree m.client f.0 (omega arith) l c)
    dispatch-View HttpState.parse_request_uri capacity l c e w y =
        let f = rw e at w in
        read_alike _ _
          (request_uri-Agree m.buffer_len m.buffer b agree m.client f.0 (omega arith) l c)
    dispatch-View HttpState.parse_request_http_version capacity l c e w y =
        let f = rw e at w in
        read_alike _ _
          (request_http_version-Agree m.buffer_len m.buffer b agree m.client f.0 (omega arith) l c)
    dispatch-View HttpState.parse_header_name capacity l c e w y =
        let f = rw e at w in header_name-View l c f.0 f.1
    dispatch-View HttpState.parse_header_value capacity l c e w y =
        let f = rw e at w in
        read_alike _ _ (
          header_value-Agree m.buffer_len m.buffer b agree m.client f.0 (omega arith) l c
            (omega arith))
    dispatch-View HttpState.parse_body capacity l c e w y = body-View m b len v more l (rw e at y)
    dispatch-View HttpState.parse_chunk_size capacity l c e w y =
        let f = rw e at w in
        read_alike _ _
          (chunk_size-Agree m.buffer_len m.buffer b agree m.client f.0 (omega arith) l c (sym f.1))
    dispatch-View HttpState.parse_chunk capacity l c e w y = chunk-View l (rw e at y)
    dispatch-View HttpState.parse_chunk_skip_line capacity l c e w y =
        let f = rw e at w in
        read_alike _ _ (
          chunk_skip_line-Agree m.buffer_len m.buffer b agree m.client f.0 (omega arith) c
            (sym f.1))
    dispatch-View HttpState.parse_end_of_chunked_request capacity l c e w y =
        let f = rw e at w in end_of_chunked_request-View m b len v more c f.1
    dispatch-View HttpState.start capacity l c e w y = v
    dispatch-View HttpState.done capacity l c e w y = v
    dispatch-View HttpState.error capacity l c e w y = v
