-- ===== src/Http/Assembler/Requests/Ending.antt =====
-- The end of a request in the loop of `HttpAssembler::feed`
-- (src/networking/http/HttpAssembler.cpp): the empty line, the body, and the message.
use mathlib.Core.List.{append_assoc}
use pulse_net.Base.{
  ℕ, zero, suc, ◌+◌, ◌-◌, ◌≤◌, ◌<◌, ◌≡◌, false, refl, sym, ap, ◌∙◌, subst, [], ◌∷◌, ◌++◌, none,
  some, ◌==◌, arith, ◌⊎◌, length, take, drop, take-append_ge, take-length-append, Bool-cases,
  ==_iff, inl, inr,
}
use pulse_net.Base.Int.{ℤ}
use pulse_net.Base.Bytes.{Bytes, byte_at, codes}
use pulse_net.Http.Message.{HttpMessage, make_request, make_request_no_body, crlf}
use pulse_net.Http.Message.HeaderMap.{Headers, find}
use pulse_net.Http.Assembler.State.{
  HttpState, HttpStreamState, Limits, Machine, leave, again, initial_state, reset_state, drop_read,
  memmove_front,
}
use pulse_net.Http.Assembler.HeaderLines.{header_name, end_of_headers, is_chunked, parse_number}
use pulse_net.Http.Assembler.Content.{body}
use pulse_net.Http.Assembler.Feed.{dispatch, is_error, end_round, round, run_all}
use pulse_net.Http.Assembler.Progress.{run_all_next}
use pulse_net.Http.Assembler.Scan.{Holds, scanned, round_leave, run_leave, run_plain}
use pulse_net.Http.Assembler.Requests.FirstLine.{Holds-here, Holds-left, Holds-right}
use pulse_net.Http.Assembler.Requests.Headers.{at_line}

reset_state-initial : (s : HttpStreamState) → reset_state s ≡ initial_state
unfolding reset_state initial_state
reset_state-initial s = refl

pub memmove_front-Holds :
    (buffer : Bytes) (offset n : ℕ) (w : Bytes)
    → Holds buffer offset w
    → length w ≤ n
    → Holds (memmove_front buffer offset n) 0 w
unfolding memmove_front
memmove_front-Holds buffer offset n w (rest, h) q =
    let moved = take n (drop offset buffer) in
    let tail = drop (length moved) buffer in
    let e : moved ≡ w ++ take (n - length w) rest = ap (take n) h ∙ take-append_ge n w rest q in
    (
      take (n - length w) rest ++ tail,
      ap (λ x. x ++ tail) e ∙ append_assoc w (take (n - length w) rest) tail,
    )

-- What stands behind the part that was read moves to the front.
pub drop_read-Holds :
    (m : Machine) (w : Bytes)
    → m.client.pos < m.buffer_len
    → Holds m.buffer (m.client.pos + 1) w
    → m.client.pos + 1 + length w ≤ m.buffer_len
    → Holds (drop_read m).buffer 0 w
unfolding drop_read
drop_read-Holds m [] more holds fits = ((drop_read m).buffer, refl)
drop_read-Holds m (c ∷ cs) more holds fits = elim (Bool-cases (m.client.pos == m.buffer_len - 1)) [
  | inl last ↦ absurd (let e = (==_iff m.client.pos (m.buffer_len - 1)).0 last in omega arith)
  | inr more' ↦
      rw more' (memmove_front-Holds m.buffer (m.client.pos + 1) _ (c ∷ cs) holds (omega arith))
]

pub length-drop_read :
    (m : Machine)
    → m.client.pos < m.buffer_len
    → (drop_read m).buffer_len ≡ m.buffer_len - (m.client.pos + 1)
unfolding drop_read
length-drop_read m more = ground arith

-- A round that ends with `continue`.
run_again :
    (l : Limits) (m n : Machine) (c : ℕ) (w : Bytes)
    → Holds m.buffer m.client.pos (c ∷ w)
    → m.client.pos < m.buffer_len
    → dispatch m.client.state l c
        (record m { client = record m.client { length_counter = m.client.length_counter + 1 } })
      ≡ again n
    → run_all l m ≡ run_all l n
run_again l m n c w holds more e =
    run_all_next l m n more
      (unfold round end_round in rw (Holds-here m.buffer m.client.pos c w holds) (rw e))

header_name-line_feed :
    (l : Limits) (m : Machine)
    → byte_at m.buffer (m.client.pos - 1) ≡ b'\r'
    → m.client.i_end ≡ m.client.i_start + 1
    → header_name l b'\n' m
      ≡ end_of_headers l (record m {
        client = record m.client { total_headers_counter = m.client.total_headers_counter + 1 };
      })
header_name-line_feed l m cr one =
    let e : m.client.i_end - m.client.i_start ≡ 1 = omega arith in unfold header_name in rw (cr, e)

-- The body is `k` bytes long, and `j` of them were read.
abbrev at_body : Machine → ℕ → ℕ → ℕ → Machine
at_body m p k j = record m {
  client = record m.client {
    state = HttpState.parse_body;
    pos = p + j;
    i_start = p;
    i_end = p;
    length_counter = j;
    body_length = ℤ.pos k;
    body = [];
  };
}

body_more :
    (l : Limits) (m : Machine) (p k j : ℕ)
    → suc j < k
    → k ≤ l.max_body_size
    → p + j < m.buffer_len
    → run_all l (at_body m p k j) ≡ run_all l (at_body m p k (suc j))
body_more l m p k j lt le more =
    run_all_next l (at_body m p k j) _ more (
      round_leave l (at_body m p k j)
        (record m { client = record (at_body m p k j).client { length_counter = j + 1 } })
        (unfold dispatch body in ground arith) (unfold is_error in refl))
    ∙ ground arith

body_run :
    (r : ℕ) (l : Limits) (m : Machine) (p k j : ℕ)
    → j + suc r ≡ k
    → k ≤ l.max_body_size
    → p + k ≤ m.buffer_len
    → run_all l (at_body m p k j) ≡ run_all l (at_body m p k (j + r))
body_run zero l m p k j e le more = ground arith
body_run (suc r) l m p k j e le more =
    body_more l m p k j (omega arith) le (omega arith)
    ∙ body_run r l m p k (suc j) (omega arith) le more
    ∙ ground arith

-- The machine behind a finished message.
abbrev pub delivered : HttpMessage → Machine → Machine
delivered message m = record (drop_read m) {
  client = initial_state;
  messages = m.messages ++ message ∷ [];
}

body_done :
    (l : Limits) (n : Machine) (w : Bytes)
    → n.client.length_counter ≤ l.max_body_size
    → n.client.body_length ≡ ℤ.pos n.client.length_counter
    → n.client.body ≡ []
    → take n.client.length_counter (drop n.client.i_start n.buffer) ≡ w
    → body l n
      ≡ again (
          delivered
            (make_request n.client.http_version n.client.method n.client.uri n.client.headers w)
            n)
unfolding body initial_state
body_done l n w le e b t = ground arith

body_last :
    (l : Limits) (m : Machine) (p k : ℕ) (w : Bytes)
    → length w ≡ suc k
    → suc k ≤ l.max_body_size
    → p + suc k ≤ m.buffer_len
    → Holds m.buffer p w
    → run_all l (at_body m p (suc k) k)
      ≡ run_all l (
          delivered
            (make_request m.client.http_version m.client.method m.client.uri m.client.headers w)
            (at_body m p (suc k) k))
unfolding round dispatch end_round drop_read
body_last l m p k w size le more (rest, h) =
    let n = at_body m p (suc k) k in
    let counted = record n { client = record n.client { length_counter = k + 1 } } in
    let message =
      make_request m.client.http_version m.client.method m.client.uri m.client.headers w in
    let text : take (k + 1) (drop p m.buffer) ≡ w =
      let e : k + 1 ≡ length w = omega arith in rw (e, h) (take-length-append w rest) in
    run_all_next l n (delivered message counted) (omega arith)
      (ap end_round (body_done l counted w (omega arith) (ground arith) refl text))
    ∙ ground arith

-- The whole body.
pub run_body :
    (l : Limits) (m : Machine) (p k : ℕ) (w : Bytes)
    → length w ≡ suc k
    → suc k ≤ l.max_body_size
    → p + suc k ≤ m.buffer_len
    → Holds m.buffer p w
    → run_all l (at_body m p (suc k) 0)
      ≡ run_all l (
          delivered
            (make_request m.client.http_version m.client.method m.client.uri m.client.headers w)
            (at_body m p (suc k) k))
run_body l m p k w size le more holds =
    body_run k l m p (suc k) 0 (omega arith) le more
    ∙ ap (λ j. run_all l (at_body m p (suc k) j)) (omega arith)
    ∙ body_last l m p k w size le more holds

-- How the body of a request is framed: none and no `content-length`, or a body of the length that
-- the header gives, within the limit and not empty.
abbrev pub IsFramed : Limits → Headers → Bytes → Type 0
IsFramed l hs w =
    (is_chunked hs ≡ false)
    × (((find (codes "content-length") hs ≡ none) × (w ≡ []))
        ⊎ ((v : Bytes) × (k : ℕ) × (find (codes "content-length") hs ≡ some v)
            × (parse_number v ≡ some (ℤ.pos (suc k)))
            × (length w ≡ suc k)
            × (suc k ≤ l.max_body_size)))

-- The machine at the line feed of the empty line.
abbrev at_empty_line : Machine → ℕ → ℕ → ℕ → ℕ → ℕ → Headers → Machine
at_empty_line m p t n ns ne hs = scanned HttpState.parse_header_name 1 (at_line m p t n ns ne hs)

run_carriage_return :
    (l : Limits) (m : Machine) (p t n ns ne : ℕ) (hs : Headers)
    → Holds m.buffer p (b'\r' ∷ [])
    → t < l.max_total_headers
    → p < m.buffer_len
    → run_all l (at_line m p t n ns ne hs) ≡ run_all l (at_empty_line m p t n ns ne hs)
run_carriage_return l m p t n ns ne hs holds room fits =
    run_plain (b'\r' ∷ []) HttpState.parse_header_name l (at_line m p t n ns ne hs) refl holds
      (omega arith) ((omega arith, omega arith, omega arith, omega arith), tt)

end_of_headers-none :
    (l : Limits) (n : Machine)
    → is_chunked n.client.headers ≡ false
    → find (codes "content-length") n.client.headers ≡ none
    → end_of_headers l n
      ≡ again (
          delivered
            (make_request n.client.http_version n.client.method n.client.uri n.client.headers [])
            n)
unfolding end_of_headers initial_state make_request make_request_no_body
end_of_headers-none l n c f = ground arith

end_of_headers-length :
    (l : Limits) (n : Machine) (v : Bytes) (k : ℕ)
    → is_chunked n.client.headers ≡ false
    → find (codes "content-length") n.client.headers ≡ some v
    → parse_number v ≡ some (ℤ.pos k)
    → k ≤ l.max_body_size
    → end_of_headers l n
      ≡ leave (record n {
        client = record n.client {
          state = HttpState.parse_body;
          i_start = n.client.pos + 1;
          i_end = n.client.pos + 1;
          body_length = ℤ.pos k;
          length_counter = 0;
        };
      })
unfolding end_of_headers
end_of_headers-length l n v k c f q le = ground arith

-- The end of the headers, the body where there is one, and the message.
pub run_ending :
    (l : Limits) (m : Machine) (p t n ns ne : ℕ) (hs : Headers) (w : Bytes)
    → m.client.body ≡ []
    → IsFramed l hs w
    → Holds m.buffer p (crlf ++ w)
    → t < l.max_total_headers
    → p + 2 + length w ≤ m.buffer_len
    → (q : Machine) × (run_all l (at_line m p t n ns ne hs)
        ≡ run_all l
            (delivered (make_request m.client.http_version m.client.method m.client.uri hs w) q))
      × (q.client.pos ≡ p + 1 + length w)
      × (q.buffer ≡ m.buffer)
      × (q.buffer_len ≡ m.buffer_len)
      × (q.messages ≡ m.messages)
unfolding dispatch is_error
run_ending l m p t n ns ne hs w b (c, inl (f, e)) holds room fits =
    let m1 = at_empty_line m p t n ns ne hs in
    let counted = record m1 { client = record m1.client { length_counter = n + 1 + 1 } } in
    let q = record counted {
      client = record counted.client { total_headers_counter = t + 1 + 1 };
    } in
    let cr = Holds-here m.buffer p b'\r' (b'\n' ∷ w) holds in
    (
      q,
      run_carriage_return l m p t n ns ne hs (Holds-left m.buffer p (b'\r' ∷ []) (b'\n' ∷ w) holds)
            room (omega arith)
          ∙ run_again l m1
              (delivered (make_request m.client.http_version m.client.method m.client.uri hs []) q)
              b'\n' w (Holds-right m.buffer p (b'\r' ∷ []) (b'\n' ∷ w) holds) (omega arith)
              (header_name-line_feed l counted
                  (subst (λ x. byte_at m.buffer x ≡ b'\r') (omega arith) cr) refl
                ∙ end_of_headers-none l q c f)
          ∙ ap
              (λ x. run_all l (
                delivered (make_request m.client.http_version m.client.method m.client.uri hs x) q))
              (sym e),
      omega (arith, ap length e),
      refl,
      refl,
      refl,
    )
run_ending l m p t n ns ne hs w b (c, inr (v, k, f, number, size, le)) holds room fits =
    let m1 = at_empty_line m p t n ns ne hs in
    let counted = record m1 { client = record m1.client { length_counter = n + 1 + 1 } } in
    let q = record counted {
      client = record counted.client { total_headers_counter = t + 1 + 1 };
    } in
    let cr = Holds-here m.buffer p b'\r' (b'\n' ∷ w) holds in
    let text : Holds m.buffer (p + 2) w =
      subst (λ (x : ℕ). Holds m.buffer x w) (let e : p + 2 ≡ p + 2 = refl in e)
        (Holds-right m.buffer p (b'\r' ∷ b'\n' ∷ []) w holds) in
    (
      at_body q (p + 2) (suc k) k,
      run_carriage_return l m p t n ns ne hs (Holds-left m.buffer p (b'\r' ∷ []) (b'\n' ∷ w) holds)
            room (omega arith)
          ∙ run_leave l m1
              (record q.client {
                state = HttpState.parse_body;
                i_start = p + 1 + 1;
                i_end = p + 1 + 1;
                body_length = ℤ.pos (suc k);
                length_counter = 0;
              })
              (at_body q (p + 2) (suc k) 0) b'\n' w
              (Holds-right m.buffer p (b'\r' ∷ []) (b'\n' ∷ w) holds) (omega arith)
              (header_name-line_feed l counted
                  (subst (λ x. byte_at m.buffer x ≡ b'\r') (omega arith) cr) refl
                ∙ end_of_headers-length l q v (suc k) c f number le)
              refl (ground arith)
          ∙ run_body l q (p + 2) k w size le (omega arith) text,
      omega arith,
      refl,
      refl,
      refl,
    )
