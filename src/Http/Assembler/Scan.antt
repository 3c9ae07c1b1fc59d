-- ===== src/Http/Assembler/Scan.antt =====
-- The loop of `HttpAssembler::feed` (src/networking/http/HttpAssembler.cpp) inside a word, a URI, a
-- header name or a header value: bytes that end nothing move the position and `i_end` on.
use pulse_net.Base.{
  ℕ, suc, ◌+◌, ◌≤◌, ◌<◌, false, ◌≡◌, ◌≢◌, refl, ap, ◌∙◌, [], ◌∷◌, ◌++◌, arith, length, drop,
  drop-cons,
}
use pulse_net.Base.Bytes.{Bytes, byte_at}
use pulse_net.Http.Assembler.State.{HttpState, HttpStreamState, Limits, Machine, leave}
use pulse_net.Http.Assembler.Lines.{response_or_request, request_uri, request_http_version}
use pulse_net.Http.Assembler.HeaderLines.{header_name, header_value}
use pulse_net.Http.Assembler.Feed.{dispatch, is_error, end_round, round, run_all}
use pulse_net.Http.Assembler.Progress.{run_all_next}

-- `text` stands in the buffer at position `p`.
abbrev pub Holds : Bytes → ℕ → Bytes → Type 0
Holds buffer p text = (rest : Bytes) × (drop p buffer ≡ text ++ rest)

-- The byte `c` ends nothing in the state `st`, when `n` bytes of the line, and `h` of the headers,
-- were read before.
abbrev pub IsPlain : HttpState → Limits → ℕ → ℕ → ℕ → Type 0
IsPlain HttpState.parse_response_or_request l c n h = (c ≢ b' ') × (c ≤ 127) × (n < 8)
IsPlain HttpState.parse_request_uri l c n h =
    (c ≢ b' ') × (c ≤ 127) × (n < l.max_request_line_length)
IsPlain HttpState.parse_request_http_version l c n h =
    (c ≢ b'\n') × (c ≤ 127) × (n < l.max_request_line_length)
IsPlain HttpState.parse_header_name l c n h =
    (c ≢ b'\n') × (c ≤ 127) × (h < l.max_total_headers) × (c ≢ b':')
IsPlain HttpState.parse_header_value l c n h = (c ≢ b'\n') × (c ≤ 127) × (h < l.max_total_headers)
IsPlain _ l c n h = ⊥

abbrev pub header_bytes : HttpState → ℕ → ℕ
header_bytes HttpState.parse_header_name k = k
header_bytes HttpState.parse_header_value k = k
header_bytes _ k = 0

-- The machine `k` plain bytes on.
abbrev pub scanned : HttpState → ℕ → Machine → Machine
scanned st k m = record m {
  client = record m.client {
    pos = m.client.pos + k;
    i_end = m.client.i_end + k;
    length_counter = m.client.length_counter + k;
    total_headers_counter = m.client.total_headers_counter + header_bytes st k;
  };
}

-- A case of the `switch` that is left by `break`, with no error.
pub round_leave :
    (l : Limits) (m n : Machine)
    → dispatch m.client.state l
        (byte_at m.buffer m.client.pos)
        (record m { client = record m.client { length_counter = m.client.length_counter + 1 } })
      ≡ leave n
    → is_error n.client.state ≡ false
    → round l m ≡ (record n { client = record n.client { pos = n.client.pos + 1 } }, false)
unfolding round end_round
round_leave l m n e g = rw e (rw g)

dispatch_plain :
    (st : HttpState) (l : Limits) (c n : ℕ) (m : Machine)
    → IsPlain st l c n m.client.total_headers_counter
    → m.client.length_counter ≡ n + 1
    → dispatch st l c m
      ≡ leave (record m {
        client = record m.client {
          i_end = m.client.i_end + 1;
          total_headers_counter = m.client.total_headers_counter + header_bytes st 1;
        };
      })
unfolding dispatch
dispatch_plain HttpState.parse_response_or_request l c n m p h =
    unfold response_or_request in ground arith
dispatch_plain HttpState.parse_request_uri l c n m p h = unfold request_uri in ground arith
dispatch_plain HttpState.parse_request_http_version l c n m p h =
    unfold request_http_version in ground arith
dispatch_plain HttpState.parse_header_name l c n m p h = unfold header_name in ground arith
dispatch_plain HttpState.parse_header_value l c n m p h = unfold header_value in ground arith
dispatch_plain _ l c n m p h = absurd p

round_plain :
    (st : HttpState) (l : Limits) (m : Machine)
    → m.client.state ≡ st
    → is_error st ≡ false
    → IsPlain st l
        (byte_at m.buffer m.client.pos)
        m.client.length_counter
        m.client.total_headers_counter
    → round l m ≡ (scanned st 1 m, false)
round_plain st l m e g p =
    let c = byte_at m.buffer m.client.pos in
    let counted = record m {
      client = record m.client { length_counter = m.client.length_counter + 1 };
    } in
    round_leave l m _
      (ap (λ x. dispatch x l c counted) e
        ∙ dispatch_plain st l c m.client.length_counter counted p refl)
      (rw e g)

IsPlain-ok : (st : HttpState) (l : Limits) (c n h : ℕ) → IsPlain st l c n h → is_error st ≡ false
unfolding is_error
IsPlain-ok HttpState.error l c n h p = absurd p
IsPlain-ok _ l c n h p = refl

scanned_add :
    (st : HttpState) (k : ℕ) (m : Machine) → scanned st k (scanned st 1 m) ≡ scanned st (suc k) m
scanned_add HttpState.parse_header_name k m = ground arith
scanned_add HttpState.parse_header_value k m = ground arith
scanned_add _ k m = ground arith

scanned_none : (st : HttpState) (m : Machine) → m ≡ scanned st 0 m
scanned_none HttpState.parse_header_name m = ground arith
scanned_none HttpState.parse_header_value m = ground arith
scanned_none _ m = ground arith

abbrev pub ArePlain : HttpState → Limits → Bytes → ℕ → ℕ → Type 0
ArePlain st l [] n h = Unit {0}
ArePlain st l (c ∷ cs) n h = IsPlain st l c n h × ArePlain st l cs (n + 1) (h + header_bytes st 1)

pub run_plain :
    (w : Bytes) (st : HttpState) (l : Limits) (m : Machine)
    → m.client.state ≡ st
    → Holds m.buffer m.client.pos w
    → m.client.pos + length w ≤ m.buffer_len
    → ArePlain st l w m.client.length_counter m.client.total_headers_counter
    → run_all l m ≡ run_all l (scanned st (length w) m)
run_plain [] st l m e holds fits p = ap (run_all l) (scanned_none st m)
run_plain (c ∷ cs) st l m e (rest, holds) fits p =
    let (here, behind) = drop-cons m.client.pos m.buffer c (cs ++ rest) 0 holds in
    run_all_next l m (scanned st 1 m) (omega arith)
      (round_plain st l m e (IsPlain-ok st l _ _ _ p.0) (rw here p.0))
    ∙ run_plain cs st l (scanned st 1 m) e (rest, behind) (omega arith) p.1
    ∙ ap (run_all l) (scanned_add st (length cs) m)

-- A round that is left by `break` with no error, and the machine that it leads to.
pub run_leave :
    (l : Limits) (m : Machine) (s : HttpStreamState) (t : Machine) (c : ℕ) (w : Bytes)
    → Holds m.buffer m.client.pos (c ∷ w)
    → m.client.pos < m.buffer_len
    → dispatch m.client.state l c
        (record m { client = record m.client { length_counter = m.client.length_counter + 1 } })
      ≡ leave (record m { client = s })
    → is_error s.state ≡ false
    → record m { client = record s { pos = s.pos + 1 } } ≡ t
    → run_all l m ≡ run_all l t
run_leave l m s t c w (rest, holds) more e g q =
    let here = (drop-cons m.client.pos m.buffer c (w ++ rest) 0 holds).0 in
    run_all_next l m _ more (round_leave l m (record m { client = s }) (rw here e) g)
    ∙ ap (run_all l) q
