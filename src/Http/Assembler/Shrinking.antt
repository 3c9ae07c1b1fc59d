-- ===== src/Http/Assembler/Shrinking.antt =====
-- `HttpAssembler::feed` (src/networking/http/HttpAssembler.cpp) and the length of the buffer.
use pulse_net.Base.{ℕ, zero, suc, ◌+◌, ◌-◌, ◌≤◌, arith}
use pulse_net.Base.Bytes.{byte_at}
use pulse_net.Http.Assembler.State.{HttpState, Limits, Machine, Flow, leave, again, drop_read}
use pulse_net.Http.Assembler.HeaderLines.{header_name, end_of_headers, finish_no_body}
use pulse_net.Http.Assembler.Content.{body, chunk, finish_chunk, end_of_chunked_request}
use pulse_net.Http.Assembler.Feed.{dispatch, end_round, round, run, run_all}

-- The machine that a case of the `switch` ends in.
abbrev after : Flow → Machine
after (leave m) = m
after (again m) = m

drop_read-le : (m : Machine) → (drop_read m).buffer_len ≤ m.buffer_len
unfolding drop_read
drop_read-le m = ground arith

end_of_headers-le :
    (l : Limits) (m : Machine) → (after (end_of_headers l m)).buffer_len ≤ m.buffer_len
unfolding end_of_headers finish_no_body drop_read
end_of_headers-le l m = ground arith

header_name-le :
    (l : Limits) (c : ℕ) (m : Machine) → (after (header_name l c m)).buffer_len ≤ m.buffer_len
unfolding header_name
header_name-le l c m =
    let counted = record m {
      client = record m.client { total_headers_counter = m.client.total_headers_counter + 1 };
    } in
    ground (arith, end_of_headers-le l counted)

dispatch-le :
    (st : HttpState) (l : Limits) (c : ℕ) (m : Machine)
    → (after (dispatch st l c m)).buffer_len ≤ m.buffer_len
unfolding dispatch
dispatch-le HttpState.parse_header_name l c m = header_name-le l c m
dispatch-le HttpState.parse_body l c m = unfold body drop_read in ground arith
dispatch-le HttpState.parse_chunk l c m = unfold chunk finish_chunk drop_read in ground arith
dispatch-le HttpState.parse_end_of_chunked_request l c m =
    unfold end_of_chunked_request drop_read in ground arith
dispatch-le _ l c m = omega arith

end_round-le : (f : Flow) → (end_round f).0.buffer_len ≤ (after f).buffer_len
unfolding end_round
end_round-le (again m) = omega arith
end_round-le (leave m) = ground arith

round-le : (l : Limits) (m : Machine) → (round l m).0.buffer_len ≤ m.buffer_len
unfolding round
round-le l m =
    let s = record m.client { length_counter = m.client.length_counter + 1 } in
    let f = dispatch s.state l (byte_at m.buffer s.pos) (record m { client = s }) in
    omega (
      arith,
      end_round-le f,
      dispatch-le s.state l (byte_at m.buffer s.pos) (record m { client = s }),
    )

run-le : (fuel : ℕ) (l : Limits) (m : Machine) → (run fuel l m).buffer_len ≤ m.buffer_len
unfolding run
run-le zero l m = omega arith
run-le (suc fuel) l m = ground (arith, round-le l m, run-le fuel l (round l m).0)

pub run_all-le : (l : Limits) (m : Machine) → (run_all l m).buffer_len ≤ m.buffer_len
unfolding run_all
run_all-le l m = run-le (m.buffer_len - m.client.pos) l m
