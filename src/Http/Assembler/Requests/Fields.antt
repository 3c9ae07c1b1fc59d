-- ===== src/Http/Assembler/Requests/Fields.antt =====
-- Header lines through the loop of `HttpAssembler::feed`
-- (src/networking/http/HttpAssembler.cpp).
use pulse_net.Base.{
  ℕ, zero, suc, ◌+◌, ◌-◌, ◌≤◌, ◌<◌, ◌≡◌, ◌≢◌, refl, ap, ◌∙◌, [], ◌∷◌, arith, lt→ltb, length,
}
use pulse_net.Base.Int.{ℤ}
use pulse_net.Base.Bytes.{Bytes, byte_at, slice}
use pulse_net.Utils.Chars.{to_lower_ascii}
use pulse_net.Http.Message.HeaderMap.{emplace}
use pulse_net.Http.Assembler.State.{HttpState, HttpStreamState, Limits, Machine, leave}
use pulse_net.Http.Assembler.HeaderLines.{
  header_name, header_value, trim, skip_spaces, drop_spaces, end_of_name, end_of_value,
}
use pulse_net.Http.Assembler.Scan.{ArePlain}

-- A text that does not begin with a blank, nor is empty.
abbrev pub HasInk : Bytes → Type 0
HasInk [] = ⊥
HasInk (c ∷ cs) = c ≢ b' '

abbrev pub AreNameBytes : Bytes → Type 0
AreNameBytes [] = Unit {0}
AreNameBytes (c ∷ cs) = ((c ≢ b'\n') × (c ≤ 127) × (c ≢ b':')) × AreNameBytes cs

abbrev pub AreValueBytes : Bytes → Type 0
AreValueBytes [] = Unit {0}
AreValueBytes (c ∷ cs) = ((c ≢ b'\n') × (c ≤ 127)) × AreValueBytes cs

-- A header that goes over the wire as it is: ASCII, no line feed, no colon in the name, and
-- neither part empty or with a blank in front.
pub record IsField (name value : Bytes) : Type 0 where
  pub name_ink : HasInk name
  pub name_bytes : AreNameBytes name
  pub value_ink : HasInk value
  pub value_bytes : AreValueBytes value

pub AreNameBytes-ArePlain :
    (w : Bytes) (l : Limits) (n h : ℕ)
    → AreNameBytes w
    → h + length w ≤ l.max_total_headers
    → ArePlain HttpState.parse_header_name l w n h
AreNameBytes-ArePlain [] l n h a q = tt
AreNameBytes-ArePlain (c ∷ cs) l n h a q = (
  (a.0.0, a.0.1, omega arith, a.0.2),
  AreNameBytes-ArePlain cs l (n + 1) (h + 1) a.1 (omega arith),
)

pub AreValueBytes-ArePlain :
    (w : Bytes) (l : Limits) (n h : ℕ)
    → AreValueBytes w
    → h + length w ≤ l.max_total_headers
    → ArePlain HttpState.parse_header_value l w n h
AreValueBytes-ArePlain [] l n h a q = tt
AreValueBytes-ArePlain (c ∷ cs) l n h a q =
    ((a.0.0, a.0.1, omega arith), AreValueBytes-ArePlain cs l (n + 1) (h + 1) a.1 (omega arith))

skip_spaces_none : (buffer : Bytes) (a n : ℕ) → byte_at buffer a ≢ b' ' → skip_spaces buffer a n ≡ a
unfolding skip_spaces
skip_spaces_none buffer a zero h = refl
skip_spaces_none buffer a (suc n) h = ground arith

drop_spaces_none :
    (buffer : Bytes) (a n : ℕ) → byte_at buffer (a + n) ≢ b' ' → drop_spaces buffer a n ≡ a + n
unfolding drop_spaces
drop_spaces_none buffer a zero h = omega arith
drop_spaces_none buffer a (suc n) h = ground arith

-- With no blank at the front, and the byte behind the token no blank, nothing is trimmed.
trim_none :
    (buffer : Bytes) (s : HttpStreamState)
    → s.i_start ≤ s.i_end
    → byte_at buffer s.i_start ≢ b' '
    → byte_at buffer s.i_end ≢ b' '
    → trim buffer s ≡ s
unfolding trim
trim_none buffer s le front back =
    let e : s.i_start + (s.i_end - s.i_start) ≡ s.i_end = omega arith in
    rw (skip_spaces_none buffer s.i_start (s.i_end - s.i_start) front)
      (rw (drop_spaces_none buffer s.i_start (s.i_end - s.i_start) (rw e back)) (rw e))

skip_spaces_one :
    (buffer : Bytes) (a n : ℕ)
    → 0 < n
    → byte_at buffer a ≡ b' '
    → byte_at buffer (a + 1) ≢ b' '
    → skip_spaces buffer a n ≡ a + 1
unfolding skip_spaces
skip_spaces_one buffer a zero lt h k = absurd (omega arith)
skip_spaces_one buffer a (suc n) lt h k = rw h (skip_spaces_none buffer (a + 1) n k)

-- One blank at the front.
trim_one :
    (buffer : Bytes) (s : HttpStreamState)
    → s.i_start < s.i_end
    → byte_at buffer s.i_start ≡ b' '
    → byte_at buffer (s.i_start + 1) ≢ b' '
    → byte_at buffer s.i_end ≢ b' '
    → trim buffer s ≡ record s { i_start = s.i_start + 1 }
unfolding trim
trim_one buffer s lt blank front back =
    let a = s.i_start + 1 in
    let e : a + (s.i_end - a) ≡ s.i_end = omega arith in
    rw (skip_spaces_one buffer s.i_start (s.i_end - s.i_start) (omega arith) blank front)
      (rw (drop_spaces_none buffer a (s.i_end - a) (rw e back)) (rw e))

pub header_name-colon :
    (l : Limits) (m : Machine)
    → m.client.i_start < m.client.i_end
    → byte_at m.buffer m.client.i_start ≢ b' '
    → byte_at m.buffer m.client.i_end ≢ b' '
    → header_name l b':' m
      ≡ leave (record m {
        client = record m.client {
          state = HttpState.parse_header_value;
          total_headers_counter = m.client.total_headers_counter + 1;
          header_name_start = m.client.i_start;
          header_name_end = m.client.i_end;
          i_start = m.client.pos + 1;
          i_end = m.client.pos + 1;
        };
      })
unfolding header_name
header_name-colon l m lt front back =
    let s = record m.client { total_headers_counter = m.client.total_headers_counter + 1 } in
    rw (lt→ltb _ _ lt) (
      ap (λ x. leave (record m { client = end_of_name x }))
        (trim_none m.buffer s (omega arith) front back)
      ∙ rw (lt→ltb _ _ lt))

end_of_value_lem :
    (buffer name value : Bytes) (s : HttpStreamState)
    → slice buffer s.header_name_start s.header_name_end ≡ name
    → slice buffer s.i_start (s.i_end - 1) ≡ value
    → value ≢ []
    → end_of_value buffer s ≡ record s {
      state = HttpState.parse_header_name;
      headers = emplace (to_lower_ascii name) value s.headers;
      i_start = s.pos + 1;
      i_end = s.pos + 1;
      last_checkpoint = ℤ.pos (s.pos + 1);
    }
end_of_value_lem buffer name [] s n v ne = absurd (ne refl)
end_of_value_lem buffer name (c ∷ cs) s n v ne = unfold end_of_value in rw (n, v) (ground arith)

pub header_value-line_feed :
    (l : Limits) (buffer name value : Bytes) (s : HttpStreamState)
    → s.i_start + 1 < s.i_end
    → byte_at buffer s.i_start ≡ b' '
    → byte_at buffer (s.i_start + 1) ≢ b' '
    → byte_at buffer (s.i_end - 1) ≡ b'\r'
    → byte_at buffer s.i_end ≡ b'\n'
    → slice buffer s.header_name_start s.header_name_end ≡ name
    → slice buffer (s.i_start + 1) (s.i_end - 1) ≡ value
    → value ≢ []
    → header_value l buffer b'\n' s ≡ record s {
      state = HttpState.parse_header_name;
      total_headers_counter = s.total_headers_counter + 1;
      headers = emplace (to_lower_ascii name) value s.headers;
      i_start = s.pos + 1;
      i_end = s.pos + 1;
      last_checkpoint = ℤ.pos (s.pos + 1);
    }
unfolding header_value
header_value-line_feed l buffer name value s lt blank front cr lf n v ne =
    let t = record s { total_headers_counter = s.total_headers_counter + 1 } in
    let lt' : s.i_start < s.i_end = omega arith in
    rw (lt→ltb _ _ lt', cr)
      (ap (end_of_value buffer) (trim_one buffer t lt' blank front (rw lf (omega arith)))
        ∙ end_of_value_lem buffer name value (record t { i_start = s.i_start + 1 }) n v ne)
