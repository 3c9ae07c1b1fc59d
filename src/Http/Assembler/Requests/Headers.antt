-- ===== src/Http/Assembler/Requests/Headers.antt =====
-- A run of the loop of `HttpAssembler::feed` (src/networking/http/HttpAssembler.cpp) over header
-- lines, and the header map that it leaves.
use mathlib.Core.List.{append_assoc}
use pulse_net.Base.{
  ℕ, ◌+◌, ◌≤◌, ◌<◌, ◌≡◌, ◌≢◌, refl, ap, ◌∙◌, subst, [], ◌∷◌, ◌++◌, arith, length, length-append,
}
use pulse_net.Base.Int.{ℤ}
use pulse_net.Base.Bytes.{Bytes, byte_at, slice}
use pulse_net.Utils.Chars.{to_lower_ascii}
use pulse_net.Http.Message.{header_lines}
use pulse_net.Http.Message.HeaderMap.{Headers, emplace}
use pulse_net.Http.Assembler.State.{HttpState, Limits, Machine, leave}
use pulse_net.Http.Assembler.Feed.{dispatch, is_error, run_all}
use pulse_net.Http.Assembler.Scan.{Holds, scanned, run_leave, run_plain}
use pulse_net.Http.Assembler.Requests.FirstLine.{
  slice_held, length_pos, Holds-here, Holds-left, Holds-right,
}
use pulse_net.Http.Assembler.Requests.Fields.{
  HasInk, AreValueBytes, IsField, AreNameBytes-ArePlain, AreValueBytes-ArePlain, header_name-colon,
  header_value-line_feed,
}

-- The machine at the first byte of a line behind the first line: `t` header bytes were read, `n`
-- bytes since the first line, and the headers `hs` were collected.
abbrev pub at_line : Machine → ℕ → ℕ → ℕ → ℕ → ℕ → Headers → Machine
at_line m p t n ns ne hs = record m {
  client = record m.client {
    state = HttpState.parse_header_name;
    pos = p;
    i_start = p;
    i_end = p;
    total_headers_counter = t;
    length_counter = n;
    header_name_start = ns;
    header_name_end = ne;
    headers = hs;
    last_checkpoint = ℤ.pos p;
  };
}

-- The machine behind the colon of a line.
abbrev at_value : Machine → ℕ → ℕ → ℕ → ℕ → ℕ → Headers → Machine
at_value m k t n p a hs = record m {
  client = record m.client {
    state = HttpState.parse_header_value;
    pos = a;
    i_start = a;
    i_end = a;
    total_headers_counter = t;
    length_counter = n;
    header_name_start = p;
    header_name_end = k;
    headers = hs;
    last_checkpoint = ℤ.pos p;
  };
}

HasInk-first :
    (buffer : Bytes) (p : ℕ) (w : Bytes) → HasInk w → Holds buffer p w → byte_at buffer p ≢ b' '
HasInk-first buffer p [] i h = absurd i
HasInk-first buffer p (c ∷ cs) i h = rw (Holds-here buffer p c cs h) i

HasInk-ne-nil : (w : Bytes) → HasInk w → w ≢ []
HasInk-ne-nil [] i e = i
HasInk-ne-nil (c ∷ cs) i e = cc

AreValueBytes-line : (w : Bytes) → AreValueBytes w → AreValueBytes (w ++ b'\r' ∷ [])
AreValueBytes-line [] h = ((omega arith, omega arith), tt)
AreValueBytes-line (c ∷ cs) h = (h.0, AreValueBytes-line cs h.1)

module _ (l : Limits) (m : Machine) (hs : Headers) (name value : Bytes)
    (f : IsField name value) where
  run_name :
      (p t n ns ne : ℕ)
      → Holds m.buffer p (name ++ b':' ∷ [])
      → t + length name ≤ l.max_total_headers
      → p + length name < m.buffer_len
      → run_all l (at_line m p t n ns ne hs)
        ≡ run_all l (
            at_value m
              (p + length name)
              (t + length name + 1)
              (n + length name + 1)
              p
              (p + length name + 1)
              hs)
  run_name p t n ns ne holds room fits =
      let st = HttpState.parse_header_name in
      let m0 = at_line m p t n ns ne hs in
      let m1 = scanned st (length name) m0 in
      let word = Holds-left m.buffer p name (b':' ∷ []) holds in
      let colon = Holds-right m.buffer p name (b':' ∷ []) holds in
      let counted = record m1 {
        client = record m1.client { length_counter = m1.client.length_counter + 1 };
      } in
      run_plain name st l m0 refl word (omega arith)
        (AreNameBytes-ArePlain name l n t f.name_bytes room)
      ∙ run_leave l m1
          (record counted.client {
            state = HttpState.parse_header_value;
            total_headers_counter = counted.client.total_headers_counter + 1;
            header_name_start = p;
            header_name_end = p + length name;
            i_start = p + length name + 1;
            i_end = p + length name + 1;
          })
          (at_value m (p + length name) (t + length name + 1) (n + length name + 1) p
            (p + length name + 1) hs)
          b':' [] colon fits
          (unfold dispatch in
            header_name-colon l counted
              (omega (arith, length_pos name (HasInk-ne-nil name f.name_ink)))
              (HasInk-first m.buffer p name f.name_ink word)
              (rw (Holds-here m.buffer (p + length name) b':' [] colon) (omega arith)))
          (unfold is_error in refl) refl

  run_value :
      (k t n p a : ℕ)
      → slice m.buffer p k ≡ name
      → Holds m.buffer a (((b' ' ∷ value) ++ b'\r' ∷ []) ++ b'\n' ∷ [])
      → t + length value + 2 ≤ l.max_total_headers
      → a + length value + 3 ≤ m.buffer_len
      → run_all l (at_value m k t n p a hs)
        ≡ run_all l (
            at_line m
              (a + length value + 3)
              (t + length value + 3)
              (n + length value + 3)
              p
              k
              (emplace (to_lower_ascii name) value hs))
  run_value k t n p a named holds room fits =
      let st = HttpState.parse_header_value in
      let v = b' ' ∷ value in
      let w = v ++ b'\r' ∷ [] in
      let m0 = at_value m k t n p a hs in
      let m1 = scanned st (length w) m0 in
      let word = Holds-left m.buffer a w (b'\n' ∷ []) holds in
      let text = Holds-left m.buffer a v (b'\r' ∷ []) word in
      let inner = Holds-right m.buffer a (b' ' ∷ []) value text in
      let lf = Holds-right m.buffer a w (b'\n' ∷ []) holds in
      let cr = Holds-right m.buffer a v (b'\r' ∷ []) word in
      let size : length w ≡ length value + 2 = omega (arith, length-append value (b'\r' ∷ [])) in
      let counted = record m1 {
        client = record m1.client { length_counter = m1.client.length_counter + 1 };
      } in
      run_plain w st l m0 refl word (omega arith) (
        AreValueBytes-ArePlain w l n t
          ((omega arith, omega arith), AreValueBytes-line value f.value_bytes) (omega arith))
      ∙ run_leave l m1
          (record counted.client {
            state = HttpState.parse_header_name;
            total_headers_counter = counted.client.total_headers_counter + 1;
            headers = emplace (to_lower_ascii name) value hs;
            i_start = m1.client.pos + 1;
            i_end = m1.client.pos + 1;
            last_checkpoint = ℤ.pos (m1.client.pos + 1);
          })
          (at_line m (a + length value + 3) (t + length value + 3) (n + length value + 3) p k
            (emplace (to_lower_ascii name) value hs))
          b'\n' [] lf (omega arith)
          (unfold dispatch in
            ap (λ x. leave (record counted { client = x }))
              (header_value-line_feed l m.buffer name value counted.client
                (omega (arith, length_pos value (HasInk-ne-nil value f.value_ink)))
                (Holds-here m.buffer a b' ' value text)
                (HasInk-first m.buffer (a + 1) value f.value_ink inner)
                (subst (λ (x : ℕ). byte_at m.buffer x ≡ b'\r') (omega arith)
                  (Holds-here m.buffer (a + length v) b'\r' [] cr))
                (Holds-here m.buffer (a + length w) b'\n' [] lf) named
                (slice_held m.buffer (a + 1) _ value inner (omega arith))
                (HasInk-ne-nil value f.value_ink)))
          (unfold is_error in refl) (ground (arith, size))

  -- The text of one header line, as `header_lines` writes it.
  abbrev line : Bytes
  line = (name ++ b':' ∷ []) ++ (((b' ' ∷ value) ++ b'\r' ∷ []) ++ b'\n' ∷ [])

  run_field :
      (p t n ns ne : ℕ)
      → Holds m.buffer p line
      → t + length name + length value + 3 ≤ l.max_total_headers
      → p + length name + length value + 4 ≤ m.buffer_len
      → run_all l (at_line m p t n ns ne hs)
        ≡ run_all l (
            at_line m
              (p + length name + length value + 4)
              (t + length name + length value + 4)
              (n + length name + length value + 4)
              p
              (p + length name)
              (emplace (to_lower_ascii name) value hs))
  run_field p t n ns ne holds room fits =
      let front = name ++ b':' ∷ [] in
      let back = ((b' ' ∷ value) ++ b'\r' ∷ []) ++ b'\n' ∷ [] in
      let size : p + length front ≡ p + length name + 1 =
        omega (arith, length-append name (b':' ∷ [])) in
      let word = Holds-left m.buffer p front back holds in
      let rest =
        subst (λ x. Holds m.buffer x back) size (Holds-right m.buffer p front back holds) in
      run_name p t n ns ne word (omega arith) (omega arith)
      ∙ run_value (p + length name) (t + length name + 1) (n + length name + 1) p
          (p + length name + 1)
          (slice_held m.buffer p _ name (Holds-left m.buffer p name (b':' ∷ []) word) refl) rest
          (omega arith) (omega arith)
      ∙ ground arith

-- The header map that the lines leave: names in lower case, the first value of a name kept.
unfoldable pub collect : Headers → Headers → Headers
collect hs [] = hs
collect hs ((name, value) ∷ rest) = collect (emplace (to_lower_ascii name) value hs) rest

-- A line and what follows it.
header_lines-split :
    (name value : Bytes) (rest : Headers)
    → header_lines ((name, value) ∷ rest)
      ≡ ((name ++ b':' ∷ []) ++ (((b' ' ∷ value) ++ b'\r' ∷ []) ++ b'\n' ∷ [])) ++ header_lines rest
unfolding header_lines
header_lines-split name value rest = simp append_assoc

length-header_lines :
    (name value : Bytes) (rest : Headers)
    → length (header_lines ((name, value) ∷ rest))
      ≡ length name + length value + 4 + length (header_lines rest)
unfolding header_lines
length-header_lines name value rest = omega (
  arith,
  length-append name (b':' ∷ b' ' ∷ (value ++ (b'\r' ∷ b'\n' ∷ header_lines rest))),
  length-append value (b'\r' ∷ b'\n' ∷ header_lines rest),
)

length-line :
    (name value : Bytes)
    → length ((name ++ b':' ∷ []) ++ (((b' ' ∷ value) ++ b'\r' ∷ []) ++ b'\n' ∷ []))
      ≡ length name + length value + 4
length-line name value = omega (
  arith,
  length-append (name ++ b':' ∷ []) (((b' ' ∷ value) ++ b'\r' ∷ []) ++ b'\n' ∷ []),
  length-append name (b':' ∷ []),
  length-append ((b' ' ∷ value) ++ b'\r' ∷ []) (b'\n' ∷ []),
  length-append value (b'\r' ∷ []),
)

abbrev pub AreFields : Headers → Type 0
AreFields [] = Unit {0}
AreFields ((name, value) ∷ rest) = IsField name value × AreFields rest

pub run_fields :
    (fields hs : Headers) (l : Limits) (m : Machine) (p t n ns ne : ℕ)
    → AreFields fields
    → Holds m.buffer p (header_lines fields)
    → t + length (header_lines fields) ≤ l.max_total_headers
    → p + length (header_lines fields) ≤ m.buffer_len
    → (n' : ℕ) × (ns' : ℕ) × (ne' : ℕ) × (run_all l (at_line m p t n ns ne hs)
        ≡ run_all l (
            at_line m
              (p + length (header_lines fields))
              (t + length (header_lines fields))
              n'
              ns'
              ne'
              (collect hs fields)))
unfolding collect
run_fields [] hs l m p t n ns ne f holds room fits =
    (n, ns, ne, unfold header_lines in ground arith)
run_fields ((name, value) ∷ rest) hs l m p t n ns ne f holds room fits =
    let line = (name ++ b':' ∷ []) ++ (((b' ' ∷ value) ++ b'\r' ∷ []) ++ b'\n' ∷ []) in
    let size = length-header_lines name value rest in
    let k : ℕ = length name + length value + 4 in
    let text = subst (Holds m.buffer p) (header_lines-split name value rest) holds in
    let behind =
      subst (λ x. Holds m.buffer x (header_lines rest)) (ap (◌+◌ p) (length-line name value))
        (Holds-right m.buffer p line (header_lines rest) text) in
    let (n', ns', ne', e) =
      run_fields rest (emplace (to_lower_ascii name) value hs) l m (p + k) (t + k) (n + k) p
        (p + length name) f.1 behind (omega arith) (omega arith) in
    (
      n',
      ns',
      ne',
      run_field l m hs name value f.0 p t n ns ne
            (Holds-left m.buffer p line (header_lines rest) text) (omega arith) (omega arith)
          ∙ ground arith
          ∙ e
          ∙ ground (arith, size),
    )
