-- ===== src/Http/Assembler/Pieces/Reads.antt =====
-- What the cases of the `switch` of `feed` (src/networking/http/HttpAssembler.cpp) read of the
-- buffer: no byte behind the position of the byte that is handled.
use pulse_net.Base.{
  ℕ, zero, suc, ◌+◌, ◌-◌, ◌≤◌, ◌<◌, ◌≡◌, refl, sym, ap, ◌∙◌, ◌&&◌, [], ◌∷◌, inl, inr, ltb, ◌==◌,
  if◌then◌else◌, Bool-cases, take, drop, arith,
}
use pulse_net.Base.Bytes.{Bytes, byte_at, slice}
use pulse_net.Http.Assembler.State.{HttpStreamState, Limits, fail, ascii_step}
use pulse_net.Http.Assembler.Lines.{
  response_or_request, response_status, response_headers_start, request_uri, request_http_version,
}
use pulse_net.Http.Assembler.HeaderLines.{
  header_value, trim, skip_spaces, drop_spaces, end_of_value, count_header_byte,
}
use pulse_net.Http.Assembler.Content.{chunk_size, chunk_skip_line}
use pulse_net.Http.Assembler.Invariant.{trim_bounds, skip_spaces_bounds}

byte_at-take : (k : ℕ) (b : Bytes) (i : ℕ) → i < k → byte_at (take k b) i ≡ byte_at b i
byte_at-take zero b i h = absurd (omega arith)
byte_at-take (suc k) [] i h = refl
byte_at-take (suc k) (x ∷ b) zero h = refl
byte_at-take (suc k) (x ∷ b) (suc i) h = byte_at-take k b i (omega arith)

pub take-take : (n k : ℕ) (b : Bytes) → n ≤ k → take n (take k b) ≡ take n b
take-take zero k b h = refl
take-take (suc n) zero b h = absurd (omega arith)
take-take (suc n) (suc k) [] h = refl
take-take (suc n) (suc k) (x ∷ b) h = ap (◌∷◌ x) (take-take n k b (omega arith))

take-drop : (n a : ℕ) (b : Bytes) → take n (drop a (take (a + n) b)) ≡ take n (drop a b)
take-drop n zero b = ground (arith, take-take n n b (omega arith))
take-drop n (suc a) [] = let e : suc a + n ≡ suc (a + n) = omega arith in rw e refl
take-drop n (suc a) (x ∷ b) =
    let e : suc a + n ≡ suc (a + n) = omega arith in rw e (take-drop n a b)

take-drop_le : (n a k : ℕ) (b : Bytes) → a + n ≤ k → take n (drop a (take k b)) ≡ take n (drop a b)
take-drop_le n a k b h =
    sym (take-drop n a (take k b))
    ∙ ap (λ x. take n (drop a x)) (take-take (a + n) k b h)
    ∙ take-drop n a b

-- Two buffers with the same first `k` bytes.
abbrev pub Agree : ℕ → Bytes → Bytes → Type 0
Agree k b d = take k b ≡ take k d

module _ (k : ℕ) (b d : Bytes) (same : Agree k b d) where
  pub Agree-byte_at : (i : ℕ) → i < k → byte_at b i ≡ byte_at d i
  Agree-byte_at i h = sym (byte_at-take k b i h) ∙ ap (λ x. byte_at x i) same ∙ byte_at-take k d i h

  pub Agree-part : (a n : ℕ) → a + n ≤ k → take n (drop a b) ≡ take n (drop a d)
  Agree-part a n h =
      sym (take-drop_le n a k b h) ∙ ap (λ x. take n (drop a x)) same ∙ take-drop_le n a k d h

  pub Agree-take : (n : ℕ) → n ≤ k → take n b ≡ take n d
  Agree-take n h = sym (take-take n k b h) ∙ ap (take n) same ∙ take-take n k d h

  -- A view that would end before it starts is empty.
  Agree-slice : (x y : ℕ) → y ≤ k → slice b x y ≡ slice d x y
  Agree-slice x y h = elim (Bool-cases (ltb x y)) [
    | inl less ↦ Agree-part x (y - x) (ground arith)
    | inr not_less ↦ let e : y - x ≡ 0 = ground arith in rw e refl
  ]

  skip_spaces-Agree : (a n : ℕ) → a + n ≤ k → skip_spaces b a n ≡ skip_spaces d a n
  unfolding skip_spaces
  skip_spaces-Agree a zero h = refl
  skip_spaces-Agree a (suc n) h =
      rw (Agree-byte_at a (omega arith), skip_spaces-Agree (a + 1) n (omega arith)) refl

  drop_spaces-Agree : (a n : ℕ) → a + n < k → drop_spaces b a n ≡ drop_spaces d a n
  unfolding drop_spaces
  drop_spaces-Agree a zero h = refl
  drop_spaces-Agree a (suc n) h =
      rw (Agree-byte_at (a + suc n) (omega arith), drop_spaces-Agree a n (omega arith)) refl

  pub trim-Agree : (s : HttpStreamState) → s.i_start ≤ s.i_end → s.i_end < k → trim b s ≡ trim d s
  unfolding trim
  trim-Agree s h q =
      let n = s.i_end - s.i_start in
      let a = skip_spaces d s.i_start n in
      rw
        (
          skip_spaces-Agree s.i_start n (omega arith),
          drop_spaces-Agree a (s.i_end - a) (omega (arith, skip_spaces_bounds d s.i_start n)),
        )
        refl

  end_of_value-Agree :
      (s : HttpStreamState)
      → (s.header_name_end ≤ k) × (s.i_end ≤ k)
      → end_of_value b s ≡ end_of_value d s
  unfolding end_of_value
  end_of_value-Agree s h =
      rw
        (
          Agree-slice s.header_name_start s.header_name_end h.0,
          Agree-slice s.i_start (s.i_end - 1) (omega arith),
        )
        refl

  trim_inside :
      (s : HttpStreamState)
      → s.i_start ≤ s.i_end
      → s.i_end < k
      → s.header_name_end ≤ s.i_start
      → ((trim d s).header_name_end ≤ k) × ((trim d s).i_end ≤ k)
  trim_inside s h q r = let bounds = trim_bounds d s h in (unfold trim in omega arith, omega arith)

  -- The cases that read a token `[i_start, i_end)` that ends at the byte that is handled.
  module _ (s : HttpStreamState) (start : s.i_start ≤ s.i_end) (end : s.i_end < k) where
    pub response_or_request-Agree : (c : ℕ) → response_or_request b c s ≡ response_or_request d c s
    unfolding response_or_request
    response_or_request-Agree c = rw (Agree-slice s.i_start s.i_end (omega arith)) refl

    pub response_status-Agree :
        (l : Limits) (c : ℕ) → response_status l b c s ≡ response_status l d c s
    unfolding response_status
    response_status-Agree l c = elim (Bool-cases (s.i_end - s.i_start == 3)) [
      | inl three ↦
          rw
            (
              Agree-byte_at s.i_start (ground arith),
              Agree-byte_at (s.i_start + 1) (ground arith),
              Agree-byte_at 0 (ground arith),
              Agree-byte_at 1 (ground arith),
              Agree-byte_at 2 (ground arith),
            )
            refl
      | inr other ↦ rw other refl
    ]

    pub response_headers_start-Agree :
        (l : Limits) (c : ℕ) → response_headers_start l b c s ≡ response_headers_start l d c s
    unfolding response_headers_start
    response_headers_start-Agree l c = rw (Agree-byte_at s.i_end end) refl

    pub request_uri-Agree : (l : Limits) (c : ℕ) → request_uri l b c s ≡ request_uri l d c s
    unfolding request_uri
    request_uri-Agree l c = rw (Agree-slice s.i_start s.i_end (omega arith)) refl

    pub request_http_version-Agree :
        (l : Limits) (c : ℕ) → request_http_version l b c s ≡ request_http_version l d c s
    unfolding request_http_version
    request_http_version-Agree l c =
        rw
          (
            Agree-byte_at (s.i_end - 1) (omega arith),
            Agree-slice s.i_start (s.i_end - 1) (omega arith),
          )
          refl

    pub header_value-Agree :
        (l : Limits) (c : ℕ)
        → s.header_name_end ≤ s.i_start
        → header_value l b c s ≡ header_value l d c s
    unfolding header_value
    header_value-Agree l c h =
        let t = count_header_byte s in
        let e : end_of_value b (trim b t) ≡ end_of_value d (trim d t) =
          ap (end_of_value b) (trim-Agree t start end)
          ∙ end_of_value-Agree (trim d t) (trim_inside t start end h) in
        rw (Agree-byte_at (s.i_end - 1) (omega arith)) (
          ap
            (λ x.
              if ltb s.i_start s.i_end && c == b'\n' && byte_at d (s.i_end - 1) == b'\r'
              then x
              else if ltb l.max_total_headers t.total_headers_counter
              then fail t
              else ascii_step c t)
            e)

    pub chunk_size-Agree :
        (l : Limits) (c : ℕ) → s.pos ≡ s.i_end → chunk_size l b c s ≡ chunk_size l d c s
    unfolding chunk_size
    chunk_size-Agree l c e =
        rw
          (
            Agree-byte_at (s.pos - 1) (omega arith),
            Agree-slice s.i_start (s.i_end - 1) (omega arith),
          )
          refl

    pub chunk_skip_line-Agree :
        (c : ℕ) → s.pos ≡ s.i_end → chunk_skip_line b c s ≡ chunk_skip_line d c s
    unfolding chunk_skip_line
    chunk_skip_line-Agree c e = rw (Agree-byte_at (s.pos - 1) (omega arith)) refl
