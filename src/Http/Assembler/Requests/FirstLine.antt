-- ===== src/Http/Assembler/Requests/FirstLine.antt =====
-- The first line of a request through the loop of `HttpAssembler::feed`
-- (src/networking/http/HttpAssembler.cpp).
use pulse_net.Base.{
  ℕ, ◌+◌, ◌-◌, ◌≤◌, ◌<◌, ◌≡◌, ◌≢◌, refl, ap, ◌∙◌, subst, List, [], ◌∷◌, ◌++◌, arith, lt→ltb, length,
  drop-cons, drop-append, take-length-append, length-append,
}
use mathlib.Core.List.{append_assoc}
use pulse_net.Base.Int.{ℤ}
use pulse_net.Base.Bytes.{Bytes, byte_at, slice}
use pulse_net.Http.Types.{HttpMethod, HttpType, HttpVersion}
use pulse_net.Http.Message.{HttpMessage, method_name, version_name}
use pulse_net.Http.Assembler.State.{
  HttpState, HttpStreamState, Limits, Machine, leave, initial_state,
}
use pulse_net.Http.Assembler.Lines.{
  response_or_request, first_word, parse_method, request_uri, request_http_version, last_word,
}
use pulse_net.Http.Assembler.Feed.{dispatch, is_error, run_all}
use pulse_net.Http.Assembler.Scan.{Holds, ArePlain, scanned, run_leave, run_plain}

-- The methods that a request can have.
abbrev pub IsMethod : HttpMethod → Type 0
IsMethod HttpMethod.invalid = ⊥
IsMethod HttpMethod.unknown = ⊥
IsMethod _ = Unit {0}

-- The versions that the assembler accepts.
abbrev pub IsVersion : HttpVersion → Type 0
IsVersion HttpVersion.http_1_0 = Unit {0}
IsVersion HttpVersion.http_1_1 = Unit {0}
IsVersion _ = ⊥

parse_method-method_name : (me : HttpMethod) → IsMethod me → parse_method (method_name me) ≡ me
unfolding parse_method method_name
parse_method-method_name HttpMethod.get h = refl
parse_method-method_name HttpMethod.invalid h = absurd h
parse_method-method_name HttpMethod.unknown h = absurd h
parse_method-method_name _ h = refl

method_name-ArePlain :
    (me : HttpMethod) (l : Limits)
    → IsMethod me
    → ArePlain HttpState.parse_response_or_request l (method_name me) 0 0
unfolding method_name
method_name-ArePlain HttpMethod.get l h = omega arith
method_name-ArePlain HttpMethod.invalid l h = absurd h
method_name-ArePlain HttpMethod.unknown l h = absurd h
method_name-ArePlain _ l h = omega arith

method_name_pos : (me : HttpMethod) → IsMethod me → 0 < 0 + length (method_name me)
unfolding method_name
method_name_pos HttpMethod.get h = omega arith
method_name_pos HttpMethod.invalid h = absurd h
method_name_pos HttpMethod.unknown h = absurd h
method_name_pos _ h = omega arith

pub length-version_name : (v : HttpVersion) → IsVersion v → length (version_name v) ≡ 8
unfolding version_name
length-version_name HttpVersion.http_1_0 h = refl
length-version_name _ h = refl

pub length_pos : (w : Bytes) → w ≢ [] → 0 < length w
length_pos [] h = absurd (h refl)
length_pos (c ∷ cs) h = omega arith

-- The text of a token, once it is read.
pub slice_held :
    (buffer : Bytes) (a b : ℕ) (w : Bytes)
    → Holds buffer a w
    → b ≡ a + length w
    → slice buffer a b ≡ w
slice_held buffer a b w (rest, h) e =
    let n : b - a ≡ length w = omega arith in rw (n, h) (take-length-append w rest)

pub Holds-here :
    (buffer : Bytes) (p c : ℕ) (w : Bytes) → Holds buffer p (c ∷ w) → byte_at buffer p ≡ c
Holds-here buffer p c w (rest, h) = (drop-cons p buffer c (w ++ rest) 0 h).0

pub Holds-left : (buffer : Bytes) (p : ℕ) (v w : Bytes) → Holds buffer p (v ++ w) → Holds buffer p v
Holds-left buffer p v w (rest, h) = (w ++ rest, h ∙ append_assoc v w rest)

pub Holds-right :
    (buffer : Bytes) (p : ℕ) (v w : Bytes) → Holds buffer p (v ++ w) → Holds buffer (p + length v) w
Holds-right buffer p v w (rest, h) =
    (rest, drop-append p buffer v (w ++ rest) (h ∙ append_assoc v w rest))

module _ (l : Limits) (buffer : Bytes) (len : ℕ) (messages : List HttpMessage) where
  abbrev pub fresh : Machine
  fresh = record { client = initial_state; buffer = buffer; buffer_len = len; messages = messages }

  abbrev pub after_method : ℕ → HttpMethod → Machine
  after_method k me = record fresh {
    client = record initial_state {
      state = HttpState.parse_request_uri;
      method = me;
      type = HttpType.request;
      pos = k;
      i_start = k;
      i_end = k;
      length_counter = k;
    };
  }

  first_word-method :
      (me : HttpMethod) (s : HttpStreamState)
      → IsMethod me
      → first_word (method_name me) s ≡ record s {
        state = HttpState.parse_request_uri;
        method = me;
        type = HttpType.request;
        i_start = s.pos + 1;
        i_end = s.pos + 1;
      }
  unfolding first_word method_name parse_method
  first_word-method HttpMethod.get s h = refl
  first_word-method HttpMethod.invalid s h = absurd h
  first_word-method HttpMethod.unknown s h = absurd h
  first_word-method _ s h = refl

  response_or_request-method :
      (me : HttpMethod) (s : HttpStreamState)
      → IsMethod me
      → s.i_start < s.i_end
      → slice buffer s.i_start s.i_end ≡ method_name me
      → response_or_request buffer b' ' s ≡ record s {
        state = HttpState.parse_request_uri;
        method = me;
        type = HttpType.request;
        i_start = s.pos + 1;
        i_end = s.pos + 1;
      }
  unfolding response_or_request
  response_or_request-method me s h lt e = rw (lt→ltb _ _ lt, e) (first_word-method me s h)

  -- `m` with the byte that is being read counted.
  abbrev counted : Machine → Machine
  counted m = record m { client = record m.client { length_counter = m.client.length_counter + 1 } }

  pub run_method :
      (me : HttpMethod)
      → IsMethod me
      → Holds buffer 0 (method_name me ++ b' ' ∷ [])
      → length (method_name me) + 1 ≤ len
      → run_all l fresh ≡ run_all l (after_method (length (method_name me) + 1) me)
  unfolding initial_state
  run_method me h holds fits =
      let w = method_name me in
      let st = HttpState.parse_response_or_request in
      let m = scanned st (length w) fresh in
      let word = Holds-left buffer 0 w (b' ' ∷ []) holds in
      run_plain w st l fresh refl word (omega arith) (method_name-ArePlain me l h)
      ∙ run_leave l m
          (record (counted m).client {
            state = HttpState.parse_request_uri;
            method = me;
            type = HttpType.request;
            i_start = m.client.pos + 1;
            i_end = m.client.pos + 1;
          })
          (after_method (length w + 1) me) b' ' [] (Holds-right buffer 0 w (b' ' ∷ []) holds)
          (omega arith)
          (unfold dispatch in
            ap (λ x. leave (record (counted m) { client = x }))
              (response_or_request-method me (counted m).client h (method_name_pos me h)
                (slice_held buffer 0 _ w word refl)))
          (unfold is_error in refl) (ground arith)

  abbrev pub after_uri : ℕ → HttpMethod → Bytes → Machine
  after_uri k me uri = record fresh {
    client = record initial_state {
      state = HttpState.parse_request_http_version;
      method = me;
      type = HttpType.request;
      uri = uri;
      pos = k;
      i_start = k;
      i_end = k;
      length_counter = k;
    };
  }

  request_uri-space :
      (s : HttpStreamState) (uri : Bytes)
      → s.i_start < s.i_end
      → slice buffer s.i_start s.i_end ≡ uri
      → request_uri l buffer b' ' s ≡ record s {
        state = HttpState.parse_request_http_version;
        uri = uri;
        i_start = s.pos + 1;
        i_end = s.pos + 1;
      }
  unfolding request_uri
  request_uri-space s uri lt e = ground arith

  pub run_uri :
      (k : ℕ) (me : HttpMethod) (uri : Bytes)
      → uri ≢ []
      → ArePlain HttpState.parse_request_uri l uri k 0
      → Holds buffer k (uri ++ b' ' ∷ [])
      → k + length uri + 1 ≤ len
      → run_all l (after_method k me) ≡ run_all l (after_uri (k + length uri + 1) me uri)
  unfolding initial_state
  run_uri k me uri ne plain holds fits =
      let st = HttpState.parse_request_uri in
      let m0 = after_method k me in
      let m = scanned st (length uri) m0 in
      let word = Holds-left buffer k uri (b' ' ∷ []) holds in
      run_plain uri st l m0 refl word (omega arith) plain
      ∙ run_leave l m
          (record (counted m).client {
            state = HttpState.parse_request_http_version;
            uri = uri;
            i_start = m.client.pos + 1;
            i_end = m.client.pos + 1;
          })
          (after_uri (k + length uri + 1) me uri) b' ' []
          (Holds-right buffer k uri (b' ' ∷ []) holds) (omega arith)
          (unfold dispatch in
            ap (λ x. leave (record (counted m) { client = x }))
              (request_uri-space (counted m).client uri (omega (arith, length_pos uri ne))
                (slice_held buffer k _ uri word refl)))
          (unfold is_error in refl) (ground arith)

  abbrev pub after_version : ℕ → HttpMethod → Bytes → HttpVersion → Machine
  after_version k me uri version = record fresh {
    client = record initial_state {
      state = HttpState.parse_header_name;
      method = me;
      type = HttpType.request;
      uri = uri;
      http_version = version;
      pos = k;
      i_start = k;
      i_end = k;
      length_counter = 0;
      last_checkpoint = ℤ.pos k;
    };
  }

  last_word-version :
      (version : HttpVersion) (s : HttpStreamState)
      → IsVersion version
      → last_word (version_name version) s ≡ record s {
        state = HttpState.parse_header_name;
        http_version = version;
        i_start = s.pos + 1;
        i_end = s.pos + 1;
        length_counter = 0;
        last_checkpoint = ℤ.pos (s.pos + 1);
      }
  unfolding last_word version_name
  last_word-version HttpVersion.http_1_0 s h = refl
  last_word-version HttpVersion.http_1_1 s h = refl
  last_word-version HttpVersion.unknown s h = absurd h
  last_word-version HttpVersion.http2 s h = absurd h

  version_name-ArePlain :
      (version : HttpVersion) (k : ℕ)
      → IsVersion version
      → k + 9 ≤ l.max_request_line_length
      → ArePlain HttpState.parse_request_http_version l (version_name version ++ b'\r' ∷ []) k 0
  unfolding version_name
  version_name-ArePlain HttpVersion.http_1_0 k h q = omega arith
  version_name-ArePlain HttpVersion.http_1_1 k h q = omega arith
  version_name-ArePlain HttpVersion.unknown k h q = absurd h
  version_name-ArePlain HttpVersion.http2 k h q = absurd h

  http_version-end :
      (version : HttpVersion) (s : HttpStreamState)
      → IsVersion version
      → 1 < s.i_end - s.i_start
      → byte_at buffer (s.i_end - 1) ≡ b'\r'
      → slice buffer s.i_start (s.i_end - 1) ≡ version_name version
      → request_http_version l buffer b'\n' s ≡ record s {
        state = HttpState.parse_header_name;
        http_version = version;
        i_start = s.pos + 1;
        i_end = s.pos + 1;
        length_counter = 0;
        last_checkpoint = ℤ.pos (s.pos + 1);
      }
  unfolding request_http_version
  http_version-end version s h lt cr e = rw (lt→ltb _ _ lt, cr, e) (last_word-version version s h)

  pub run_version :
      (k : ℕ) (me : HttpMethod) (uri : Bytes) (version : HttpVersion)
      → IsVersion version
      → k + 9 ≤ l.max_request_line_length
      → Holds buffer k ((version_name version ++ b'\r' ∷ []) ++ b'\n' ∷ [])
      → k + 10 ≤ len
      → run_all l (after_uri k me uri) ≡ run_all l (after_version (k + 10) me uri version)
  unfolding initial_state
  run_version k me uri version h room holds fits =
      let st = HttpState.parse_request_http_version in
      let v = version_name version in
      let w = v ++ b'\r' ∷ [] in
      let m0 = after_uri k me uri in
      let m = scanned st (length w) m0 in
      let word = Holds-left buffer k w (b'\n' ∷ []) holds in
      let nine = length-version_name version h in
      let nine' : length w ≡ 9 = omega (arith, length-append v (b'\r' ∷ []), nine) in
      run_plain w st l m0 refl word (omega arith) (version_name-ArePlain version k h room)
      ∙ run_leave l m
          (record (counted m).client {
            state = HttpState.parse_header_name;
            http_version = version;
            i_start = m.client.pos + 1;
            i_end = m.client.pos + 1;
            length_counter = 0;
            last_checkpoint = ℤ.pos (m.client.pos + 1);
          })
          (after_version (k + 10) me uri version) b'\n' []
          (Holds-right buffer k w (b'\n' ∷ []) holds) (omega arith)
          (unfold dispatch in
            ap (λ x. leave (record (counted m) { client = x }))
              (http_version-end version (counted m).client h (omega arith)
                (subst (λ (x : ℕ). byte_at buffer x ≡ b'\r') (omega arith)
                  (Holds-here buffer (k + length v) b'\r' []
                    (Holds-right buffer k v (b'\r' ∷ []) word)))
                (slice_held buffer k _ v (Holds-left buffer k v (b'\r' ∷ []) word) (omega arith))))
          (unfold is_error in refl) (ground arith)
