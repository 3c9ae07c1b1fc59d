-- ===== src/Http/Assembler/Requests/Delivery.antt =====
-- Requests as `HttpMessage::serializeRequest` (src/networking/http/HttpMessage.cpp) writes them,
-- read back by `HttpAssembler::feed` (src/networking/http/HttpAssembler.cpp).
use mathlib.Core.List.{append_assoc}
use pulse_net.Base.{
  ℕ, ◌+◌, ◌-◌, ◌≤◌, ◌<◌, ◌≡◌, ◌≢◌, refl, sym, ap, ◌∙◌, subst, List, [], ◌∷◌, ◌++◌, arith, length,
  length-append,
}
use pulse_net.Base.Bytes.{Bytes}
use pulse_net.Http.Types.{HttpVersion}
use pulse_net.Http.Message.{
  HttpMessage, make_request, method_name, version_name, header_lines, crlf, serialize_request,
}
use pulse_net.Http.Message.HeaderMap.{Headers}
use pulse_net.Http.Assembler.State.{HttpState, Limits, Machine, initial_state, drop_read}
use pulse_net.Http.Assembler.Feed.{run_all}
use pulse_net.Http.Assembler.Scan.{Holds, ArePlain}
use pulse_net.Http.Assembler.Requests.FirstLine.{
  IsMethod, IsVersion, Holds-left, Holds-right, fresh, run_method, run_uri, run_version,
  after_version, length-version_name,
}
use pulse_net.Http.Assembler.Requests.Headers.{collect, AreFields, run_fields}
use pulse_net.Http.Assembler.Requests.Ending.{
  IsFramed, delivered, run_ending, drop_read-Holds, length-drop_read,
}

abbrev pub AreUriBytes : Bytes → Type 0
AreUriBytes [] = Unit {0}
AreUriBytes (c ∷ cs) = ((c ≢ b' ') × (c ≤ 127)) × AreUriBytes cs

AreUriBytes-ArePlain :
    (w : Bytes) (l : Limits) (n h : ℕ)
    → AreUriBytes w
    → n + length w ≤ l.max_request_line_length
    → ArePlain HttpState.parse_request_uri l w n h
AreUriBytes-ArePlain [] l n h a q = tt
AreUriBytes-ArePlain (c ∷ cs) l n h a q =
    ((a.0.0, a.0.1, omega arith), AreUriBytes-ArePlain cs l (n + 1) (h + 0) a.1 (omega arith))

Holds-behind :
    (buffer : Bytes) (p q : ℕ) (v w : Bytes)
    → Holds buffer p (v ++ w)
    → p + length v ≡ q
    → Holds buffer q w
Holds-behind buffer p q v w h e = subst (λ (x : ℕ). Holds buffer x w) e (Holds-right buffer p v w h)

length-version_line :
    (v : HttpVersion) → IsVersion v → length ((version_name v ++ b'\r' ∷ []) ++ b'\n' ∷ []) ≡ 10
length-version_line v h = omega (
  arith,
  length-append (version_name v ++ b'\r' ∷ []) (b'\n' ∷ []),
  length-append (version_name v) (b'\r' ∷ []),
  length-version_name v h,
)

-- The machine behind a message is a new one on what follows the message.
delivered-fresh :
    (l : Limits) (q : Machine) (message : HttpMessage) (messages : List HttpMessage) (len k : ℕ)
    → q.client.pos + 1 ≡ k
    → q.buffer_len ≡ len
    → q.messages ≡ messages
    → k ≤ len
    → delivered message q ≡ fresh l (drop_read q).buffer (len - k) (messages ++ message ∷ [])
delivered-fresh l q message messages len k place same_len same_messages fits =
    let size : (drop_read q).buffer_len ≡ len - k =
      length-drop_read q (omega arith) ∙ omega arith in
    rw (size, same_messages) refl

module _ (l : Limits) (iterate : Headers → Headers) where
  -- A request that the assembler accepts as `serialize_request` writes it.
  pub record IsSendable (message : HttpMessage) : Type 0 where
    pub method_ok : IsMethod message.method
    pub version_ok : IsVersion message.version
    pub uri_ne_nil : message.uri ≢ []
    pub uri_bytes : AreUriBytes message.uri
    pub line_fits :
        length (method_name message.method) + length message.uri + 11 ≤ l.max_request_line_length
    pub fields_ok : AreFields (iterate message.headers)
    pub headers_fit : length (header_lines (iterate message.headers)) < l.max_total_headers
    pub framed : IsFramed l (collect [] (iterate message.headers)) message.body

  -- The message that the assembler makes of it.
  unfoldable pub received : HttpMessage → HttpMessage
  received message =
      make_request message.version message.method message.uri (collect [] (iterate message.headers))
        message.body

  -- The text of a request, cut where the states change, with the next request behind it.
  serialize_request-split :
      (message : HttpMessage) (next : Bytes)
      → serialize_request iterate message ++ next
        ≡ (method_name message.method ++ b' ' ∷ [])
          ++ ((message.uri ++ b' ' ∷ [])
              ++ (((version_name message.version ++ b'\r' ∷ []) ++ b'\n' ∷ [])
                  ++ (header_lines (iterate message.headers) ++ ((crlf ++ message.body) ++ next))))
  serialize_request-split message next = unfold serialize_request in simp append_assoc

  length-serialize_request :
      (message : HttpMessage)
      → IsVersion message.version
      → length (serialize_request iterate message)
        ≡ length (method_name message.method)
          + length message.uri
          + 14
          + length (header_lines (iterate message.headers))
          + length message.body
  length-serialize_request message v =
      let a = method_name message.method in
      let u = message.uri in
      let b = version_name message.version in
      let h = header_lines (iterate message.headers) in
      let tail = (crlf ++ message.body) ++ [] in
      let third = (b ++ b'\r' ∷ []) ++ b'\n' ∷ [] in
      omega (
        arith,
        ap length (serialize_request-split message []),
        length-append (serialize_request iterate message) [],
        length-append (a ++ b' ' ∷ []) ((u ++ b' ' ∷ []) ++ (third ++ (h ++ tail))),
        length-append a (b' ' ∷ []),
        length-append (u ++ b' ' ∷ []) (third ++ (h ++ tail)),
        length-append u (b' ' ∷ []),
        length-append third (h ++ tail),
        length-append (b ++ b'\r' ∷ []) (b'\n' ∷ []),
        length-append b (b'\r' ∷ []),
        length-version_name message.version v,
        length-append h tail,
        length-append message.body [],
      )

  -- One request, with the next one behind it.
  pub receive_one :
      (message : HttpMessage)
      → IsSendable message
      → (buffer : Bytes) (len : ℕ) (messages : List HttpMessage) (next : Bytes)
      → Holds buffer 0 (serialize_request iterate message ++ next)
      → length (serialize_request iterate message) + length next ≤ len
      → (rest : Bytes) × (run_all l (fresh l buffer len messages)
          ≡ run_all l (
              fresh l rest
                (len - length (serialize_request iterate message))
                (messages ++ received message ∷ [])))
        × Holds rest 0 next
  unfolding received
  receive_one message s buffer len messages next holds fits =
      let size = length-serialize_request message s.version_ok in
      let me = message.method in
      let u = message.uri in
      let v = message.version in
      let h = header_lines (iterate message.headers) in
      let k1 = length (method_name me) + 1 in
      let k2 = k1 + length u + 1 in
      let first = method_name me ++ b' ' ∷ [] in
      let second = u ++ b' ' ∷ [] in
      let third = (version_name v ++ b'\r' ∷ []) ++ b'\n' ∷ [] in
      let tail = (crlf ++ message.body) ++ next in
      let text = subst (Holds buffer 0) (serialize_request-split message next) holds in
      let t1 =
        Holds-behind buffer 0 k1 first (second ++ (third ++ (h ++ tail))) text
          (omega (arith, length-append (method_name me) (b' ' ∷ []))) in
      let t2 =
        Holds-behind buffer k1 k2 second (third ++ (h ++ tail)) t1
          (omega (arith, length-append u (b' ' ∷ []))) in
      let t3 =
        Holds-behind buffer k2 (k2 + 10) third (h ++ tail) t2
          (omega (arith, length-version_line v s.version_ok)) in
      let t4 = Holds-right buffer (k2 + 10) h tail t3 in
      let t5 = Holds-right buffer (k2 + 10 + length h) (crlf ++ message.body) next t4 in
      let m = after_version l buffer len messages (k2 + 10) me u v in
      let (n, ns, ne, e) =
        run_fields (iterate message.headers) [] l m (k2 + 10) 0 0 0 0 s.fields_ok
          (Holds-left buffer (k2 + 10) h tail t3) (omega (arith, s.headers_fit))
          (omega (arith, size)) in
      let (q, e2, place, same, same_len, same_messages) =
        run_ending l m (k2 + 10 + length h) (0 + length h) n ns ne
          (collect [] (iterate message.headers)) message.body (unfold initial_state in refl)
          s.framed (Holds-left buffer (k2 + 10 + length h) (crlf ++ message.body) next t4)
          (omega (arith, s.headers_fit)) (omega (arith, size)) in
      (
        (drop_read q).buffer,
        run_method l buffer len messages me s.method_ok
              (Holds-left buffer 0 first (second ++ (third ++ (h ++ tail))) text)
              (omega (arith, size))
            ∙ run_uri l buffer len messages k1 me u s.uri_ne_nil
                (AreUriBytes-ArePlain u l k1 0 s.uri_bytes (omega (arith, s.line_fits)))
                (Holds-left buffer k1 second (third ++ (h ++ tail)) t1) (omega (arith, size))
            ∙ run_version l buffer len messages k2 me u v s.version_ok (omega (arith, s.line_fits))
                (Holds-left buffer k2 third (h ++ tail) t2) (omega (arith, size))
            ∙ unfold initial_state in
              e
              ∙ e2
              ∙ ap (run_all l) (
                  delivered-fresh l q (received message) messages len
                    (length (serialize_request iterate message)) (omega (arith, size)) same_len
                    same_messages (omega arith)),
        drop_read-Holds q next (omega (arith, size))
            (subst (λ x. Holds x (q.client.pos + 1) next) (sym same)
              (subst (λ (x : ℕ). Holds buffer x next)
                (omega (arith, place, length-append crlf message.body)) t5))
            (omega (arith, size)),
      )
