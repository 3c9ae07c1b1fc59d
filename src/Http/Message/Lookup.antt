-- ===== src/Http/Message/Lookup.antt =====
-- The headers of an `HttpMessage` (src/networking/http/HttpMessage.cpp) after `addHeader`.
use pulse_net.Base.{
  Bool, true, false, Option, none, some, Option-cases, inl, inr, ◌≡◌, refl, [], ◌∷◌, ◌++◌,
  if◌then◌else◌, arith,
}
use pulse_net.Base.Bytes.{Bytes, equal}
use pulse_net.Http.Message.{HttpMessage, add_header, has_header}
use pulse_net.Http.Message.HeaderMap.{
  Headers, find, contains, insert_or_assign, find-insert_or_assign,
}

-- The value that a header has when `value` is added to it: a comma joins it to a value that is there.
abbrev pub joined : Option Bytes → Bytes → Bytes
joined none value = value
joined (some old) value = old ++ (b',' ∷ value)

abbrev pub is_some : Option Bytes → Bool
is_some none = false
is_some (some v) = true

contains-find : (k : Bytes) (m : Headers) → contains k m ≡ is_some (find k m)
unfolding contains find
contains-find k [] = refl
contains-find k ((j, v) ∷ m) = ground (arith, contains-find k m)

-- `addHeader` joins the value to the value of that name, adds a header where there is none, and
-- leaves every other header as it is; `hasHeader` then finds the name, and says of other names
-- whether they can be found.
pub add_header_lem :
    (m : HttpMessage) (name value other : Bytes)
    → (find other (add_header m name value).headers ≡ (
        if equal name other
        then some (joined (find name m.headers) value)
        else find other m.headers))
      × (has_header (add_header m name value) other
          ≡ (if equal name other then true else has_header m other))
unfolding add_header has_header
add_header_lem m name value other =
    let before = contains-find other m.headers in
    elim (Option-cases (find name m.headers)) [
      | inl e ↦
          let f = find-insert_or_assign name other value m.headers in
          let g = contains-find other (insert_or_assign name value m.headers) in
          let h : contains other (insert_or_assign name value m.headers)
              ≡ (if equal name other then true else contains other m.headers) =
            ground (arith, f, g, before) in
          let same : add_header m name value
              ≡ record m { headers = insert_or_assign name value m.headers } =
            rw (add_header, e) refl in
          rw (same, e) (f, h)
      | inr (old, e) ↦
          let v = old ++ (b',' ∷ value) in
          let f = find-insert_or_assign name other v m.headers in
          let g = contains-find other (insert_or_assign name v m.headers) in
          let h : contains other (insert_or_assign name v m.headers)
              ≡ (if equal name other then true else contains other m.headers) =
            ground (arith, f, g, before) in
          let same : add_header m name value
              ≡ record m { headers = insert_or_assign name v m.headers } =
            rw (add_header, e) refl in
          rw (same, e) (f, h)
    ]
