-- ===== src/Tests/Text.antt =====
-- `containsToken` on a list of transfer codings, and `parseNumber`.
use pulse_net.Base.{some, ◌≡◌, true, refl, arith}
use pulse_net.Base.Bytes.{codes, Lacks}
use pulse_net.Base.Int.{pos}
use pulse_net.Utils.Chars.{to_string}
use pulse_net.Http.Assembler.HeaderLines.{parse_number}
use pulse_net.Http.Assembler.Numbers.{parse_number-to_string}
use pulse_net.Utils.Token.{
  span, skip_while, quoted_span, trim_end, token_at, element_is, contains_from, contains_token,
}
use pulse_net.Utils.Token.Splitting.{has, split, contains_token-has}

contains_token_last : contains_token (codes "gzip, \"a,b\" , chunked") (codes "chunked") ≡ true
unfolding span skip_while quoted_span trim_end token_at element_is contains_from contains_token
contains_token_last = refl

list_of_codings-Lacks : Lacks b'"' (codes "gzip , chunked")
list_of_codings-Lacks = ground arith

contains_token-has_example :
    contains_token (codes "gzip , chunked") (codes "chunked")
    ≡ has (codes "chunked") (split (codes "gzip , chunked"))
contains_token-has_example =
    contains_token-has (codes "gzip , chunked") (codes "chunked") list_of_codings-Lacks
      (omega arith)

parse_number-to_string_example : parse_number (to_string 8096) ≡ some (pos 8096)
parse_number-to_string_example = parse_number-to_string 8096 (omega arith)
