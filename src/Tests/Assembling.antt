-- ===== src/Tests/Assembling.antt =====
-- `HttpAssembler::feed` on whole and partial requests, and on malformed ones.
use Prim.Native.String.{String}
use pulse_net.Base.{refl, List, [], length, map, arith}
use pulse_net.Base.Bytes.{Bytes, codes}
use pulse_net.Http.Message.{HttpMessage}
use pulse_net.Http.Assembler.State.{initial_state}
use pulse_net.Http.Assembler.Feed.{Fed, feed_client, run_all}
use pulse_net.Http.Assembler.Progress.{Ended, run_all-Ended}
use pulse_net.Http.Assembler.Invariant.Loop.{
  FitsFed, feed_client-FitsFed, initial_state-IsWellFormed,
}
use pulse_net.Tests.Pipelining.{same_order, defaults}

abbrev fed_once : String → Fed
fed_once text =
    feed_client same_order defaults initial_state (codes text) (length (codes text)) 8096

abbrev bodies : Fed → List Bytes
bodies f = map (λ (m : HttpMessage). m.body) f.result.messages

abbrev malformed : Bytes
malformed = codes "??? /uri"

run_all-Ended_example : Ended (
    run_all defaults
      (record { client = initial_state; buffer = malformed; buffer_len = 8; messages = [] }))
run_all-Ended_example =
    run_all-Ended defaults
      (record { client = initial_state; buffer = malformed; buffer_len = 8; messages = [] })

feed_client-FitsFed_example :
    FitsFed 8 (feed_client same_order defaults initial_state malformed 8 8)
feed_client-FitsFed_example =
    feed_client-FitsFed same_order 8 defaults initial_state malformed 8 (omega arith)
      (initial_state-IsWellFormed 8) (unfold initial_state in omega arith) (omega arith) refl
