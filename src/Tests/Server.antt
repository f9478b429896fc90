-- ===== src/Tests/Server.antt =====
-- The core's server at concrete inputs.
use substation.Prelude.{◌≡◌, refl, ◌↔◌, ℕ, string_discrete, true, List, [], ◌∷◌, Option, none, some}
use substation.Prelude.Text.{Text, chars, cut_at}
use substation.Common.Types.{BlockHash}
use substation.Core.InnerLoop.{FromFeedWebsocket, ping, subscribe, initialize, disconnected}
use substation.Core.Server.{
  Connection, Event, received, from_aggregator, next, receive_failed, answered, rested, send_closed,
  joined, run, start,
}
use substation.Core.Server.Feeds.{from_str, handler}
use substation.Core.Server.Feeds.Commands.{Says, from_str_lem}
use substation.Core.Server.Course.{Course, commands}
use substation.Core.Server.Session.{run-Course}

-- A parser that knows one hash.
abbrev parse_hash : Text → Option BlockHash
parse_hash [] = none
parse_hash (c ∷ cs) = some 7

ping_command : from_str parse_hash (chars "ping:a:b") ≡ some (ping "a:b")
unfolding from_str string_discrete cut_at
ping_command = refl

unknown_command : from_str parse_hash (chars "pong:a") ≡ none
unfolding from_str string_discrete cut_at
unknown_command = refl

from_str_example :
    (from_str parse_hash (chars "subscribe:0x07") ≡ some (subscribe 7))
    ↔ Says parse_hash (chars "subscribe:0x07") (subscribe 7)
from_str_example = from_str_lem parse_hash (chars "subscribe:0x07") (subscribe 7)

-- A feed that says something else, subscribes and goes away, and gets a message that the socket takes.
abbrev visit : List (Event Text ℕ)
visit =
    received (chars "hello")
    ∷ received (chars "subscribe:0x07")
    ∷ from_aggregator 5
    ∷ next
    ∷ answered true
    ∷ answered true
    ∷ rested
    ∷ receive_failed
    ∷ send_closed
    ∷ joined
    ∷ []

abbrev after_visit : Connection FromFeedWebsocket ℕ ℕ
after_visit = run (handler some parse_hash) (start (handler some parse_hash) 3 true) visit

visit_told : after_visit.told ≡ initialize 3 ∷ subscribe 7 ∷ disconnected ∷ []
unfolding run start handler string_discrete cut_at
visit_told = refl

visit_written : after_visit.written ≡ 5 ∷ []
unfolding run start handler string_discrete cut_at
visit_written = refl

run-Course_example :
    Course (handler some parse_hash) 3 (commands (handler some parse_hash) visit) after_visit
run-Course_example = run-Course (handler some parse_hash) 3 visit

-- A feed that is being sent a message.
abbrev sent_to : Connection FromFeedWebsocket ℕ ℕ
sent_to =
    run (handler some parse_hash) (start (handler some parse_hash) 3 true)
      (from_aggregator 5 ∷ next ∷ [])
