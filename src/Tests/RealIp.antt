-- ===== src/Tests/RealIp.antt =====
-- The theorem on the address of a client, at a concrete header.
use substation.Prelude.{◌≡◌, refl, [], ◌∷◌, some, arith}
use substation.Prelude.Outcome.{ret}
use substation.Prelude.Text.{cut_at, Text, chars}
use substation.Shard.RealIp.{get_first_addr_from_forwarded_header, is_for}
use substation.Shard.RealIp.Laws.{no_more, other, Reads, listed, at_comma, quoted, forwarded_lem}
use substation.Prelude.Text.Laws.{IsFree}

abbrev proto : Text
proto = chars "proto=http"

abbrev client : Text
client = chars "For=\"192.0.2.60\""

proto-Reads : Reads proto (chars "proto") (chars "http")
unfolding IsFree cut_at substation.Prelude.Text.trim
proto-Reads = record { no_comma = ground arith; no_semicolon = ground arith; cut = refl }

client-Reads : Reads client (chars "For") (chars "\"192.0.2.60\"")
unfolding IsFree cut_at substation.Prelude.Text.trim
client-Reads = record { no_comma = ground arith; no_semicolon = ground arith; cut = refl }

forwarded_example :
    get_first_addr_from_forwarded_header (chars "proto=http;For=\"192.0.2.60\",for=198.51.100.17")
    ≡ ret (some (chars "192.0.2.60"))
unfolding listed is_for
forwarded_example =
    forwarded_lem (proto ∷ []) client (chars "For") (chars "\"192.0.2.60\"")
      (chars ",for=198.51.100.17") (ret (chars "192.0.2.60"))
      (other proto (chars "proto") (chars "http") proto-Reads refl no_more) client-Reads refl
      (at_comma (chars "for=198.51.100.17")) (quoted (chars "192.0.2.60"))
