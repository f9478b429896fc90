-- ===== src/Shard/RealIp.antt =====
-- backend/telemetry_shard/src/real_ip.rs, over the parsers of addresses in the standard library: each
-- takes a text to the address that it stands for, without a port.
pub mod Laws
use Prim.Native.Char.{Char, code}
use substation.Prelude.{
  ℕ, ◌+◌, ◌-◌, ◌≡◌, refl, Bool, true, false, ◌&&◌, String, List, [], ◌∷◌, Option, none, some,
  length, take, drop, leb, ltb, ◌==◌, if◌then◌else◌,
}
use substation.Prelude.Outcome.{Outcome, ret, panic, ◌>>=◌}
use substation.Common.Types.{IpAddr}
use substation.Prelude.Text.{Text, chars, text, split_on, trim, reverse, cut_at}

pub data Source : Type 0 where
  forwarded_header x_forwarded_for_header x_real_ip_header socket_addr : Source

abbrev pub first_of : List Text → Text
first_of [] = []
first_of (piece ∷ pieces) = piece

-- `split(sep).next()`
unfoldable pub first_piece : ℕ → Text → Text
unfolding split_on
first_piece sep s = first_of (split_on sep s)

abbrev pub to_lowercase : ℕ → ℕ
to_lowercase c = if leb b'A' c && leb c b'Z' then c + 32 else c

-- `to_lowercase` gives "for". No letter outside ASCII becomes one of these three.
unfoldable pub is_for : Text → Bool
is_for (f ∷ o ∷ r ∷ []) =
    to_lowercase (code f) == b'f' && to_lowercase (code o) == b'o' && to_lowercase (code r) == b'r'
is_for _ = false

abbrev pub starts_with_quote : Text → Bool
starts_with_quote [] = false
starts_with_quote (c ∷ cs) = code c == 34

-- The slice from 1 to the length less one, which panics on a lone quote.
unfoldable pub strip_quotes : Text → Outcome Text
strip_quotes value =
    if starts_with_quote value && starts_with_quote (reverse value)
    then if ltb (length value) 2 then panic else ret (take (length value - 2) (drop 1 value))
    else ret value

unfoldable pub for_addr : List Text → Outcome (Option Text)
unfolding trim cut_at is_for strip_quotes
for_addr [] = ret none
for_addr (pair ∷ pairs) =
    let rest = for_addr pairs in
    elim (cut_at b'=' (trim pair)) [
      | none ↦ ret none
      | some (key, value) ↦
          if is_for key then (do addr ← strip_quotes value; ret (some addr)) else rest
    ]

unfoldable pub get_first_addr_from_forwarded_header : Text → Outcome (Option Text)
unfolding split_on for_addr first_piece
get_first_addr_from_forwarded_header value = for_addr (split_on b';' (first_piece b',' value))

unfoldable pub get_first_addr_from_x_forwarded_for_header : Text → Option Text
unfolding first_piece trim
get_first_addr_from_x_forwarded_for_header value = some (trim (first_piece b',' value))

abbrev pub and_then_outcome :
    {A : Type 0} → Option Text → (Text → Outcome (Option A)) → Outcome (Option A)
and_then_outcome none f = ret none
and_then_outcome (some a) f = f a

abbrev pub tagged : Option Text → Source → Option (Text × Source)
tagged none source = none
tagged (some addr) source = some (addr, source)

abbrev pub or_else : {A : Type 0} → Option A → Option A → Option A
or_else none b = b
or_else (some a) b = some a

-- The text that is taken for the address.
unfoldable pub pick : Option Text → Option Text → Option Text → Outcome (Option (Text × Source))
unfolding get_first_addr_from_forwarded_header get_first_addr_from_x_forwarded_for_header
pick forwarded forwarded_for real_ip = do
  first ← and_then_outcome forwarded get_first_addr_from_forwarded_header
  let second : Option Text = elim forwarded_for [
    | none ↦ none
    | some value ↦ get_first_addr_from_x_forwarded_for_header value
  ]
  let third : Option Text = elim real_ip [ none ↦ none | some value ↦ some (trim value) ]
  ret (
      or_else (tagged first forwarded_header)
        (or_else (tagged second x_forwarded_for_header) (tagged third x_real_ip_header)))

module _ (parse_socket_addr parse_ip_addr : Text → Option IpAddr) where
  unfoldable pub parse : IpAddr → Option (Text × Source) → IpAddr × Source
  parse addr none = (addr, socket_addr)
  parse addr (some (ip, source)) = elim (or_else (parse_socket_addr ip) (parse_ip_addr ip)) [
    | none ↦ (addr, socket_addr)
    | some found ↦ (found, source)
  ]

  -- The headers as `header_as_str` has them, and the address of the socket.
  unfoldable pub pick_best_ip_from_options :
      Option Text → Option Text → Option Text → IpAddr → Outcome (IpAddr × Source)
  unfolding pick parse
  pick_best_ip_from_options forwarded forwarded_for real_ip addr = do
    picked ← pick forwarded forwarded_for real_ip
    ret (parse addr picked)

-- The examples of the tests.
abbrev first_addr : String → Outcome (Option String)
first_addr s = do
  found ← get_first_addr_from_forwarded_header (chars s)
  ret (elim found [ none ↦ none | some addr ↦ some (text addr) ])

gazonk : first_addr "for=\"_gazonk\"" ≡ ret (some "_gazonk")
unfolding get_first_addr_from_forwarded_header
gazonk = refl

several : first_addr "for=192.0.2.43, for=198.51.100.17" ≡ ret (some "192.0.2.43")
unfolding get_first_addr_from_forwarded_header
several = refl

later : first_addr " proto=http ; FOR=192.0.2.60;by=203.0.113.43" ≡ ret (some "192.0.2.60")
unfolding get_first_addr_from_forwarded_header
later = refl

lone_quote : first_addr "for=\"" ≡ panic
unfolding get_first_addr_from_forwarded_header
lone_quote = refl
