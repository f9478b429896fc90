-- ===== src/Core/Server/Feeds/Commands.antt =====
-- The commands that a feed can give (`FromStr` in backend/telemetry_core/src/aggregator/inner_loop.rs).
use Prim.Native.Char.{Char, code}
use substation.Prelude.{
  true, string-differs, subst, ◌≡◌, refl, sym, ◌∙◌, ap, ◌↔◌, String, ◌∷◌, ◌++◌, Option, none, some,
  ◌≟◌, string_key, ◌==◌,
}
use substation.Prelude.Text.{Text, chars, text, cut_at}
use substation.Prelude.Text.Laws.{IsFree, Cut, cut, cut_at-Cut, Cut-cut_at, chars-text}
use substation.Common.Types.{BlockHash}
use substation.Core.InnerLoop.{FromFeedWebsocket, subscribe, ping}
use substation.Core.Server.Feeds.{from_parts, from_str, subscribe_to}

module _ (parse_hash : Text → Option BlockHash) where
  -- The texts that are commands: "ping:" and any value, which may have colons, and "subscribe:" and a
  -- hash.
  pub data Says : Text → FromFeedWebsocket → Type 0 where
    says_ping :
        (colon : Char) (value : Text)
        → (code colon == b':') ≡ true
        → Says (chars "ping" ++ colon ∷ value) (ping (text value))
    says_subscribe :
        (colon : Char) (value : Text) (chain : BlockHash)
        → (code colon == b':') ≡ true
        → parse_hash value ≡ some chain
        → Says (chars "subscribe" ++ colon ∷ value) (subscribe chain)

  parts_lem :
      (colon : Char) (key value : Text) (m : FromFeedWebsocket)
      → (code colon == b':') ≡ true
      → from_parts parse_hash (text key) value ≡ some m
      → Says (key ++ colon ∷ value) m
  unfolding from_parts
  parts_lem colon key value m is = by_name (text key ≟ "ping") (text key ≟ "subscribe")
    where
      named :
          (name : String)
          → text key ≡ name
          → Says (chars name ++ colon ∷ value) m
          → Says (key ++ colon ∷ value) m
      named name e = subst (λ k. Says (k ++ colon ∷ value) m) (sym (ap chars e) ∙ chars-text key)

      subscribed :
          (o : Option BlockHash)
          → parse_hash value ≡ o
          → subscribe_to o ≡ some m
          → Says (chars "subscribe" ++ colon ∷ value) m
      subscribed none p e = cc
      subscribed (some chain) p e =
          let same : subscribe chain ≡ m = cc in
          subst (λ k. Says (chars "subscribe" ++ colon ∷ value) k) same
            (says_subscribe colon value chain is p)

      by_name :
          (is_ping : Dec (text key ≡ "ping")) (is_subscribe : Dec (text key ≡ "subscribe"))
          → (elim is_ping [
            | yes _ ↦ some (ping (text value))
            | no _ ↦ elim is_subscribe [ yes _ ↦ subscribe_to (parse_hash value) | no _ ↦ none ]
          ])
            ≡ some m
          → Says (key ++ colon ∷ value) m
      by_name (yes p) d e =
          let same : ping (text value) ≡ m = cc in
          named "ping" p
            (subst (λ k. Says (chars "ping" ++ colon ∷ value) k) same (says_ping colon value is))
      by_name (no n) (yes p) e = named "subscribe" p (subscribed (parse_hash value) refl e)
      by_name (no n) (no k) e = cc

  parsed : (s : Text) (m : FromFeedWebsocket) → from_str parse_hash s ≡ some m → Says s m
  unfolding from_str
  parsed s m = by_cut (cut_at b':' s) refl
    where
      of_cut :
          {s key value : Text}
          → Cut b':' s key value
          → from_parts parse_hash (text key) value ≡ some m
          → Says s m
      of_cut (cut key colon value is h) e = parts_lem colon key value m is e

      by_cut :
          (o : Option (Text × Text))
          → cut_at b':' s ≡ o
          → (elim o [ none ↦ none | some (cmd, value) ↦ from_parts parse_hash (text cmd) value ])
            ≡ some m
          → Says s m
      by_cut none c e = cc
      by_cut (some (key, value)) c e = of_cut (Cut-cut_at b':' s key value c) e

  name_ping :
      (value : Text) (d : Dec (◌≡◌ {A = String} "ping" "ping")) (o : Option FromFeedWebsocket)
      → (elim d [ yes _ ↦ some (ping (text value)) | no _ ↦ o ]) ≡ some (ping (text value))
  name_ping value (yes p) o = refl
  name_ping value (no n) o = absurd (n refl)

  name_subscribe :
      (value : Text) (chain : BlockHash) (d : Dec (◌≡◌ {A = String} "subscribe" "ping"))
      (k : Dec (◌≡◌ {A = String} "subscribe" "subscribe"))
      → parse_hash value ≡ some chain
      → (elim d [
        | yes _ ↦ some (ping (text value))
        | no _ ↦ elim k [ yes _ ↦ subscribe_to (parse_hash value) | no _ ↦ none ]
      ])
        ≡ some (subscribe chain)
  name_subscribe value chain (yes p) k e = absurd (string-differs "subscribe" "ping" refl p)
  name_subscribe value chain (no n) (yes p) e = rw e refl
  name_subscribe value chain (no n) (no q) e = absurd (q refl)

  understood : (s : Text) (m : FromFeedWebsocket) → Says s m → from_str parse_hash s ≡ some m
  unfolding from_str from_parts IsFree
  understood s m (says_ping colon value is) =
      rw
        (
          cut_at-Cut b':' (cut (chars "ping") colon value is (refl, (refl, (refl, (refl, tt))))),
          from_str,
        )
        (name_ping value ("ping" ≟ "ping") _)
  understood s m (says_subscribe colon value chain is e) =
      rw
        (
          cut_at-Cut b':' (
              cut (chars "subscribe") colon value is
                (refl, (refl, (refl, (refl, (refl, (refl, (refl, (refl, (refl, tt)))))))))),
          from_str,
        )
        (name_subscribe value chain ("subscribe" ≟ "ping") ("subscribe" ≟ "subscribe") e)

  -- A text is parsed to a command exactly when it says that command: "ping:" and any value, whatever
  -- colons it has, or "subscribe:" and what the parser of hashes takes for that hash.
  pub from_str_lem :
      (s : Text) (m : FromFeedWebsocket) → (from_str parse_hash s ≡ some m) ↔ Says s m
  from_str_lem s m = (parsed s m, understood s m)
