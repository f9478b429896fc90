-- ===== src/Shard/Json/Message/Laws.antt =====
-- What of a node's message arrives (backend/telemetry_shard/src/json_message/node_message.rs).
use substation.Prelude.{
  ◌+◌, ◌<◌, ◌^◌, ◌≡◌, refl, ap, ◌∙◌, true, false, String, List, [], ◌∷◌, ◌++◌, none, some, length,
}
use substation.Prelude.Text.{Text, chars, text}
use substation.Shard.Json.OldVersion.{dash, is_version_or_hash, split_old_style_version}
use substation.Shard.Json.OldVersion.Laws.{ArePieces, joined, split_old_style_version_lem}
use substation.Shard.Json.Message.{NodeDetails, migrate, into_details}

text-chars : (s : String) → text (chars s) ≡ s
text-chars String.[] = refl
text-chars (String.◌∷◌ c s) = ap (String.◌∷◌ c) (text-chars s)

chars-text : (cs : Text) → chars (text cs) ≡ cs
chars-text [] = refl
chars-text (c ∷ cs) = ap (λ s. c ∷ s) (chars-text cs)

-- The details of a node whose version is old: with the target behind the version.
abbrev pub old_details : NodeDetails → Text → NodeDetails
old_details d version = record d {
  version = text version;
  target_os = none;
  target_arch = none;
  target_env = none;
}

-- The details of a node that reports its target apart.
abbrev pub new_details : NodeDetails → Text → Text → Text → Text → NodeDetails
new_details d version arch os env = record d {
  version = text version;
  target_os = some (text os);
  target_arch = some (text arch);
  target_env = some (text env);
}

-- A node whose version is old, a number or a hash at its end and then an architecture, a system and an
-- environment, is taken for one that reports that version and that target apart; one with the
-- target apart is taken as it is.
pub into_details_lem :
    (d : NodeDetails) (ps : List Text) (last arch os env : Text)
    → ArePieces (last ∷ arch ∷ os ∷ env ∷ ps)
    → is_version_or_hash last ≡ true
    → is_version_or_hash arch ≡ false
    → length (joined ps last) + 1 < 2 ^ 64
    → let whole = joined ps last ++ dash ∷ (arch ++ dash ∷ (os ++ dash ∷ env)) in
      let apart = new_details d (joined ps last) arch os env in
      (into_details (old_details d whole) ≡ into_details apart)
      × ((into_details apart).version ≡ text (joined ps last))
      × ((into_details apart).target_arch ≡ some (text arch))
      × ((into_details apart).target_os ≡ some (text os))
      × ((into_details apart).target_env ≡ some (text env))
unfolding into_details migrate
into_details_lem d ps last arch os env pieces v w fits =
    let whole = joined ps last ++ dash ∷ (arch ++ dash ∷ (os ++ dash ∷ env)) in
    let (_, cut) = split_old_style_version_lem ps last arch os env pieces v w fits in
    let read = ap split_old_style_version (chars-text whole) ∙ cut in
    (rw read refl, refl, refl, refl, refl)
