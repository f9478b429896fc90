-- ===== src/Tests/Json.antt =====
-- The theorems on what nodes send as JSON, at concrete inputs.
use substation.Prelude.{◌≡◌, refl, List, [], ◌∷◌, ◌++◌, none, some, map, replicate, arith}
use substation.Shard.Json.Hash.{
  Hash, ok, fmt, visit_str, visit_bytes, visit_seq, into_block_hash, from_block_hash,
}
use substation.Shard.Json.Hash.Laws
use substation.Shard.Json.Message.{NodeDetails, into_details}
use substation.Shard.Json.Message.Laws as MessageLaws
use substation.Prelude.Text.{Text, chars, text}
use substation.Shard.Json.OldVersion.{dash, split_old_style_version, is_version_or_hash}
use substation.Shard.Json.OldVersion.Laws as OldLaws
use substation.Tests.Hexadecimal.{hexadecimal}

abbrev hash : Hash
hash = 0xde ∷ 0xad ∷ 0xbe ∷ 0xef ∷ replicate 28 0

hash_example :
    (visit_str hexadecimal (fmt hexadecimal hash) ≡ ok hash)
    × (visit_bytes hexadecimal hash ≡ ok hash)
    × (visit_seq (map some hash) ≡ ok hash)
    × (into_block_hash (from_block_hash 0xdeadbeef) ≡ 0xdeadbeef)
hash_example = Laws.hash_lem hexadecimal hash 0xdeadbeef refl (omega arith) (omega arith)

-- 0.9.17-75dd6c7d0-x86_64-linux-gnu
abbrev before : List Text
before = chars "0.9.17" ∷ []

abbrev commit : Text
commit = chars "75dd6c7d0"

abbrev whole : Text
whole =
    OldLaws.joined before commit
    ++ dash ∷ (chars "x86_64" ++ dash ∷ (chars "linux" ++ dash ∷ chars "gnu"))

pieces : OldLaws.ArePieces (commit ∷ chars "x86_64" ∷ chars "linux" ∷ chars "gnu" ∷ before)
unfolding OldLaws.ArePieces substation.Prelude.Text.Laws.IsFree
pieces = ground arith

split_example :
    (split_old_style_version
        (OldLaws.joined before commit ++ dash ∷ (chars "x86_64" ++ dash ∷ chars "linux"))
      ≡ some (chars "0.9.17-75dd6c7d0", chars "x86_64", chars "linux", []))
    × (split_old_style_version whole
        ≡ some (chars "0.9.17-75dd6c7d0", chars "x86_64", chars "linux", chars "gnu"))
unfolding OldLaws.dashed is_version_or_hash
split_example =
    OldLaws.split_old_style_version_lem before commit (chars "x86_64") (chars "linux") (chars "gnu")
      pieces refl refl (omega arith)

abbrev details : NodeDetails
details = record {
  chain = "Local";
  name = "alice";
  implementation = "substrate";
  version = "";
  validator = none;
  network_id = "12D3";
  startup_time = none;
  target_os = none;
  target_arch = none;
  target_env = none;
  sysinfo = none;
}

into_details_example :
    let apart =
      MessageLaws.new_details details
        (chars "0.9.17-75dd6c7d0")
        (chars "x86_64")
        (chars "linux")
        (chars "gnu") in
    (into_details (MessageLaws.old_details details whole) ≡ into_details apart)
    × ((into_details apart).version ≡ "0.9.17-75dd6c7d0")
    × ((into_details apart).target_arch ≡ some "x86_64")
    × ((into_details apart).target_os ≡ some "linux")
    × ((into_details apart).target_env ≡ some "gnu")
unfolding OldLaws.dashed is_version_or_hash
into_details_example =
    MessageLaws.into_details_lem details before commit (chars "x86_64") (chars "linux")
      (chars "gnu") pieces refl refl (omega arith)
