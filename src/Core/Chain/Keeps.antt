-- ===== src/Core/Chain/Keeps.antt =====
-- A node's message (backend/telemetry_core/src/state/chain.rs, `update_node`) keeps the chain's hash,
-- limit and nodes' places, whatever it does to their contents.
use substation.Prelude.{
  ◌≡◌, refl, sym, ◌∙◌, ap, subst, ℕ, zero, suc, ◌-◌, ◌&&◌, Option, none, some, List, [], ◌∷◌,
  length, get_elem?, arith, ltb, ◌==◌, ite, Bool-cases, Option-cases, inl, inr, length-set, either,
}
use substation.Common.DenseMap.{DenseMap}
use substation.Common.DenseMap
use substation.Common.DenseMap.Laws as DenseLaws
use substation.Common.DenseMap.Laws.{put-IsValid, get-slot}
use substation.Core.ChainStats.Tallies.{Tallies}
use substation.Core.Chain.Roster.{traits, roster, roster-set}
use substation.Common.Types.{zero_block, Block}
use substation.Core.ChainStats.{ChainStats-discrete, generate}
use substation.Core.FeedMessage.{FeedMessageSerializer}
use substation.Core.Node.{Node, Clock}
use substation.Core.Node
use substation.Core.Chain.{Chain, node_count}
use substation.Core.Chain.Blocks.{push_block_time, note_block, handle_node_block, handle_block}
use substation.Core.Chain.Stale
use substation.Core.Chain.Stale.{
  StaleScan, scan_node, scan_nodes, reset_best, stale_threshold, update_stale_nodes,
  regenerate_stats_if_necessary,
}
use substation.Core.Chain.Laws.{IsValid, Keeps}

pub same-Keeps :
    (c d : Chain)
    → IsValid c
    → d.nodes ≡ c.nodes
    → d.stats_collator ≡ c.stats_collator
    → d.genesis_hash ≡ c.genesis_hash
    → d.max_nodes ≡ c.max_nodes
    → Keeps c d
unfolding node_count
same-Keeps c d v e t h m = record {
  valid = record {
    nodes_valid = subst (λ n. DenseLaws.IsValid n) (sym e) v.nodes_valid;
    within = ground (arith, v.within);
    limit = ground (arith, v.limit);
    tallied =
        subst (λ s. Tallies s (roster d.nodes.items)) (sym t)
          (subst (λ n. Tallies c.stats_collator (roster n.items)) (sym e) v.tallied);
  };
  same_hash = h;
  same_max = m;
}

-- A node written back, with statistics that count it.
pub put-Keeps_with :
    (c d : Chain) (nid : ℕ) (node old : Node)
    → IsValid c
    → DenseMap.get c.nodes nid ≡ some old
    → d.nodes ≡ DenseMap.put c.nodes nid node
    → Tallies d.stats_collator (roster (DenseMap.put c.nodes nid node).items)
    → d.genesis_hash ≡ c.genesis_hash
    → d.max_nodes ≡ c.max_nodes
    → Keeps c d
unfolding node_count DenseMap.len DenseMap.put
put-Keeps_with c d nid node old v at e t h m = record {
  valid = record {
    nodes_valid =
        subst (λ n. DenseLaws.IsValid n) (sym e)
          (put-IsValid c.nodes nid node old at v.nodes_valid);
    within = ground (
      arith,
      v.within,
      length-set c.nodes.items nid (some node),
      ap (λ n. length n.items) e,
      ap (λ n. length n.retired) e,
    );
    limit = ground (arith, v.limit);
    tallied = subst (λ n. Tallies d.stats_collator (roster n.items)) (sym e) t;
  };
  same_hash = h;
  same_max = m;
}

-- A node written back whose traits are the same.
pub put-Keeps :
    (c d : Chain) (nid : ℕ) (node old : Node)
    → IsValid c
    → DenseMap.get c.nodes nid ≡ some old
    → traits node ≡ traits old
    → d.nodes ≡ DenseMap.put c.nodes nid node
    → d.stats_collator ≡ c.stats_collator
    → d.genesis_hash ≡ c.genesis_hash
    → d.max_nodes ≡ c.max_nodes
    → Keeps c d
unfolding DenseMap.put
put-Keeps c d nid node old v at alike e t h m =
    let seen = roster-set c.nodes.items nid node old (get-slot c.nodes nid old at) alike in
    put-Keeps_with c d nid node old v at e
      (subst (λ s. Tallies s (roster (DenseMap.put c.nodes nid node).items)) (sym t)
        (subst (λ r. Tallies c.stats_collator r) (sym seen) v.tallied))
      h m

pub trans-Keeps : (c d e : Chain) → Keeps c d → Keeps d e → Keeps c e
trans-Keeps c d e k l = record {
  valid = l.valid;
  same_hash = l.same_hash ∙ k.same_hash;
  same_max = l.same_max ∙ k.same_max;
}

-- What the chain of a result keeps.
abbrev pub KeepsIn : Chain → Chain × FeedMessageSerializer → Type 0
KeepsIn c r = Keeps c r.0

decided :
    {A : Type 0} (P : A → Type 0) {Q : Type 0} (d : Dec Q) {x y : A} → P x → P y → P (ite d x y)
decided P (yes p) k l = k
decided P (no n) k l = l

-- The scan for stale nodes leaves each slot empty or occupied, as it was.
scan_nodes-slots :
    (threshold nid : ℕ) (s : StaleScan) (items : List (Option Node)) (i : ℕ)
    → let r = (scan_nodes threshold nid s items).0 in
      (length r ≡ length items)
      × (DenseLaws.occupied r ≡ DenseLaws.occupied items)
      × (DenseLaws.free (get_elem? r i) ≡ DenseLaws.free (get_elem? items i))
unfolding scan_nodes
scan_nodes-slots threshold nid s [] i = (refl, refl, refl)
scan_nodes-slots threshold nid s (none ∷ items) zero =
    let (a, b, _) = scan_nodes-slots threshold (suc nid) s items zero in (ap suc a, b, refl)
scan_nodes-slots threshold nid s (none ∷ items) (suc i) =
    let (a, b, c) = scan_nodes-slots threshold (suc nid) s items i in (ap suc a, b, c)
scan_nodes-slots threshold nid s (some node ∷ items) zero =
    let (node', stale) = Node.update_stale node threshold in
    let (a, b, _) = scan_nodes-slots threshold (suc nid) (scan_node nid s node' stale) items zero in
    (ap suc a, ap suc b, refl)
scan_nodes-slots threshold nid s (some node ∷ items) (suc i) =
    let (node', stale) = Node.update_stale node threshold in
    let (a, b, c) = scan_nodes-slots threshold (suc nid) (scan_node nid s node' stale) items i in
    (ap suc a, ap suc b, c)

scan_nodes-roster :
    (threshold nid : ℕ) (s : StaleScan) (items : List (Option Node))
    → roster (scan_nodes threshold nid s items).0 ≡ roster items
unfolding scan_nodes Node.update_stale
scan_nodes-roster threshold nid s [] = refl
scan_nodes-roster threshold nid s (none ∷ items) =
    ap (λ r. none ∷ r) (scan_nodes-roster threshold (suc nid) s items)
scan_nodes-roster threshold nid s (some node ∷ items) =
    let (node', stale) = Node.update_stale node threshold in
    ap (λ r. some (traits node) ∷ r)
      (scan_nodes-roster threshold (suc nid) (scan_node nid s node' stale) items)

reset_best-Keeps :
    (c : Chain) (now : ℕ) (s : StaleScan) → IsValid c → Keeps c (reset_best c now s).0
unfolding reset_best
reset_best-Keeps c now s v = elim (Bool-cases (c.best.height == 0 && c.finalized.height == 0)) [
  | inl e ↦ rw (e, reset_best) (same-Keeps c c v refl refl refl refl)
  | inr e ↦ rw (e, reset_best) (same-Keeps c _ v refl refl refl refl)
]

scanned-Keeps :
    (c : Chain) (threshold : ℕ) (s : StaleScan)
    → IsValid c
    → Keeps c (record c {
      nodes = record (c.nodes) { items = (scan_nodes threshold 0 s c.nodes.items).0 };
    })
unfolding node_count DenseMap.len
scanned-Keeps c threshold s v =
    let (a, b, _) = scan_nodes-slots threshold 0 s c.nodes.items 0 in
    record {
      valid = record {
        nodes_valid = record {
          vacancy = λ i.
              let (_, _, f) = scan_nodes-slots threshold 0 s c.nodes.items i in
              v.nodes_valid.vacancy i ∙ sym f;
          counted = omega (arith, a, b, v.nodes_valid.counted);
        };
        within = omega (arith, a, v.within);
        limit = v.limit;
        tallied =
            subst (λ r. Tallies c.stats_collator r)
              (sym (scan_nodes-roster threshold 0 s c.nodes.items)) v.tallied;
      };
      same_hash = refl;
      same_max = refl;
    }

-- The check for stale nodes, by what the chain's timestamp is.
stale_at-Keeps :
    (c : Chain) (now : ℕ) (feed : FeedMessageSerializer) (o : Option ℕ)
    → let d = record c { timestamp = o } in IsValid d → Keeps d (update_stale_nodes d now feed).0
unfolding update_stale_nodes
stale_at-Keeps c now feed none v = same-Keeps _ _ v refl refl refl refl
stale_at-Keeps c now feed (some t) v =
    let d : Chain = record c { timestamp = some t } in
    let threshold = stale_threshold now in
    let start : StaleScan = record {
      best = zero_block;
      finalized = zero_block;
      timestamp = none;
      feed = feed;
    } in
    let r = scan_nodes threshold 0 start c.nodes.items in
    let e : Chain = record d { nodes = record (c.nodes) { items = r.0 } } in
    let k = scanned-Keeps d threshold start v in
    either (KeepsIn d) (ltb threshold t) (same-Keeps d d v refl refl refl refl)
      (trans-Keeps d e (reset_best e now r.1).0 k (reset_best-Keeps e now r.1 k.valid))

regenerate-Keeps :
    (c : Chain) (clock : Clock) (feed : FeedMessageSerializer)
    → IsValid c
    → Keeps c (regenerate_stats_if_necessary c clock feed).0
unfolding regenerate_stats_if_necessary
regenerate-Keeps c clock feed v =
    let stats = generate c.stats_collator in
    either (KeepsIn c)
      (ltb (clock.instant_now - c.stats_last_regenerated) Stale.stats_update_interval)
      (same-Keeps c c v refl refl refl refl)
      (decided (KeepsIn c) (ChainStats-discrete stats c.stats)
        (same-Keeps c _ v refl refl refl refl) (same-Keeps c _ v refl refl refl refl))

note_block-fields :
    (c : Chain) (block : Block) (now : ℕ) (feed : FeedMessageSerializer)
    → let d = (note_block c block now feed).0 in
      (d.nodes ≡ c.nodes)
      × (d.stats_collator ≡ c.stats_collator)
      × (d.genesis_hash ≡ c.genesis_hash)
      × (d.max_nodes ≡ c.max_nodes)
unfolding note_block push_block_time
note_block-fields c block now feed = elim (Option-cases c.timestamp) [
  | inl e ↦ (ground (arith, e), ground (arith, e), ground (arith, e), ground (arith, e))
  | inr (t, e) ↦ (ground (arith, e), ground (arith, e), ground (arith, e), ground (arith, e))
]

block-traits :
    (node : Node) (block : Block) (now : ℕ) (since : Option ℕ)
    → traits (Node.update_details (Node.update_block node block).0 now since).0 ≡ traits node
unfolding Node.update_details Node.update_block
block-traits node block now since = ground arith

handle_node_block-Keeps :
    (c : Chain) (node : Node) (block : Block) (nid now : ℕ) (feed : FeedMessageSerializer)
    → IsValid c
    → DenseMap.get c.nodes nid ≡ some node
    → Keeps c (handle_node_block c node block nid now feed).0
unfolding handle_node_block
handle_node_block-Keeps c node block nid now feed v at =
    let (n, t, h, m) = note_block-fields c block now feed in
    let (node', news) = Node.update_block node block in
    let (_, _, since) = note_block c block now feed in
    let (d, feed', _) = note_block c block now feed in
    let node'' = (Node.update_details node' now since).0 in
    let after : Chain = record d { nodes = DenseMap.put d.nodes nid node'' } in
    either (KeepsIn c) news
      (put-Keeps c after nid node'' node v at (block-traits node block now since)
        (ap (λ x. DenseMap.put x nid node'') n) t h m)
      (same-Keeps c c v refl refl refl refl)

pub handle_block-Keeps :
    (c : Chain) (block : Block) (nid : ℕ) (clock : Clock) (feed : FeedMessageSerializer)
    → IsValid c
    → Keeps c (handle_block c block nid clock feed).0
unfolding handle_block
handle_block-Keeps c block nid clock feed v =
    let (c1, feed1) = update_stale_nodes c clock.block_now feed in
    let (c2, feed2) = regenerate_stats_if_necessary c1 clock feed1 in
    let k1 : Keeps c c1 = stale_at-Keeps c clock.block_now feed c.timestamp v in
    let k2 : Keeps c1 c2 = regenerate-Keeps c1 clock feed1 k1.valid in
    let k = trans-Keeps c c1 c2 k1 k2 in
    elim (Option-cases (DenseMap.get c2.nodes nid)) [
      | inl e ↦ rw (e, handle_block) k
      | inr (node, e) ↦
          rw (e, handle_block)
            (trans-Keeps c c2 _ k
              (handle_node_block-Keeps c2 node block nid clock.block_now feed2 k2.valid e))
    ]
