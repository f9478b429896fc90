-- ===== src/Core/InnerLoop/Feeds/Chunks.antt =====
-- The chunks in which the nodes of a chain are sent to a feed that subscribes
-- (backend/telemetry_core/src/aggregator/inner_loop.rs).
use substation.Prelude.{
  ℕ, zero, suc, ◌+◌, ◌≤◌, ◌≡◌, refl, ap, sym, subst, ◌∙◌, ◌⊎◌, inl, inr, List, [], ◌∷◌, ◌++◌,
  Option, none, some, length, take, drop, arith, Bool-cases, append_assoc, append-nil, nat_key,
}
use substation.Core.FeedMessage.{FeedMessage, FeedMessageSerializer, ◌▹◌, into_finalized}
use substation.Core.FeedMessage
use substation.Core.Node.{Node}
use substation.Core.State.{node_id_key}
use substation.Core.InnerLoop.{shard_id_key}
use substation.Core.InnerLoop.Feeds.{push_node, push_nodes, keep_some, chunk_messages}

abbrev pub concat : List (List FeedMessage) → List FeedMessage
concat [] = []
concat (m ∷ ms) = m ++ concat ms

-- All nodes of some slots, pushed at once.
push_nodes-append :
    (feed : FeedMessageSerializer) (id : ℕ) (xs ys : List (Option Node))
    → push_nodes feed id (xs ++ ys) ≡ push_nodes (push_nodes feed id xs) (id + length xs) ys
unfolding push_nodes
push_nodes-append feed id [] ys = ap (λ n. push_nodes feed n ys) (omega arith)
push_nodes-append feed id (none ∷ xs) ys =
    push_nodes-append feed (suc id) xs ys
    ∙ ap (λ n. push_nodes (push_nodes feed (suc id) xs) n ys) (omega arith)
push_nodes-append feed id (some node ∷ xs) ys =
    push_nodes-append (push_node feed id node) (suc id) xs ys
    ∙ ap (λ n. push_nodes (push_nodes (push_node feed id node) (suc id) xs) n ys) (omega arith)

-- A node's messages come after those that are there.
push_node-new :
    (before : List FeedMessage) (feed : FeedMessageSerializer) (id : ℕ) (node : Node)
    → (push_node (record { messages = before ++ feed.messages }) id node).messages
      ≡ before ++ (push_node feed id node).messages
unfolding push_node ◌▹◌
push_node-new before feed id node = elim (Bool-cases node.stale) [
  | inl e ↦ rw e (simp append_assoc refl)
  | inr e ↦ rw e (simp append_assoc refl)
]

push_nodes-new :
    (before : List FeedMessage) (feed : FeedMessageSerializer) (id : ℕ) (nodes : List (Option Node))
    → (push_nodes (record { messages = before ++ feed.messages }) id nodes).messages
      ≡ before ++ (push_nodes feed id nodes).messages
unfolding push_nodes
push_nodes-new before feed id [] = refl
push_nodes-new before feed id (none ∷ nodes) = push_nodes-new before feed (suc id) nodes
push_nodes-new before feed id (some node ∷ nodes) =
    ap (λ l. (push_nodes (record { messages = l }) (suc id) nodes).messages)
      (push_node-new before feed id node)
    ∙ push_nodes-new before (push_node feed id node) (suc id) nodes

concat-keep_some :
    (feed : FeedMessageSerializer) (rest : List (List FeedMessage))
    → concat (keep_some (into_finalized feed) rest) ≡ feed.messages ++ concat rest
unfolding into_finalized
concat-keep_some feed rest = keep_lem feed.messages rest
  where
    keep_lem :
        (ms : List FeedMessage) (rest : List (List FeedMessage))
        → concat (keep_some (into_finalized (record { messages = ms })) rest) ≡ ms ++ concat rest
    keep_lem [] rest = refl
    keep_lem (m ∷ ms) rest = refl

take-drop : {A : Type 0} (n : ℕ) (xs : List A) → take n xs ++ drop n xs ≡ xs
take-drop zero xs = refl
take-drop (suc n) [] = refl
take-drop (suc n) (x ∷ xs) = ap (λ l. x ∷ l) (take-drop n xs)

full_or_last : {A : Type 0} (n : ℕ) (xs : List A) → (drop n xs ≡ []) ⊎ (length (take n xs) ≡ n)
full_or_last zero xs = inr refl
full_or_last (suc n) [] = inl refl
full_or_last (suc n) (x ∷ xs) = elim (full_or_last n xs) [ inl e ↦ inl e | inr e ↦ inr (ap suc e) ]

length-drop-le : {A : Type 0} (n : ℕ) (xs : List A) → length (drop n xs) ≤ length xs
length-drop-le zero xs = omega arith
length-drop-le (suc n) [] = omega arith
length-drop-le (suc n) (x ∷ xs) = omega (arith, length-drop-le n xs)

no_nodes :
    (feed : FeedMessageSerializer) (m n : ℕ) (nodes : List (Option Node))
    → nodes ≡ []
    → push_nodes feed m nodes ≡ push_nodes feed n nodes
unfolding push_nodes
no_nodes feed m n nodes e = subst (λ l. push_nodes feed m l ≡ push_nodes feed n l) (sym e) refl

-- The chunks in which the nodes of a chain are sent have, one after the other, the very messages
-- that one message for all slots would have, where the fuel is at least the number of slots.
pub chunk_messages_lem :
    (fuel id : ℕ) (nodes : List (Option Node))
    → length nodes ≤ fuel
    → concat (chunk_messages fuel id nodes) ≡ (push_nodes FeedMessage.new id nodes).messages
unfolding chunk_messages push_nodes FeedMessage.new
chunk_messages_lem zero id [] h = refl
chunk_messages_lem zero id (slot ∷ nodes) h = absurd (omega arith)
chunk_messages_lem (suc fuel) id [] h = refl
chunk_messages_lem (suc fuel) id (slot ∷ nodes) h =
    let all : List (Option Node) = slot ∷ nodes in
    let chunk = take 64 all in
    let rest = drop 64 all in
    let first = push_nodes FeedMessage.new id chunk in
    let start : ℕ → List FeedMessage =
      λ n. first.messages ++ (push_nodes FeedMessage.new n rest).messages in
    let shift : start (id + 64) ≡ start (id + length chunk) = elim (full_or_last 64 all) [
      | inl e ↦
          ap (λ f. first.messages ++ f.messages)
            (no_nodes FeedMessage.new (id + 64) (id + length chunk) rest e)
      | inr e ↦ ap (λ n. start (id + n)) (sym e)
    ] in
    concat-keep_some first (chunk_messages fuel (id + 64) rest)
    ∙ ap (λ l. first.messages ++ l)
        (chunk_messages_lem fuel (id + 64) rest (omega (arith, length-drop-le 63 nodes)))
    ∙ shift
    ∙ sym (push_nodes-new first.messages FeedMessage.new (id + length chunk) rest)
    ∙ ap (λ l. (push_nodes (record { messages = l }) (id + length chunk) rest).messages)
        (append-nil first.messages)
    ∙ ap (λ f. f.messages) (sym (push_nodes-append FeedMessage.new id chunk rest))
    ∙ ap (λ l. (push_nodes FeedMessage.new id l).messages) (take-drop 64 all)
