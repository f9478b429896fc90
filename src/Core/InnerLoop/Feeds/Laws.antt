-- ===== src/Core/InnerLoop/Feeds/Laws.antt =====
-- What the feeds' messages (backend/telemetry_core/src/aggregator/inner_loop.rs) do to the
-- subscriptions.
use substation.Prelude.{
  ℕ, ◌≡◌, refl, ap, ◌∙◌, inl, inr, true, false, List, [], ◌∷◌, Option, none, some, length, arith,
  Option-cases, ite, ◌≟◌, nat_key,
}
use substation.Prelude.HashMap
use substation.Common.BiMap.{BiMap}
use substation.Common.MultiMapUnique
use substation.Common.MultiMapUnique.Laws as SubLaws
use substation.Common.MultiMapUnique.Laws.{
  holds, values-remove_value, insert_lem, remove_value-IsValid, insert-IsValid,
}
use substation.Common.Types.{BlockHash}
use substation.Core.Chain.{Chain}
use substation.Core.FeedMessage.{FeedMessage, into_finalized}
use substation.Core.Node.{Clock}
use substation.Core.State.{State, NodeId, node_id_key, get_chain_by_genesis_hash}
use substation.Core.State.Laws as StateLaws
use substation.Core.InnerLoop.{
  ConnId, Channel, ShardId, shard_id_key, FromFeedWebsocket, InnerLoop, send_feed, to_feed, send,
}
use substation.Core.InnerLoop.Feeds.{
  chunk_messages, send_chunks, subscribe_to, subscribe, handle_from_feed, subscription_messages,
}

-- The chain that is found under a hash has that hash.
found_hash :
    (s : State) (hash : BlockHash) (chain : Chain)
    → StateLaws.IsValid s
    → get_chain_by_genesis_hash s hash ≡ some chain
    → chain.genesis_hash ≡ hash
unfolding get_chain_by_genesis_hash
found_hash s hash chain v g = elim (Option-cases (HashMap.get hash s.chains_by_genesis_hash)) [
  | inl n ↦ ground (arith, n, g)
  | inr (id, n) ↦ let (c, at, same) = v.forward hash id n in ground (arith, n, g, at, same)
]

module _ (B : BiMap NodeId ShardId) where
  send_chunks-subscriptions :
      (loop : InnerLoop B) (channel : Channel) (messages : List (List FeedMessage))
      → (send_chunks B loop channel messages).chain_to_feed_conn_ids ≡ loop.chain_to_feed_conn_ids
  unfolding send_chunks send
  send_chunks-subscriptions loop channel [] = refl
  send_chunks-subscriptions loop channel (bytes ∷ rest) =
      send_chunks-subscriptions (send B loop (to_feed channel bytes)) channel rest

  send_feed-subscriptions :
      (loop : InnerLoop B) (channel : Channel) (message : Option (List FeedMessage))
      → (send_feed B loop channel message).chain_to_feed_conn_ids ≡ loop.chain_to_feed_conn_ids
  unfolding send_feed send
  send_feed-subscriptions loop channel none = refl
  send_feed-subscriptions loop channel (some bytes) = refl

  subscribe_to-subscriptions :
      (loop : InnerLoop B) (conn_id : ConnId) (channel : Channel) (old : Option Chain)
      (chain : Chain) (now : ℕ)
      → (subscribe_to B loop conn_id channel old chain now).chain_to_feed_conn_ids
        ≡ (MultiMapUnique.insert loop.chain_to_feed_conn_ids chain.genesis_hash conn_id).0
  unfolding subscribe_to
  subscribe_to-subscriptions loop conn_id channel old chain now =
      let feed = into_finalized (subscription_messages old chain now) in
      let slots = chain.nodes.items in
      ap (λ m. (MultiMapUnique.insert m chain.genesis_hash conn_id).0)
        (send_chunks-subscriptions (send_feed B loop channel feed) channel
            (chunk_messages (length slots) 0 slots)
          ∙ send_feed-subscriptions loop channel feed)

  -- The subscriptions after a feed with a channel subscribes.
  subscribe-subscriptions :
      (loop : InnerLoop B) (clock : Clock) (conn_id : ConnId) (channel : Channel) (hash : BlockHash)
      → HashMap.get conn_id loop.feed_channels ≡ some channel
      → let left = (MultiMapUnique.remove_value loop.chain_to_feed_conn_ids conn_id).0 in
        (handle_from_feed B loop clock conn_id
          (FromFeedWebsocket.subscribe hash)).chain_to_feed_conn_ids
        ≡ elim (get_chain_by_genesis_hash loop.node_state hash) [
          | none ↦ left
          | some chain ↦ (MultiMapUnique.insert left chain.genesis_hash conn_id).0
        ]
  unfolding handle_from_feed subscribe
  subscribe-subscriptions loop clock conn_id channel hash e =
      let moved : handle_from_feed B loop clock conn_id (FromFeedWebsocket.subscribe hash)
          ≡ subscribe B loop conn_id channel hash clock.block_now =
        ap (λ o. elim o [ none ↦ loop | some c ↦ subscribe B loop conn_id c hash clock.block_now ])
          e in
      ap (λ x. x.chain_to_feed_conn_ids) moved
      ∙ elim (Option-cases (get_chain_by_genesis_hash loop.node_state hash)) [
        | inl g ↦ rw (g, subscribe) refl
        | inr (chain, g) ↦
            rw (g, subscribe) (subscribe_to-subscriptions _ conn_id channel _ chain clock.block_now)
      ]

  -- Where the state and the subscriptions are valid, a feed that has a channel and subscribes gets
  -- the chain with the hash it asked for and no other from then on; where there is no such chain
  -- it gets none. No other feed's subscription changes, and the subscriptions stay valid.
  pub subscribe_lem :
      (loop : InnerLoop B) (clock : Clock) (conn_id other : ConnId) (channel : Channel)
      (hash h : BlockHash)
      → StateLaws.IsValid loop.node_state
      → SubLaws.IsValid loop.chain_to_feed_conn_ids
      → HashMap.get conn_id loop.feed_channels ≡ some channel
      → let after = handle_from_feed B loop clock conn_id (FromFeedWebsocket.subscribe hash) in
        SubLaws.IsValid after.chain_to_feed_conn_ids
        × (holds after.chain_to_feed_conn_ids h other
            ≡ ite
                (conn_id ≟ other)
                (elim (get_chain_by_genesis_hash loop.node_state hash) [
                  | none ↦ false
                  | some _ ↦ ite (hash ≟ h) true false
                ])
                (holds loop.chain_to_feed_conn_ids h other))
  subscribe_lem loop clock conn_id other channel hash h v w e =
      let subs = loop.chain_to_feed_conn_ids in
      let left = (MultiMapUnique.remove_value subs conn_id).0 in
      let left-valid = remove_value-IsValid subs conn_id w in
      let is = subscribe-subscriptions loop clock conn_id channel hash e in
      elim (Option-cases (get_chain_by_genesis_hash loop.node_state hash)) [
        | inl g ↦ rw (is, g) (left-valid, (values-remove_value subs conn_id h other w).1)
        | inr (chain, g) ↦
            let same : chain.genesis_hash ≡ hash = found_hash loop.node_state hash chain v g in
            rw (is, g)
              (
                insert-IsValid left chain.genesis_hash conn_id left-valid,
                ground (
                  arith,
                  (insert_lem left chain.genesis_hash conn_id h other left-valid).1,
                  (values-remove_value subs conn_id h other w).1,
                  same,
                ),
              )
      ]
