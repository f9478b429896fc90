-- ===== src/Core/InnerLoop/Sound/Feeds.antt =====
-- The messages of feeds keep what holds of the aggregator,
-- backend/telemetry_core/src/aggregator/inner_loop.rs.
use substation.Prelude.{
  ℕ, ◌≡◌, sym, ◌∙◌, subst, Option, some, length, nat_key, arith, Option-cases, inl, inr,
}
use substation.Prelude.HashMap.{HashMap, get-insert, get-remove}
use substation.Prelude.HashMap
use substation.Common.BiMap.{BiMap}
use substation.Common.MultiMapUnique.{MultiMapUnique}
use substation.Common.MultiMapUnique
use substation.Common.MultiMapUnique.Laws.{
  values-remove_value, insert_lem, remove_value-IsValid, insert-IsValid,
}
use substation.Core.Chain.{Chain}
use substation.Core.FeedMessage.{FeedMessageSerializer, ◌▹◌, into_finalized}
use substation.Core.FeedMessage
use substation.Core.Node.{Clock}
use substation.Core.State.{NodeId, node_id_key, get_chain_by_genesis_hash, iter_chains}
use substation.Core.InnerLoop.{
  ConnId, Channel, ShardId, shard_id_key, FromFeedWebsocket, InnerLoop, send_feed,
}
use substation.Core.InnerLoop.Feeds.{
  subscribe, subscribe_to, handle_from_feed, chunk_messages, push_chains, send_chunks,
  subscription_messages, chain_of,
}
use substation.Core.InnerLoop.Sends.{optional, send_feed-Same, send_chunks-Same}
use substation.Core.InnerLoop.Sound.{Sound, IsValid, Same-IsValid}

module _ (B : BiMap NodeId ShardId) where
  subscribe_to-IsValid :
      (loop : InnerLoop B) (conn_id : ConnId) (channel : Channel) (old : Option Chain)
      (chain : Chain) (now : ℕ)
      → IsValid B loop
      → HashMap.get conn_id loop.feed_channels ≡ some channel
      → IsValid B (subscribe_to B loop conn_id channel old chain now)
  unfolding subscribe_to
  subscribe_to-IsValid loop conn_id channel old chain now v e =
      let feed = into_finalized (subscription_messages old chain now) in
      let slots = chain.nodes.items in
      let told = send_feed B loop channel feed in
      let chunks = chunk_messages (length slots) 0 slots in
      let shown = send_chunks B told channel chunks in
      let same = send_chunks-Same B told channel chunks ∙ send_feed-Same B loop channel feed in
      let listed : Sound B (
        loop.node_state,
        (MultiMapUnique.insert loop.chain_to_feed_conn_ids chain.genesis_hash conn_id).0,
        loop.feed_channels,
      ) =
        record {
          state_valid = v.state_valid;
          subscriptions_valid =
              insert-IsValid loop.chain_to_feed_conn_ids chain.genesis_hash conn_id
                v.subscriptions_valid;
          listening = λ h c on. ground (
            arith,
            e,
            v.listening h c,
            (insert_lem loop.chain_to_feed_conn_ids chain.genesis_hash conn_id h c
                v.subscriptions_valid).1,
          );
        } in
      subst (λ w. Sound B (w.0, (MultiMapUnique.insert w.1 chain.genesis_hash conn_id).0, w.2))
        (sym same) listed

  left-IsValid :
      (loop : InnerLoop B) (conn_id : ConnId)
      → IsValid B loop
      → IsValid B (record loop {
        chain_to_feed_conn_ids =
            (MultiMapUnique.remove_value loop.chain_to_feed_conn_ids conn_id).0;
      })
  left-IsValid loop conn_id v = record {
    state_valid = v.state_valid;
    subscriptions_valid =
        remove_value-IsValid loop.chain_to_feed_conn_ids conn_id v.subscriptions_valid;
    listening = λ h c on. ground (
      arith,
      v.listening h c,
      (values-remove_value loop.chain_to_feed_conn_ids conn_id h c v.subscriptions_valid).1,
    );
  }

  pub handle_from_feed-IsValid :
      (loop : InnerLoop B) (clock : Clock) (conn_id : ConnId) (message : FromFeedWebsocket)
      → IsValid B loop
      → IsValid B (handle_from_feed B loop clock conn_id message)
  unfolding handle_from_feed subscribe
  handle_from_feed-IsValid loop clock conn_id (FromFeedWebsocket.initialize channel) v =
      let known : InnerLoop B = record loop {
        feed_channels = HashMap.insert conn_id channel loop.feed_channels;
      } in
      let chains =
        into_finalized
          (push_chains (FeedMessage.new ▹ FeedMessage.version 32) (iter_chains loop.node_state)) in
      let known-valid : IsValid B known = record {
        state_valid = v.state_valid;
        subscriptions_valid = v.subscriptions_valid;
        listening = λ h c on.
            ground (arith, v.listening h c on, get-insert conn_id c channel loop.feed_channels);
      } in
      Same-IsValid B known (send_feed B known channel chains)
        (send_feed-Same B known channel chains) known-valid
  handle_from_feed-IsValid loop clock conn_id (FromFeedWebsocket.ping value) v =
      optional (IsValid B) (HashMap.get conn_id loop.feed_channels) v λ channel.
        let pong = into_finalized (FeedMessage.new ▹ FeedMessage.pong value) in
        Same-IsValid B loop (send_feed B loop channel pong) (send_feed-Same B loop channel pong) v
  handle_from_feed-IsValid loop clock conn_id (FromFeedWebsocket.subscribe hash) v =
      elim (Option-cases (HashMap.get conn_id loop.feed_channels)) [
        | inl e ↦ rw (e, handle_from_feed) v
        | inr (channel, e) ↦
            let (subscriptions, old_hash) =
              MultiMapUnique.remove_value loop.chain_to_feed_conn_ids conn_id in
            let left : InnerLoop B = record loop { chain_to_feed_conn_ids = subscriptions } in
            let w : IsValid B left = left-IsValid loop conn_id v in
            rw (e, handle_from_feed)
              (optional (IsValid B) (get_chain_by_genesis_hash loop.node_state hash) w λ chain.
                subscribe_to-IsValid left conn_id channel (chain_of loop.node_state old_hash) chain
                  clock.block_now w e)
      ]
  handle_from_feed-IsValid loop clock conn_id FromFeedWebsocket.disconnected v =
      let w = left-IsValid loop conn_id v in
      record {
        state_valid = v.state_valid;
        subscriptions_valid = w.subscriptions_valid;
        listening = λ h c on. ground (
          arith,
          w.listening h c on,
          v.listening h c,
          (values-remove_value loop.chain_to_feed_conn_ids conn_id h c v.subscriptions_valid).1,
          get-remove conn_id c loop.feed_channels,
        );
      }
