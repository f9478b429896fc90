-- ===== src/Core/InnerLoop/Queue/Laws.antt =====
-- What the queue before the core's loop (backend/telemetry_core/src/aggregator/inner_loop.rs, `handle`)
-- does with a run of messages.
use native.Mathlib.Nat.{mod-eq_of_lt}
use substation.Prelude.{
  ◌+◌, ◌≤◌, ◌<◌, inl, inr, ◌^◌, ◌≡◌, refl, ap, ◌∙◌, true, List, [], ◌∷◌, ◌++◌, length, ltb, ◌&&◌,
  arith, Bool-cases, if◌then◌else◌, length-append, append_assoc, append-nil, sym,
}
use substation.Common.BiMap.{BiMap}
use substation.Core.State.{NodeId, node_id_key}
use substation.Core.InnerLoop.{ShardId, shard_id_key, ToAggregator}
use substation.Core.InnerLoop.Queue.{Tasks, is_update, receive}

-- The messages that are not node updates, in order.
unfoldable pub kept : List ToAggregator → List ToAggregator
kept [] = []
kept (m ∷ ms) = if is_update m then kept ms else m ∷ kept ms

kept-append : (ms ns : List ToAggregator) → kept (ms ++ ns) ≡ kept ms ++ kept ns
unfolding kept
kept-append [] ns = refl
kept-append (m ∷ ms) ns = elim (Bool-cases (is_update m)) [
  | inl e ↦ rw e (kept-append ms ns)
  | inr e ↦ rw e (ap (λ l. m ∷ l) (kept-append ms ns))
]

module _ (B : BiMap NodeId ShardId) where
  -- A run of messages, none of which is handled meanwhile.
  unfoldable pub receive_all : Tasks B → List ToAggregator → Tasks B
  receive_all tasks [] = tasks
  receive_all tasks (m ∷ ms) = receive_all (receive B tasks m) ms

  receive_lem :
      (tasks : Tasks B) (m : ToAggregator)
      → tasks.total_messages + 1 < 2 ^ 64
      → tasks.dropped_messages + 1 < 2 ^ 64
      → let t = receive B tasks m in
        (t.total_messages ≡ tasks.total_messages + 1)
        × (length t.queue + t.dropped_messages ≡ length tasks.queue + tasks.dropped_messages + 1)
        × (t.dropped_messages ≤ tasks.dropped_messages + 1)
        × (kept t.queue ≡ kept tasks.queue ++ kept (m ∷ []))
  unfolding receive kept
  receive_lem tasks m h k =
      elim (Bool-cases (ltb tasks.inner.max_queue_len (length tasks.queue) && is_update m)) [
        | inl e ↦
            let up : is_update m ≡ true = ground (arith, e) in
            rw (e, up)
              (
                mod-eq_of_lt h,
                omega (arith, mod-eq_of_lt k),
                omega (arith, mod-eq_of_lt k),
                sym (append-nil (kept tasks.queue)),
              )
        | inr e ↦ rw e (
          mod-eq_of_lt h,
          omega (arith, length-append tasks.queue (m ∷ [])),
          omega arith,
          kept-append tasks.queue (m ∷ []),
        )
      ]

  -- For any run of messages that come in, whatever the queue's length: each is counted once, each is in the
  -- queue or counted as dropped, and all that are not node updates are in the queue, in order. The
  -- counters must not wrap meanwhile.
  pub receive_all_lem :
      (tasks : Tasks B) (ms : List ToAggregator)
      → tasks.total_messages + length ms < 2 ^ 64
      → tasks.dropped_messages + length ms < 2 ^ 64
      → let t = receive_all tasks ms in
        (t.total_messages ≡ tasks.total_messages + length ms)
        × (length t.queue + t.dropped_messages
            ≡ length tasks.queue + tasks.dropped_messages + length ms)
        × (kept t.queue ≡ kept tasks.queue ++ kept ms)
  unfolding receive_all
  receive_all_lem tasks [] h k =
      (omega arith, omega arith, unfold kept in sym (append-nil (kept tasks.queue)))
  receive_all_lem tasks (m ∷ ms) h k =
      let (total, all, few, order) = receive_lem tasks m (omega arith) (omega arith) in
      let (total', all', order') =
        receive_all_lem (receive B tasks m) ms (omega (arith, total)) (omega (arith, few)) in
      (
        omega (arith, total, total'),
        omega (arith, all, all'),
        order'
            ∙ ap (λ l. l ++ kept ms) order
            ∙ append_assoc (kept tasks.queue) (kept (m ∷ [])) (kept ms)
            ∙ ap (λ l. kept tasks.queue ++ l) (sym (kept-append (m ∷ []) ms)),
      )
