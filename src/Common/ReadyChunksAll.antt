-- ===== src/Common/ReadyChunksAll.antt =====
-- backend/common/src/ready_chunks_all.rs. The underlying stream is the list of what its polls answer,
-- one after the other; it is fused, so behind its end there is only its end.
pub mod Laws
use substation.Prelude.{
  ℕ, zero, suc, ◌+◌, ◌^◌, ◌-◌, min, Bool, true, false, ◌&&◌, List, [], ◌∷◌, ◌++◌, Option, none,
  some, ltb, if◌then◌else◌,
}

-- `Poll<Option<A>>`
pub data Poll (A : Type 0) : Type 0 where
  pending finished : Poll A
  ready : A → Poll A

pub record ReadyChunksAll (A : Type 0) : Type 0 where
  pub stream : List (Poll A)
  pub items : List A

module _ {A : Type 0} where
  unfoldable pub new : List (Poll A) → ReadyChunksAll A
  new stream = record { stream = stream; items = [] }

  -- All that is buffered, and nothing where nothing is.
  unfoldable pub flush : List A → Poll (List A) → Poll (List A)
  flush [] otherwise = otherwise
  flush (item ∷ items) otherwise = ready (item ∷ items)

  -- The loop of `poll_next`, with what is left of the stream. The buffer is empty when it returns.
  unfoldable pub poll_loop : List A → List (Poll A) → Poll (List A) × List (Poll A)
  unfolding flush
  poll_loop items [] = (flush items finished, [])
  poll_loop items (finished ∷ answers) = (flush items finished, [])
  poll_loop items (pending ∷ answers) = (flush items pending, answers)
  poll_loop items (ready item ∷ answers) = poll_loop (items ++ item ∷ []) answers

  unfoldable pub poll_next : ReadyChunksAll A → Poll (List A) × ReadyChunksAll A
  unfolding poll_loop
  poll_next r =
      let (answer, rest) = poll_loop r.items r.stream in
      (answer, record { stream = rest; items = [] })

  abbrev pub is_empty : List A → Bool
  is_empty [] = true
  is_empty (item ∷ items) = false

  -- With the hint of the underlying stream, in `usize` values.
  unfoldable pub size_hint : ReadyChunksAll A → ℕ × Option ℕ → ℕ × Option ℕ
  size_hint r (lower, upper) =
      let chunk_len : ℕ = if is_empty r.items then 0 else 1 in
      (
        min (lower + chunk_len) (2 ^ 64 - 1),
        (elim upper [
          | none ↦ none
          | some x ↦ if ltb (x + chunk_len) (2 ^ 64) then some (x + chunk_len) else none
        ]),
      )

  -- With `is_terminated` of the underlying stream.
  unfoldable pub is_terminated : ReadyChunksAll A → Bool → Bool
  is_terminated r stream_is_terminated = stream_is_terminated && is_empty r.items

  -- A consumer that polls up to a number of times, until the end: the chunks, and whether it saw the
  -- end.
  unfoldable pub collect : ℕ → ReadyChunksAll A → List (List A) × Bool
  unfolding poll_next
  collect zero r = ([], false)
  collect (suc polls) r =
      let (answer, next) = poll_next r in
      let (chunks, end) = collect polls next in
      elim answer [
        | pending ↦ (chunks, end)
        | finished ↦ ([], true)
        | ready chunk ↦ (chunk ∷ chunks, end)
      ]
