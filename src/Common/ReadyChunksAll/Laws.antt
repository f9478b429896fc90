-- ===== src/Common/ReadyChunksAll/Laws.antt =====
-- The chunks of backend/common/src/ready_chunks_all.rs are the stream, cut up.
use substation.Prelude.{
  ℕ, zero, suc, ◌+◌, ◌≤◌, ◌<◌, ◌≡◌, refl, sym, ap, ◌∙◌, Bool, true, List, [], ◌∷◌, ◌++◌,
  append_assoc, length, length-append, arith,
}
use substation.Common.ReadyChunksAll.{
  Poll, pending, finished, ready, new, flush, poll_loop, poll_next, collect,
}

module _ {A : Type 0} where
  -- What the stream has, up to its end.
  unfoldable pub contents : List (Poll A) → List A
  contents [] = []
  contents (finished ∷ answers) = []
  contents (pending ∷ answers) = contents answers
  contents (ready item ∷ answers) = item ∷ contents answers

  abbrev pub concat : List (List A) → List A
  concat [] = []
  concat (chunk ∷ chunks) = chunk ++ concat chunks

  -- Is there an empty chunk?
  abbrev pub NoneEmpty : List (List A) → Type 0
  NoneEmpty [] = Unit
  NoneEmpty ([] ∷ chunks) = ⊥
  NoneEmpty ((item ∷ chunk) ∷ chunks) = NoneEmpty chunks

  -- What a poll answers, by the items at hand and the answers that are left.
  data Polled (items : List A) (answers rest : List (Poll A)) : Poll (List A) → Type 0 where
    waits :
        items ≡ []
        → contents answers ≡ contents rest
        → length rest < length answers
        → Polled items answers rest pending
    ends : items ++ contents answers ≡ [] → Polled items answers rest finished
    gives :
        (item : A) (chunk : List A)
        → items ++ contents answers ≡ (item ∷ chunk) ++ contents rest
        → length rest + suc (length chunk) ≤ length items + length answers
        → Polled items answers rest (ready (item ∷ chunk))

  snoc-more : (items : List A) (item : A) → items ++ item ∷ [] ≡ [] → ⊥
  snoc-more [] item e = cc
  snoc-more (x ∷ items) item e = cc

  -- The loop has one more item at hand than the poll before it answered.
  Polled-ready :
      (items : List A) (item : A) (answers rest : List (Poll A)) (answer : Poll (List A))
      → Polled (items ++ item ∷ []) answers rest answer
      → Polled items (ready item ∷ answers) rest answer
  unfolding contents
  Polled-ready items item answers rest answer (waits e c l) = absurd (snoc-more items item e)
  Polled-ready items item answers rest answer (ends e) =
      ends (sym (append_assoc items (item ∷ []) (contents answers)) ∙ e)
  Polled-ready items item answers rest answer (gives x chunk e l) =
      gives x chunk (sym (append_assoc items (item ∷ []) (contents answers)) ∙ e)
        (omega (arith, l, length-append items (item ∷ [])))

  poll_loop-Polled :
      (items : List A) (answers : List (Poll A))
      → Polled items answers (poll_loop items answers).1 (poll_loop items answers).0
  unfolding poll_loop flush contents
  poll_loop-Polled [] [] = ends refl
  poll_loop-Polled (x ∷ items) [] = gives x items refl (omega arith)
  poll_loop-Polled [] (finished ∷ answers) = ends refl
  poll_loop-Polled (x ∷ items) (finished ∷ answers) = gives x items refl (omega arith)
  poll_loop-Polled [] (pending ∷ answers) = waits refl refl (omega arith)
  poll_loop-Polled (x ∷ items) (pending ∷ answers) = gives x items refl (omega arith)
  poll_loop-Polled items (ready item ∷ answers) =
      Polled-ready items item answers (poll_loop (items ++ item ∷ []) answers).1
        (poll_loop (items ++ item ∷ []) answers).0 (poll_loop-Polled (items ++ item ∷ []) answers)

  -- One poll of a consumer.
  collect_step :
      (polls : ℕ) (answers rest : List (Poll A)) (answer : Poll (List A))
      → Polled [] answers rest answer
      → length answers < suc polls
      → ((bs : List (Poll A))
          → length bs < polls
          → (concat (collect polls (new bs)).0 ≡ contents bs)
            × NoneEmpty (collect polls (new bs)).0
            × ((collect polls (new bs)).1 ≡ true))
      → let (chunks, end) = collect polls (new rest) in
        let r : List (List A) × Bool = elim answer [
          | pending ↦ (chunks, end)
          | finished ↦ ([], true)
          | ready chunk ↦ (chunk ∷ chunks, end)
        ] in
        (concat r.0 ≡ contents answers) × NoneEmpty r.0 × (r.1 ≡ true)
  collect_step polls answers rest answer (waits e c l) h next =
      let (all, full, end) = next rest (omega arith) in (all ∙ sym c, full, end)
  collect_step polls answers rest answer (ends e) h next = (sym e, tt, refl)
  collect_step polls answers rest answer (gives x chunk e l) h next =
      let (all, full, end) = next rest (omega arith) in
      (ap (λ l. (x ∷ chunk) ++ l) all ∙ sym e, full, end)

  -- A consumer that polls more often than the stream has answers reaches the end, and the chunks that it
  -- got are all the items of the stream, in order and each once, with no empty chunk.
  pub collect_lem :
      (polls : ℕ) (answers : List (Poll A))
      → length answers < polls
      → let (chunks, end) = collect polls (new answers) in
        (concat chunks ≡ contents answers) × NoneEmpty chunks × (end ≡ true)
  unfolding collect poll_next new
  collect_lem zero answers h = absurd (omega arith)
  collect_lem (suc polls) answers h =
      collect_step polls answers (poll_loop [] answers).1 (poll_loop [] answers).0
        (poll_loop-Polled [] answers) h (collect_lem polls)
