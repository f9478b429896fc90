-- ===== src/Core/Server/Course.antt =====
-- The course of a connection to the core's server (backend/telemetry_core/src/main.rs), and the steps
-- that tell the aggregator nothing.
use substation.Prelude.{
  ◌≡◌, refl, sym, ◌∙◌, ap, Bool, true, false, List, [], ◌∷◌, ◌++◌, append_assoc, append-nil,
  Bool-cases, either, inl, inr, subst,
}
use substation.Core.InnerLoop.{Channel}
use substation.Core.Server.{
  Read, command, Round, idle, calling, resting, Handler, Connection, Event, received,
  receive_failed, from_aggregator, channel_dropped, aggregator_gone, next, answered, rested,
  recv_closed, send_closed, joined, take_batch, after_failure, call_answered, send_step,
}

-- The command in what came in, if it is one.
unfoldable pub in_read : {Command : Type 0} → Read Command → List Command
in_read (command x) = x ∷ []
in_read _ = []

module _ {Bytes Command Message Out : Type 0} (h : Handler Bytes Command Message Out) where
  unfoldable pub in_event : Event Bytes Message → List Command
  unfolding in_read
  in_event (received bytes) = in_read (h.read bytes)
  in_event _ = []

  unfoldable pub commands : List (Event Bytes Message) → List Command
  unfolding in_event
  commands [] = []
  commands (event ∷ events) = in_event event ++ commands events

  -- The connection's course, over all commands that came in so far: the aggregator was told the first
  -- of them, and all while the connection receives.
  pub data Course (channel : Channel) (all : List Command) (c : Connection Command Message Out)
      : Type 0 where
    going :
        (kept lost : List Command)
        → kept ++ lost ≡ all
        → c.told ≡ h.initialize channel ∷ kept
        → c.finished ≡ false
        → (c.receiving ≡ true → lost ≡ [])
        → Course channel all c
    closed :
        (kept lost : List Command)
        → kept ++ lost ≡ all
        → c.told ≡ h.initialize channel ∷ kept ++ h.disconnected ∷ []
        → c.receiving ≡ false
        → c.sending ≡ false
        → c.finished ≡ true
        → Course channel all c
    cut_off :
        (kept lost : List Command)
        → kept ++ lost ≡ all
        → c.told ≡ h.initialize channel ∷ kept
        → c.accepting ≡ false
        → c.receiving ≡ false
        → c.sending ≡ false
        → c.finished ≡ true
        → Course channel all c

  -- A change that tells nothing and starts nothing again.
  pub data Quiet (c d : Connection Command Message Out) : Type 0 where
    quiet :
        d.told ≡ c.told
        → d.finished ≡ c.finished
        → (c.receiving ≡ false → d.receiving ≡ false)
        → (c.sending ≡ false → d.sending ≡ false)
        → (c.accepting ≡ false → d.accepting ≡ false)
        → Quiet c d

  module _ (channel : Channel) where
    pub Quiet-Course :
        {all : List Command} {c d : Connection Command Message Out}
        → Quiet c d
        → Course channel all c
        → Course channel all d
    Quiet-Course {c = c} {d = d} (quiet t' f' r' s' a') (going kept lost e t f r) =
        going kept lost e (t' ∙ t) (f' ∙ f) still
      where
        still : d.receiving ≡ true → lost ≡ []
        still g = elim (Bool-cases c.receiving) [
          | inl y ↦ r y
          | inr n ↦ (let no_more : d.receiving ≡ false = r' n in cc)
        ]
    Quiet-Course (quiet t' f' r' s' a') (closed kept lost e t r s f) =
        closed kept lost e (t' ∙ t) (r' r) (s' s) (f' ∙ f)
    Quiet-Course (quiet t' f' r' s' a') (cut_off kept lost e t a r s f) =
        cut_off kept lost e (t' ∙ t) (a' a) (r' r) (s' s) (f' ∙ f)

    -- What comes in after the task that receives has ended is lost.
    pub Course-grow :
        (all more : List Command) (c : Connection Command Message Out)
        → c.receiving ≡ false
        → Course channel all c
        → Course channel (all ++ more) c
    Course-grow all more c n (going kept lost e t f r) =
        going kept (lost ++ more) (sym (append_assoc kept lost more) ∙ ap (λ l. l ++ more) e) t f
          (λ y. cc)
    Course-grow all more c n (closed kept lost e t r s f) =
        closed kept (lost ++ more) (sym (append_assoc kept lost more) ∙ ap (λ l. l ++ more) e) t r s
          f
    Course-grow all more c n (cut_off kept lost e t a r s f) =
        cut_off kept (lost ++ more) (sym (append_assoc kept lost more) ∙ ap (λ l. l ++ more) e) t a
          r s f

    -- Nothing of what comes in is a command.
    pub Course-nil :
        (all : List Command) (c : Connection Command Message Out)
        → Course channel all c
        → Course channel (all ++ []) c
    Course-nil all c k = subst (λ l. Course channel l c) (sym (append-nil all)) k

    -- A step of the task that sends.
    pub send_step-Quiet :
        (c : Connection Command Message Out) (event : Event Bytes Message)
        → c.sending ≡ true
        → Quiet c (send_step h c event)
    unfolding send_step take_batch call_answered after_failure
    send_step-Quiet c event y = by_event c.round event
      where
        at : Round Message → Connection Command Message Out
        at r = record c { round = r }

        same : (r : Round Message) → Quiet c (at r)
        same r = quiet refl refl (λ n. n) (λ n. n) (λ n. n)

        failed : (q r : Round Message) → Quiet c (after_failure h (at q) r)
        failed q r =
            either (Quiet c) h.stops (quiet refl refl (λ n. n) (λ _. refl) (λ n. n)) (same r)

        taken :
            (waiting : List Message)
            → Quiet c (take_batch h (record c { round = idle; waiting = waiting }))
        taken [] =
            either (Quiet c) c.channel_open (quiet refl refl (λ n. n) (λ n. n) (λ n. n))
              (quiet refl refl (λ n. n) (λ _. refl) (λ n. n))
        taken (m ∷ ms) = quiet refl refl (λ n. n) (λ n. n) (λ n. n)

        answer : (ms : List Message) (ok : Bool) → Quiet c (call_answered h (at (calling ms)) ms ok)
        answer (m ∷ ms) true = quiet refl refl (λ n. n) (λ n. n) (λ n. n)
        answer (m ∷ ms) false = failed (calling (m ∷ ms)) (calling ms)
        answer [] true = quiet refl refl (λ n. n) (λ n. n) (λ n. n)
        answer [] false = failed (calling []) idle

        by_event :
            (r : Round Message) (event : Event Bytes Message) → Quiet c (send_step h (at r) event)
        by_event idle next = taken c.waiting
        by_event (calling ms) next = same (calling ms)
        by_event resting next = same resting
        by_event idle (answered ok) = same idle
        by_event (calling ms) (answered ok) = answer ms ok
        by_event resting (answered ok) = same resting
        by_event idle rested = same idle
        by_event (calling ms) rested = same (calling ms)
        by_event resting rested = same idle
        by_event idle send_closed =
            either (Quiet c) c.receiving (same idle) (quiet refl refl (λ n. n) (λ _. refl) (λ n. n))
        by_event (calling ms) send_closed = same (calling ms)
        by_event resting send_closed = same resting
        by_event r (received bytes) = same r
        by_event r receive_failed = same r
        by_event r (from_aggregator m) = same r
        by_event r channel_dropped = same r
        by_event r aggregator_gone = same r
        by_event r recv_closed = same r
        by_event r joined = same r
