-- ===== src/Core/Server/Session.antt =====
-- What the aggregator hears of a connection to the core's server (backend/telemetry_core/src/main.rs).
use substation.Prelude.{
  if◌then◌else◌, ◌≡◌, refl, sym, ◌∙◌, ap, Bool, true, false, List, [], ◌∷◌, ◌++◌, append_assoc,
  append-nil, Bool-cases, either, if_lem, ◌||◌, inl, inr, subst,
}
use substation.Core.InnerLoop.{Channel}
use substation.Core.Server.{
  Read, command, ignored, stop, Handler, Connection, Event, received, receive_failed,
  from_aggregator, channel_dropped, aggregator_gone, next, answered, rested, recv_closed,
  send_closed, joined, start, tell, send_step, finish, step, run,
}
use substation.Core.Server.Course.{
  in_read, in_event, commands, Course, going, closed, cut_off, Quiet, quiet, Quiet-Course,
  Course-grow, Course-nil, send_step-Quiet,
}

module _ {Bytes Command Message Out : Type 0} (h : Handler Bytes Command Message Out) where
  module _ (channel : Channel) where
    receive-Course :
        (all : List Command) (c : Connection Command Message Out) (r : Read Command)
        → c.receiving ≡ true
        → Course h channel all c
        → Course h channel (all ++ in_read r) (tell c r)
    unfolding in_read tell
    receive-Course all c r y (going kept lost e t f l) = read r
      where
        whole : all ≡ kept
        whole = sym e ∙ ap (λ xs. kept ++ xs) (l y) ∙ append-nil kept

        read : (r : Read Command) → Course h channel (all ++ in_read r) (tell c r)
        read (command x) = elim (Bool-cases c.accepting) [
          | inl a ↦
              rw (a, tell)
                (going (kept ++ x ∷ []) [] (append-nil _ ∙ ap (λ xs. xs ++ x ∷ []) (sym whole))
                  (ap (λ xs. xs ++ x ∷ []) t) f (λ _. refl))
          | inr a ↦
              rw (a, tell)
                (Course-grow h channel all (x ∷ []) _ refl (going kept lost e t f (λ g. cc)))
        ]
        read ignored = Course-nil h channel all c (going kept lost e t f l)
        read stop = Course-nil h channel all _ (going kept lost e t f (λ g. cc))
    receive-Course all c r y (closed kept lost e t n s f) = cc
    receive-Course all c r y (cut_off kept lost e t a n s f) = cc

    send-Course :
        (all : List Command) (c : Connection Command Message Out) (event : Event Bytes Message)
        → Course h channel all c
        → Course h channel (all ++ []) (if c.sending then send_step h c event else c)
    send-Course all c event k = Course-nil h channel all _ (
        if_lem (Course h channel all) c.sending
          (λ y. Quiet-Course h channel (send_step-Quiet h channel c event y) k) (λ n. k))

    finish-Course :
        (all : List Command) (c : Connection Command Message Out)
        → c.receiving ≡ false
        → c.sending ≡ false
        → c.finished ≡ false
        → Course h channel all c
        → Course h channel all (finish h c)
    unfolding finish
    finish-Course all c n s f (going kept lost e t _ l) =
        if_lem (Course h channel all) c.accepting
          (λ y. closed kept lost e (ap (λ xs. xs ++ h.disconnected ∷ []) t) n s refl)
          (λ a. cut_off kept lost e t a n s refl)
    finish-Course all c n s f (closed kept lost e t _ _ g) = cc
    finish-Course all c n s f (cut_off kept lost e t a _ _ g) = cc

    -- Every event but data and the end changes nothing that the aggregator was told.
    quiet_lem :
        (all : List Command) (c d : Connection Command Message Out)
        → Quiet h c d
        → Course h channel all c
        → Course h channel (all ++ []) d
    quiet_lem all c d q k = Course-nil h channel all d (Quiet-Course h channel q k)

    or_l : (a b : Bool) → (a || b) ≡ false → a ≡ false
    or_l true b h = h
    or_l false b h = refl

    or_r : (a b : Bool) → (a || b) ≡ false → b ≡ false
    or_r true b h = cc
    or_r false b h = h

    joined-Course :
        (all : List Command) (c : Connection Command Message Out)
        → (c.receiving || c.sending || c.finished) ≡ false
        → Course h channel all c
        → Course h channel all (finish h c)
    joined-Course all c n =
        let both = or_l (c.receiving || c.sending) c.finished n in
        finish-Course all c (or_l c.receiving c.sending both) (or_r c.receiving c.sending both)
          (or_r (c.receiving || c.sending) c.finished n)

    step-Course :
        (all : List Command) (c : Connection Command Message Out) (event : Event Bytes Message)
        → Course h channel all c
        → Course h channel (all ++ in_event h event) (step h c event)
    unfolding step in_event
    step-Course all c (received bytes) k =
        if_lem (Course h channel (all ++ in_read (h.read bytes))) c.receiving
          (λ y. receive-Course all c (h.read bytes) y k)
          (λ n. Course-grow h channel all (in_read (h.read bytes)) c n k)
    step-Course all c receive_failed k =
        quiet_lem all c _ (quiet refl refl (λ _. refl) (λ n. n) (λ n. n)) k
    step-Course all c (from_aggregator m) k =
        quiet_lem all c _
          (either (Quiet h c) c.channel_open (quiet refl refl (λ n. n) (λ n. n) (λ n. n))
            (quiet refl refl (λ n. n) (λ n. n) (λ n. n)))
          k
    step-Course all c channel_dropped k =
        quiet_lem all c _ (quiet refl refl (λ n. n) (λ n. n) (λ n. n)) k
    step-Course all c aggregator_gone k =
        quiet_lem all c _ (quiet refl refl (λ n. n) (λ n. n) (λ _. refl)) k
    step-Course all c next k = send-Course all c next k
    step-Course all c (answered ok) k = send-Course all c (answered ok) k
    step-Course all c rested k = send-Course all c rested k
    step-Course all c send_closed k = send-Course all c send_closed k
    step-Course all c recv_closed k =
        quiet_lem all c _
          (either (Quiet h c) c.sending (quiet refl refl (λ n. n) (λ n. n) (λ n. n))
            (quiet refl refl (λ _. refl) (λ n. n) (λ n. n)))
          k
    step-Course all c joined k = Course-nil h channel all _ (
        if_lem (Course h channel all) (c.receiving || c.sending || c.finished) (λ y. k)
          (λ n. joined-Course all c n k))

    run-Course_from :
        (all : List Command) (c : Connection Command Message Out)
        (events : List (Event Bytes Message))
        → Course h channel all c
        → Course h channel (all ++ commands h events) (run h c events)
    unfolding run commands
    run-Course_from all c [] k = Course-nil h channel all c k
    run-Course_from all c (event ∷ events) k =
        subst (λ l. Course h channel l (run h (step h c event) events))
          (append_assoc all (in_event h event) (commands h events))
          (run-Course_from (all ++ in_event h event) (step h c event) events
            (step-Course all c event k))

    -- From a connection that the aggregator takes on, whatever comes in and whenever, and however the
    -- two tasks interleave: the aggregator hears `Initialize` first, then the commands that came in, in
    -- their order and none twice, all of them for as long as the connection receives and the first of
    -- them otherwise. It hears `Disconnected` once, as the last message, when the handler has
    -- returned, by which time both tasks have ended, unless it is gone.
    pub run-Course :
        (events : List (Event Bytes Message))
        → Course h channel (commands h events) (run h (start h channel true) events)
    unfolding start
    run-Course events =
        run-Course_from [] (start h channel true) events (going [] [] refl refl refl (λ _. refl))
