-- ===== src/Shard/CoreConnection/Delivery.antt =====
-- What the core is sent while a connection lasts (backend/telemetry_shard/src/connection.rs).
use substation.Prelude.{
  ℕ, zero, suc, ◌≡◌, ◌≤◌, refl, sym, ap, ◌∙◌, subst, true, List, [], ◌∷◌, ◌++◌, append_assoc,
  append-nil, length, arith,
}
use substation.Shard.CoreConnection.{
  received, forwarding, Event, input, from_core, write, CoreConnection, new, send, take_pending,
  write_to_core, step_forwarding, step_task, step, run,
}
use substation.Shard.CoreConnection.Order.{Within, Within-append, inputs, written_lem}

module _ {In Out : Type 0} where
  -- Nothing goes wrong: the aggregator puts messages in, the core sends some, and the websocket takes
  -- all that it is given.
  pub data Healthy : List (Event In Out) → Type 0 where
    done : Healthy []
    puts_in : (m : In) {events : List (Event In Out)} → Healthy events → Healthy (input m ∷ events)
    gets :
        (m : Out) {events : List (Event In Out)} → Healthy events → Healthy (from_core m ∷ events)
    writes : {events : List (Event In Out)} → Healthy events → Healthy (write true ∷ events)

  -- The websocket takes `n` messages more, or all there are.
  unfoldable pub write_all : ℕ → List (Event In Out)
  write_all zero = []
  write_all (suc n) = write true ∷ write_all n

  -- In the inner loop, with the aggregator listening.
  up : CoreConnection In Out → List In → List In → CoreConnection In Out
  up c ws ps = record c { phase = forwarding; listening = true; written = ws; pending = ps }

  healthy_lem :
      (c : CoreConnection In Out) (ws ps : List In) (more : List (Event In Out))
      → Healthy more
      → (d : CoreConnection In Out) × (vs : List In) × (qs : List In) × (run (up c ws ps) more
          ≡ up d vs qs)
        × (vs ++ qs ≡ (ws ++ ps) ++ inputs more)
  unfolding up run step step_task step_forwarding take_pending write_to_core send inputs
  healthy_lem c ws ps more done = (c, ws, ps, refl, sym (append-nil (ws ++ ps)))
  healthy_lem c ws ps (input m ∷ more) (puts_in _ h) =
      let (d, vs, qs, is, e) = healthy_lem c ws (ps ++ m ∷ []) more h in
      (
        d,
        vs,
        qs,
        is,
        e
            ∙ ap (λ l. l ++ inputs more) (sym (append_assoc ws ps (m ∷ [])))
            ∙ append_assoc (ws ++ ps) (m ∷ []) (inputs more),
      )
  healthy_lem c ws ps (from_core m ∷ more) (gets _ h) =
      healthy_lem (record c { sent = c.sent ++ received m ∷ [] }) ws ps more h
  healthy_lem c ws [] (write true ∷ more) (writes h) = healthy_lem c ws [] more h
  healthy_lem c ws (m ∷ ps) (write true ∷ more) (writes h) =
      let (d, vs, qs, is, e) = healthy_lem c (ws ++ m ∷ []) ps more h in
      (d, vs, qs, is, e ∙ ap (λ l. l ++ inputs more) (append_assoc ws (m ∷ []) ps))

  write_all_lem :
      (c : CoreConnection In Out) (ws ps : List In) (n : ℕ)
      → length ps ≤ n
      → run (up c ws ps) (write_all n) ≡ up c (ws ++ ps) []
  unfolding up run step step_task step_forwarding take_pending write_to_core write_all
  write_all_lem c ws [] zero h = ap (λ l. up c l []) (sym (append-nil ws))
  write_all_lem c ws (m ∷ ps) zero h = absurd (omega arith)
  write_all_lem c ws [] (suc n) h = write_all_lem c ws [] n (omega arith)
  write_all_lem c ws (m ∷ ps) (suc n) h =
      write_all_lem c (ws ++ m ∷ []) ps n (omega arith)
      ∙ ap (λ l. up c l []) (append_assoc ws (m ∷ []) ps)

  up_lem :
      (c : CoreConnection In Out)
      → c.phase ≡ forwarding
      → c.listening ≡ true
      → c ≡ up c c.written c.pending
  unfolding up
  up_lem c p l =
      ap (λ q. record c { phase = q }) p
      ∙ ap (λ b. record c { phase = forwarding; listening = b }) l

  -- Over all its connections, and whatever happens to them, the core is written messages that the
  -- aggregator put in, in their order and each at most once. When the task is in its inner loop and
  -- the aggregator listens, then for as long as nothing goes wrong none is missing: once the
  -- websocket has taken as many as wait, the core has been written all that waited, and all that was
  -- put in since, and nothing waits.
  pub delivered_lem :
      (events more : List (Event In Out)) (n : ℕ)
      → (run new events).phase ≡ forwarding
      → (run new events).listening ≡ true
      → Healthy more
      → length (run (run new events) more).pending ≤ n
      → let c : CoreConnection In Out = run new events in
        let u : CoreConnection In Out = run (run c more) (write_all n) in
        (u.written ≡ (c.written ++ c.pending) ++ inputs more)
        × (u.pending ≡ [])
        × Within u.written (inputs events ++ inputs more)
  unfolding up
  delivered_lem events more n p l h waits =
      let c : CoreConnection In Out = run new events in
      let (d, vs, qs, is, e) = healthy_lem c c.written c.pending more h in
      let is' : run c more ≡ up d vs qs = ap (λ b. run b more) (up_lem c p l) ∙ is in
      let fits : length qs ≤ n = subst (λ b. length b.pending ≤ n) is' waits in
      let end : run (run c more) (write_all n) ≡ up d (vs ++ qs) [] =
        ap (λ b. run b (write_all n)) is' ∙ write_all_lem d vs qs n fits in
      let all = ap (λ b. b.written) end ∙ e in
      (
        all,
        ap (λ b. b.pending) end,
        subst (λ w. Within w (inputs events ++ inputs more)) (sym all)
            (Within-append (inputs more) (written_lem events)),
      )
