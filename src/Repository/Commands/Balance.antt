-- ===== src/Repository/Commands/Balance.antt =====
-- connection.go: the registrations of an instance over any sequence of operations of the stores, wherever
-- connections break and whatever time passes.
use scorpion.Prelude.{
  Bool, one_if, not, ◌&&◌, if◌then◌else◌, ℕ, zero, suc, ◌+◌, ◌≤◌, String, ◌≡◌, refl, ap, ◌∙◌, ◌==◌,
  eq_iff, true, false, Bool-cases, inl, inr, List, [], ◌∷◌, arith,
}
use scorpion.Redis.{Redis, is_some}
use scorpion.World.{World, Outcome, answered, broken, Answers, AnswersFirst}
use scorpion.World.Trips.{ran, reply_cases, round_trip_ok}
use scorpion.World.Typed.{Typed}
use scorpion.World.Aged.{elapse-Typed}
use scorpion.Repository.Keys.{conn_key}
use scorpion.Repository.Keys.Distinct.{
  ne_sym, ticket_key-ne-conn_key, rate_limit_key-ne-conn_key, conn_key-ne-events_key,
  conn_key-ne-in_flight_key, conn_key-ne-acked_key,
}
use scorpion.Repository.Connections as Connections
use scorpion.Repository.Connections.{registered}
use scorpion.Repository.Commands.{
  Command, set_nx_conn, expire_conn, del_conn, del_own_conn, passes, exec, exec_all,
}
use scorpion.Repository.Commands.Typed.{exec-Typed}
use scorpion.Repository.Commands.Writes.{Spares, exec-at_ne}
use scorpion.Repository.Commands.Sent.{
  Operation, inserts, drains, stores, consumes, registers, refreshes, deletes, deletes_with_value,
  delivers, validates, marks, limits, commands, perform, perform_sent,
}
use scorpion.Repository.Commands.Reached.{AllAllowed, exec_all-Typed, perform-Reached, Reached-refl}
use scorpion.Repository.Commands.Registrations.{
  Event, does, pause, reaches, breaks, lost, after, after_all, times, placed, won, over,
}
use scorpion.Repository.Commands.Connections.{standing, admitted, ended, exec-Balances}

module _ (r : Redis) (i c ip : String) where
  one_ran :
      (os : List Outcome) (cmd : Command) (d : r.Db)
      → exec_all r (ran os (cmd ∷ [])) d ≡ (if reaches os then exec r cmd d else d)
  unfolding exec_all
  one_ran [] cmd d = refl
  one_ran (answered ∷ _) cmd d = refl
  one_ran (broken zero _ ∷ _) cmd d = refl
  one_ran (broken (suc zero) _ ∷ _) cmd d = refl
  one_ran (broken (suc (suc n)) _ ∷ _) cmd d = refl

  perform_one :
      (op : Operation) (cmd : Command) (w : World r)
      → commands op ≡ cmd ∷ []
      → (perform op w).db ≡ (if reaches w.outcomes then exec r cmd w.db else w.db)
  perform_one op cmd w one =
      perform_sent r op w
      ∙ ap (λ cmds. exec_all r (ran w.outcomes cmds) w.db) one
      ∙ one_ran w.outcomes cmd w.db

  -- An operation of one command, by whether the command reaches Redis.
  one_step :
      (op : Operation) (cmd : Command) (w : World r) (p q : ℕ)
      → commands op ≡ cmd ∷ []
      → Typed r w.db
      → (reaches w.outcomes ≡ true
          → (p ≡ admitted r i c ip cmd w.db) × (q ≡ ended r i c ip cmd w.db))
      → (reaches w.outcomes ≡ false → (p ≡ 0) × (q ≡ 0))
      → p + standing r i c ip w.db ≡ q + standing r i c ip (perform op w).db
  one_step op cmd w p q one h sent lost = elim (Bool-cases (reaches w.outcomes)) [
    | inl on ↦
        let (p_sent, q_sent) = sent on in
        rw (perform_one op cmd w one, on, p_sent, q_sent) (exec-Balances r i c ip cmd w.db h)
    | inr off ↦
        let (p_lost, q_lost) = lost off in rw (perform_one op cmd w one, off, p_lost, q_lost) refl
  ]

  spared_all :
      (cmds : List Command) (d : r.Db)
      → AllAllowed (λ cmd. Spares cmd (conn_key c ip)) cmds
      → Typed r d
      → r.at (exec_all r cmds d) (conn_key c ip) ≡ r.at d (conn_key c ip)
  unfolding exec_all
  spared_all [] d a h = refl
  spared_all (cmd ∷ cmds) d a h =
      spared_all cmds (exec r cmd d) a.1 (exec-Typed r cmd d h)
      ∙ exec-at_ne r (conn_key c ip) cmd d h a.0

  -- An operation on other keys.
  no_step :
      (op : Operation) (w : World r)
      → AllAllowed (λ cmd. Spares cmd (conn_key c ip)) (commands op)
      → Typed r w.db
      → 0 + standing r i c ip w.db ≡ 0 + standing r i c ip (perform op w).db
  no_step op w a h =
      let p =
        perform-Reached r (λ cmd. Spares cmd (conn_key c ip)) op w a (Reached-refl r _ w.db) in
      let same = ap (λ d. r.at d (conn_key c ip)) p.result ∙ spared_all p.cmds w.db p.allowed h in
      rw same refl

  perform-balances :
      (op : Operation) (w : World r)
      → Typed r w.db
      → placed r i c ip (does op) w + standing r i c ip w.db
        ≡ over r i c ip (does op) w + standing r i c ip (perform op w).db
  unfolding placed over commands admitted ended
  perform-balances (inserts m c' e) w h =
      let apart = ne_sym _ _ (conn_key-ne-events_key c ip c') in
      no_step (inserts m c' e) w (apart, (apart, tt)) h
  perform-balances (drains c' b) w h =
      no_step (drains c' b) w (tt, (ne_sym _ _ (conn_key-ne-events_key c ip c'), (tt, tt))) h
  perform-balances (stores c' ip' j t) w h =
      no_step (stores c' ip' j t) w (ticket_key-ne-conn_key c' ip' c ip, tt) h
  perform-balances (consumes c' ip' j) w h =
      no_step (consumes c' ip' j) w (ticket_key-ne-conn_key c' ip' c ip, tt) h
  perform-balances (registers j c' ip' t) w h =
      one_step (registers j c' ip' t) (set_nx_conn j c' ip' t) w _ _ refl h
        (λ on. (rw on refl, refl)) (λ off. (rw off refl, refl))
  perform-balances (refreshes c' ip' t) w h =
      one_step (refreshes c' ip' t) (expire_conn c' ip' t) w _ _ refl h (λ on. (refl, rw on refl))
        (λ off. (refl, rw off refl))
  perform-balances (deletes c' ip') w h =
      one_step (deletes c' ip') (del_conn c' ip') w _ _ refl h (λ on. (refl, rw on refl))
        (λ off. (refl, rw off refl))
  perform-balances (deletes_with_value j c' ip') w h =
      one_step (deletes_with_value j c' ip') (del_own_conn j c' ip') w _ _ refl h
        (λ on. (refl, rw on refl)) (λ off. (refl, rw off refl))
  perform-balances (delivers c' e at) w h =
      no_step (delivers c' e at) w (ne_sym _ _ (conn_key-ne-in_flight_key c ip c' e), tt) h
  perform-balances (validates c' e) w h = no_step (validates c' e) w tt h
  perform-balances (marks c' e at) w h =
      no_step (marks c' e at) w
        (
          ne_sym _ _ (conn_key-ne-acked_key c ip c' e),
          (ne_sym _ _ (conn_key-ne-in_flight_key c ip c' e), tt),
        )
        h
  perform-balances (limits cfg now a) w h =
      no_step (limits cfg now a) w (rate_limit_key-ne-conn_key a c ip, tt) h

  event-balances :
      (e : Event) (w : World r)
      → Typed r w.db
      → (placed r i c ip e w + standing r i c ip w.db
          ≡ over r i c ip e w + standing r i c ip (after r e w).db)
        × Typed r (after r e w).db
  unfolding placed over after exec ended admitted
  event-balances (does op) w h =
      (perform-balances op w h, rw (perform_sent r op w) (exec_all-Typed r _ w.db h))
  event-balances (pause n) w h = (exec-Balances r i c ip (passes n) w.db h, elapse-Typed r n w.db h)

  answered_reaches : (w : World r) → Answers w → reaches w.outcomes ≡ true
  answered_reaches w a = go w.outcomes a
    where
      go : (os : List Outcome) → AnswersFirst os → reaches os ≡ true
      go [] a = refl
      go (answered ∷ _) a = refl
      go (broken _ _ ∷ _) a = absurd a

  -- An instance is told that it has registered only where no stream was registered.
  register-won :
      (j c' ip' : String) (t : ℕ) (w : World r)
      → won r i c ip (does (registers j c' ip' t)) w
        ≤ placed r i c ip (does (registers j c' ip' t)) w
  unfolding won placed Connections.register
  register-won j c' ip' t w =
      let key = conn_key c' ip' in
      elim (Bool-cases (key == conn_key c ip)) [
        | inr other ↦ rw other (ground arith)
        | inl same ↦ elim (reply_cases (r.set_nx key j t ∷ []) (r.set_nx_reply key) w) [
          | inl a ↦
              rw
                (
                  round_trip_ok (r.set_nx key j t ∷ []) (r.set_nx_reply key) w a,
                  answered_reaches w a,
                  r.set_nx_reply_lem,
                  (eq_iff _ _).0 same,
                )
                (omega arith)
          | inr (why, n, broke_off) ↦ rw (broke_off, same) (omega arith)
        ]
      ]

  unbroken : (os : List Outcome) → breaks os ≡ false → AnswersFirst os
  unbroken [] e = tt
  unbroken (answered ∷ _) e = tt
  unbroken (broken _ _ ∷ _) e = cc

  at_most_one : (b : Bool) (n : ℕ) → (if b then n else 0) ≤ n
  at_most_one true n = omega arith
  at_most_one false n = omega arith

  bit : (b : Bool) → one_if b ≤ 1
  bit true = omega arith
  bit false = omega arith

  -- It is told so unless the request breaks.
  register-told :
      (j c' ip' : String) (t : ℕ) (w : World r)
      → let e = does (registers j c' ip' t) in placed r i c ip e w ≤ won r i c ip e w + lost r e w
  unfolding won placed lost Connections.register
  register-told j c' ip' t w =
      let key = conn_key c' ip' in
      elim (Bool-cases (breaks w.outcomes)) [
        | inl gone ↦
            let x =
              one_if
                (key == conn_key c ip && (not (is_some (r.at w.db (conn_key c ip))) && j == i)) in
            let few = at_most_one (reaches w.outcomes) x in
            let one =
              bit (key == conn_key c ip && (not (is_some (r.at w.db (conn_key c ip))) && j == i)) in
            rw gone (omega (arith, few, one))
        | inr whole ↦
            let a : Answers w = unbroken w.outcomes whole in
            elim (Bool-cases (key == conn_key c ip)) [
              | inr other ↦ rw other (ground arith)
              | inl same ↦
                  rw
                    (
                      round_trip_ok (r.set_nx key j t ∷ []) (r.set_nx_reply key) w a,
                      answered_reaches w a,
                      r.set_nx_reply_lem,
                      (eq_iff _ _).0 same,
                    )
                    (omega arith)
            ]
      ]

  event-won : (e : Event) (w : World r) → won r i c ip e w ≤ placed r i c ip e w
  unfolding won placed
  event-won (does (registers j c' ip' t)) w = register-won j c' ip' t w
  event-won _ w = omega arith

  event-told : (e : Event) (w : World r) → placed r i c ip e w ≤ won r i c ip e w + lost r e w
  unfolding won placed lost
  event-told (does (registers j c' ip' t)) w = register-told j c' ip' t w
  event-told _ w = omega arith

  -- However the operations of the stores follow each other, for any requests of any instances, wherever
  -- connections break, and whatever time passes: the registrations of an instance for a client and an
  -- address that reach Redis while no stream is registered there, and the one that stands at the start,
  -- are as many as those that a deletion, a deletion by the owner, a refresh without a time to live or
  -- the end of the time to live takes away, and the one that stands at the end; and the instance is
  -- told no more often that it has registered, and no less often but for the registrations whose
  -- request broke. The keys hold the kinds of values that the program gives them.
  pub admitted-balance :
      (es : List Event) (w : World r)
      → Typed r w.db
      → (times r (placed r i c ip) es w + standing r i c ip w.db
          ≡ times r (over r i c ip) es w + standing r i c ip (after_all r es w).db)
        × (times r (won r i c ip) es w ≤ times r (placed r i c ip) es w)
        × (times r (placed r i c ip) es w ≤ times r (won r i c ip) es w + times r (lost r) es w)
  unfolding times after_all
  admitted-balance [] w h = (refl, omega arith, omega arith)
  admitted-balance (e ∷ es) w h =
      let (here, typed) = event-balances e w h in
      let (rest, fewer, heard) = admitted-balance es (after r e w) typed in
      let less = event-won e w in
      let told = event-told e w in
      (omega (arith, here, rest), omega (arith, fewer, less), omega (arith, heard, told))
