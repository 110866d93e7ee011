-- ===== src/Repository/Commands/Reached.antt =====
-- Keyspaces that commands of a kind lead to.
use scorpion.Prelude.{ℕ, zero, suc, ◌≡◌, refl, sym, ap, ◌∙◌, subst, List, [], ◌∷◌, ◌++◌, take}
use scorpion.Redis.{Redis}
use scorpion.World.{Outcome, answered, broken, World}
use scorpion.World.Trips.{ran}
use scorpion.World.Typed.{Typed}
use scorpion.Repository.Commands.{Command, exec, exec_all}
use scorpion.Repository.Commands.Sent.{Operation, commands, perform, perform_sent}
use scorpion.Repository.Commands.Typed.{exec-Typed}

abbrev pub AllAllowed : (Command → Type 0) → List Command → Type 0
AllAllowed Allowed [] = Unit
AllAllowed Allowed (cmd ∷ cmds) = Allowed cmd × AllAllowed Allowed cmds

module _ (r : Redis) where
  exec_all-append :
      (cmds more : List Command) (d : r.Db)
      → exec_all r (cmds ++ more) d ≡ exec_all r more (exec_all r cmds d)
  unfolding exec_all
  exec_all-append [] more d = refl
  exec_all-append (cmd ∷ cmds) more d = exec_all-append cmds more (exec r cmd d)

  pub exec_all-Typed : (cmds : List Command) (d : r.Db) → Typed r d → Typed r (exec_all r cmds d)
  unfolding exec_all
  exec_all-Typed [] d t = t
  exec_all-Typed (cmd ∷ cmds) d t = exec_all-Typed cmds (exec r cmd d) (exec-Typed r cmd d t)

  module _ (Allowed : Command → Type 0) where
    -- Allowed commands, one after the other, make the second keyspace of the first.
    pub record Reached (d d' : r.Db) : Type 0 where
      pub cmds : List Command
      pub allowed : AllAllowed Allowed cmds
      pub result : d' ≡ exec_all r cmds d

    allowed-append :
        (cmds more : List Command)
        → AllAllowed Allowed cmds
        → AllAllowed Allowed more
        → AllAllowed Allowed (cmds ++ more)
    allowed-append [] more h k = k
    allowed-append (cmd ∷ cmds) more h k = (h.0, allowed-append cmds more h.1 k)

    allowed-take :
        (n : ℕ) (cmds : List Command) → AllAllowed Allowed cmds → AllAllowed Allowed (take n cmds)
    allowed-take zero cmds h = tt
    allowed-take (suc n) [] h = tt
    allowed-take (suc n) (cmd ∷ cmds) h = (h.0, allowed-take n cmds h.1)

    allowed-ran :
        (os : List Outcome) (cmds : List Command)
        → AllAllowed Allowed cmds
        → AllAllowed Allowed (ran os cmds)
    allowed-ran [] cmds h = h
    allowed-ran (answered ∷ _) cmds h = h
    allowed-ran (broken n _ ∷ _) cmds h = allowed-take n cmds h

    pub Reached-refl : (d : r.Db) → Reached d d
    unfolding exec_all
    Reached-refl d = record { cmds = []; allowed = tt; result = refl }

    pub Reached-one : (cmd : Command) (d : r.Db) → Allowed cmd → Reached d (exec r cmd d)
    unfolding exec_all
    Reached-one cmd d h = record { cmds = cmd ∷ []; allowed = (h, tt); result = refl }

    pub Reached-trans : {d d' d'' : r.Db} → Reached d d' → Reached d' d'' → Reached d d''
    Reached-trans {d} p q = record {
      cmds = p.cmds ++ q.cmds;
      allowed = allowed-append p.cmds q.cmds p.allowed q.allowed;
      result = q.result ∙ ap (exec_all r q.cmds) p.result ∙ sym (exec_all-append p.cmds q.cmds d);
    }

    pub Reached-Typed : {d d' : r.Db} → Reached d d' → Typed r d → Typed r d'
    Reached-Typed {d} p t = subst (λ z. Typed r z) (sym p.result) (exec_all-Typed p.cmds d t)

    -- An operation of the stores, wherever its connection breaks.
    pub perform-Reached :
        (op : Operation) {d : r.Db} (w : World r)
        → AllAllowed Allowed (commands op)
        → Reached d w.db
        → Reached d (perform op w).db
    perform-Reached op w h p = Reached-trans p (record {
      cmds = ran w.outcomes (commands op);
      allowed = allowed-ran w.outcomes (commands op) h;
      result = perform_sent r op w;
    })

  allowed-widened :
      (Allowed Wider : Command → Type 0) (cmds : List Command)
      → ((cmd : Command) → Allowed cmd → Wider cmd)
      → AllAllowed Allowed cmds
      → AllAllowed Wider cmds
  allowed-widened Allowed Wider [] widen h = tt
  allowed-widened Allowed Wider (cmd ∷ cmds) widen h =
      (widen cmd h.0, allowed-widened Allowed Wider cmds widen h.1)

  pub Reached-widened :
      {Allowed Wider : Command → Type 0} {d d' : r.Db}
      → ((cmd : Command) → Allowed cmd → Wider cmd)
      → Reached Allowed d d'
      → Reached Wider d d'
  Reached-widened {Allowed} {Wider} widen p = record {
    cmds = p.cmds;
    allowed = allowed-widened Allowed Wider p.cmds widen p.allowed;
    result = p.result;
  }
