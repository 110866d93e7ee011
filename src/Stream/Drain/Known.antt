-- ===== src/Stream/Drain/Known.antt =====
-- loop.go: texts that were written, and the events of them that are in flight.
use mathlib.Core.List.{append-nil, append_assoc}
use scorpion.Prelude.{
  ℕ, String, ◌≡◌, refl, sym, ap, subst, some, ◌∙◌, ◌==◌, ◌⊎◌, Bool, true, Bool-cases, inl, inr,
  List, [], ◌∷◌, ◌++◌,
}
use scorpion.Prelude.Int.{ℤ, pos, negsuc, ◌-ℤ◌}
use scorpion.Redis.{Redis, is_some, text, expiry}
use scorpion.Redis.Keyspace.{at-set_self, at-set_ne, at-ltrim_ne}
use scorpion.World.{World}
use scorpion.World.Trips.{quiet_trip}
use scorpion.Domain.{EventPayload}
use scorpion.Metrics.{Metric}
use scorpion.Repository.Keys.{events_key, in_flight_key}
use scorpion.Repository.Keys.Distinct.{in_flight_key-ne-events_key, ne_sym}
use scorpion.Repository.Events
use scorpion.Repository.Events.Queue.{HoldsQueue}
use scorpion.Repository.InFlight
use scorpion.Repository.InFlight.Acks.{in_flight}
use scorpion.Stream.Breaker.{Breaker}
use scorpion.Stream.Frame.{heartbeat}
use scorpion.Stream.Session.{Session}
use scorpion.Stream.Drain.Confined.{drain-Within, register-Within}
use scorpion.Stream.Drain.{frame_of}

-- A key that holds a text with the whole time to live of an event in flight.
abbrev pub Fresh : (r : Redis) → r.Db → String → Type 0
Fresh r d j =
    (v : String) × (r.at d j
      ≡ some (record { value = text v; ttl = expiry InFlight.in_flight_ttl }))

pub Fresh-in_flight :
    (r : Redis) (w : World r) (c e : String)
    → Fresh r w.db (in_flight_key c e)
    → in_flight r w c e ≡ true
Fresh-in_flight r w c e h = ap is_some h.1

-- It stays when any event is registered.
set_stays :
    (r : Redis) (k v : String) (d : r.Db) (j : String)
    → Fresh r d j
    → Fresh r (r.set k v InFlight.in_flight_ttl d) j
set_stays r k v d j there =
    let t = InFlight.in_flight_ttl in
    elim (Bool-cases (k == j)) [
      | inl same ↦ (v, rw (r.at-set k v t d j, same) refl)
      | inr other ↦ (there.0, at-set_ne r k v t d j other ∙ there.1)
    ]

module _ (r : Redis) (c : String) where
  -- A text that was written: a heartbeat, or the frame of an event that is in flight, with the whole
  -- time to live.
  abbrev pub Known : World r → String → Type 0
  Known w t =
      ((s : String) × (t ≡ heartbeat s))
      ⊎ ((e : EventPayload) × (t ≡ frame_of e) × Fresh r w.db (in_flight_key c e.id))

  abbrev pub AllKnown : World r → List String → Type 0
  AllKnown w [] = Unit
  AllKnown w (t ∷ ts) = Known w t × AllKnown w ts

  -- Redis keeps answering, the queue stays a list, and what is in flight stays in flight.
  pub record Lasts (w w' : World r) : Type 0 where
    pub quiet : w'.outcomes ≡ []
    pub list : HoldsQueue r w' c
    pub stays : (e : String) → Fresh r w.db (in_flight_key c e) → Fresh r w'.db (in_flight_key c e)

  pub Lasts-refl : (w : World r) → w.outcomes ≡ [] → HoldsQueue r w c → Lasts w w
  Lasts-refl w q h = record { quiet = q; list = h; stays = λ e t. t }

  Lasts-trans : {w w' w'' : World r} → Lasts w w' → Lasts w' w'' → Lasts w w''
  Lasts-trans p q = record {
    quiet = q.quiet;
    list = q.list;
    stays = λ e t. q.stays e (p.stays e t);
  }

  Known-later : {w w' : World r} → Lasts w w' → (t : String) → Known w t → Known w' t
  Known-later l t (inl beat) = inl beat
  Known-later l t (inr (e, same, there)) = inr (e, same, l.stays e.id there)

  AllKnown-later :
      {w w' : World r} → Lasts w w' → (ts : List String) → AllKnown w ts → AllKnown w' ts
  AllKnown-later l [] h = tt
  AllKnown-later l (t ∷ ts) h = (Known-later l t h.0, AllKnown-later l ts h.1)

  AllKnown-append :
      (w : World r) (ts us : List String) → AllKnown w ts → AllKnown w us → AllKnown w (ts ++ us)
  AllKnown-append w [] us h k = k
  AllKnown-append w (t ∷ ts) us h k = (h.0, AllKnown-append w ts us h.1 k)

  -- From the one session to the other some texts were written, which are known at the end.
  pub record Tracks (x x' : Session r) : Type 0 where
    pub lasts : Lasts x.world x'.world
    pub texts : List String
    pub appended : x'.written ≡ x.written ++ texts
    pub known : AllKnown x'.world texts

  pub Tracks-none :
      (x : Session r) (w : World r) (b : Breaker) (ws : List Bool) (n : ℕ)
      → Lasts x.world w
      → Tracks x (record x { world = w; breaker = b; writes = ws; flushed = n })
  Tracks-none x w b ws n l = record {
    lasts = l;
    texts = [];
    appended = sym (append-nil x.written);
    known = tt;
  }

  pub Tracks-trans : {x y z : Session r} → Tracks x y → Tracks y z → Tracks x z
  Tracks-trans {x} {y} {z} p q = record {
    lasts = Lasts-trans p.lasts q.lasts;
    texts = p.texts ++ q.texts;
    appended =
        q.appended ∙ ap (λ s. s ++ q.texts) p.appended ∙ append_assoc x.written p.texts q.texts;
    known =
        AllKnown-append z.world p.texts q.texts (AllKnown-later q.lasts p.texts p.known) q.known;
  }

  pub drain-Lasts :
      (b : ℤ) (w : World r) → w.outcomes ≡ [] → HoldsQueue r w c → Lasts w (Events.drain c b w).1
  unfolding Events.drain
  drain-Lasts b w q h =
      let k = events_key c in
      let within = drain-Within r c "" b w in
      let db : (Events.drain c b w).1.db ≡ r.ltrim k b (negsuc 0) w.db =
        rw
          (quiet_trip {A = List String × ℕ} ((λ d. d) ∷ r.ltrim k b (negsuc 0) ∷ (λ d. d) ∷ [])
            (λ d. (r.lrange k (pos 0) (b -ℤ pos 1) d, r.llen k (r.ltrim k b (negsuc 0) d))) w q)
          refl in
      record {
        quiet = within.quiet q;
        list = within.keys.queue h;
        stays = λ e t. (
          t.0,
          ap (λ d. r.at d (in_flight_key c e)) db
              ∙ at-ltrim_ne r k b (negsuc 0) w.db (in_flight_key c e) h
                  (ne_sym _ _ (in_flight_key-ne-events_key c e c))
              ∙ t.1,
        );
      }

  pub register-Lasts :
      (e now : String) (w : World r)
      → w.outcomes ≡ []
      → HoldsQueue r w c
      → let after = (InFlight.register c e now w).1 in
        Lasts w after × Fresh r after.db (in_flight_key c e)
  unfolding InFlight.register
  register-Lasts e now w q h =
      let k = in_flight_key c e in
      let t = InFlight.in_flight_ttl in
      let within = register-Within r c "" e now w in
      let db : (InFlight.register c e now w).1.db ≡ r.set k now t w.db =
        rw (quiet_trip (r.set k now t ∷ []) (λ _. tt {0}) w q) refl in
      (
        record {
          quiet = within.quiet q;
          list = within.keys.queue h;
          stays = λ e' there.
              subst (λ d. Fresh r d (in_flight_key c e')) (sym db)
                (set_stays r k now w.db (in_flight_key c e') there);
        },
        (now, ap (λ d. r.at d k) db ∙ at-set_self r k now t w.db),
      )

  -- A counted metric is no change of Redis.
  pub Lasts-counted :
      {w w' : World r} (m : List Metric) → Lasts w w' → Lasts w (record w' { metrics = m })
  Lasts-counted m l = record { quiet = l.quiet; list = l.list; stays = l.stays }
