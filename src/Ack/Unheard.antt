-- ===== src/Ack/Unheard.antt =====
-- nats_publisher.go: the stream that `NewNATSPublisher` creates, and the subject that `Publish` sends to.
use Prim.Native.String.{◌++◌ as ◌<>◌}
use scorpion.Prelude.{
  ℕ, zero, suc, String, ◌≡◌, refl, ap, ◌∙◌, ◌++◌, false, List, Option, none, some, [], ◌∷◌, Result,
  ok, err,
}
use scorpion.Config.{Nats}
use scorpion.Domain.{AckRecord}
use scorpion.Json.{Json}
use scorpion.Ack.{
  JetStream, NatsPublisher, any_of, attempts, nats_publish, new_nats_publisher, with_context,
  configured,
}

module _ (js : JetStream) where
  -- No stream would store a message to the subject.
  abbrev Unheard : String → js.Js → Type 0
  Unheard subject s = any_of (λ f. js.matches f subject) (js.filters s) ≡ false

  -- An error is answered, nothing is stored, and nothing will be heard.
  abbrev Lost : String → js.Js → Result ℕ × js.Js → Type 0
  Lost subject s x =
      ((e : String) × (x.0 ≡ err e)) × (js.stored x.1 ≡ js.stored s) × Unheard subject x.1

  attempts-Lost :
      (p : NatsPublisher) (payload : String) (n : ℕ) (last_err : String) (s : js.Js)
      → Unheard p.subject s
      → Lost p.subject s (attempts js p payload n last_err s)
  unfolding attempts
  attempts-Lost p payload zero last_err s h = ((_, refl), refl, h)
  attempts-Lost p payload (suc n) last_err s h =
      let (why, refused, kept) = js.publish_unheard p.subject payload p.timeout_ms s h in
      let s' = (js.publish p.subject payload p.timeout_ms s).1 in
      let still : Unheard p.subject s' =
        ap (any_of (λ f. js.matches f p.subject))
          (js.filters-publish p.subject payload p.timeout_ms s)
        ∙ h in
      let ((e, failed), same, deaf) = attempts-Lost p payload n why s' still in
      (
        (e, rw (refused, attempts) failed),
        rw (refused, attempts) (same ∙ kept),
        rw (refused, attempts) deaf,
      )

  publish-Lost :
      (json : Json) (p : NatsPublisher) (entry : AckRecord) (s : js.Js) (o : Option String)
      → json.marshal_ack entry ≡ o
      → Unheard p.subject s
      → Lost p.subject s (nats_publish js json p entry s)
  unfolding nats_publish
  publish-Lost json p entry s none m h = rw (m, nats_publish) ((("ack marshal", refl), refl, h))
  publish-Lost json p entry s (some payload) m h =
      rw (m, nats_publish) (attempts-Lost p payload (suc p.max_retries) "" s h)

  -- Records that are published one after another: the answers, and the state after all of them.
  unfoldable pub publishes : Json → NatsPublisher → List AckRecord → js.Js → List (Result ℕ) × js.Js
  publishes json p [] s = ([], s)
  publishes json p (entry ∷ entries) s =
      let (answer, s') = nats_publish js json p entry s in
      let (answers, s'') = publishes json p entries s' in (answer ∷ answers, s'')

  abbrev pub AllErrors : List (Result ℕ) → Type 0
  AllErrors [] = Unit
  AllErrors (answer ∷ answers) = ((e : String) × (answer ≡ err e)) × AllErrors answers

  publishes-Lost :
      (json : Json) (p : NatsPublisher) (entries : List AckRecord) (s : js.Js)
      → Unheard p.subject s
      → AllErrors (publishes json p entries s).0
        × (js.stored (publishes json p entries s).1 ≡ js.stored s)
  unfolding publishes
  publishes-Lost json p [] s h = (tt, refl)
  publishes-Lost json p (entry ∷ entries) s h =
      let (failed, kept, deaf) = publish-Lost json p entry s (json.marshal_ack entry) refl h in
      let (all, same) = publishes-Lost json p entries (nats_publish js json p entry s).1 deaf in
      ((failed, all), same ∙ kept)

  configured-subject :
      (cfg : Nats) (p : NatsPublisher) (x : Result (Unit {0}) × js.Js)
      → (configured js cfg x).0 ≡ ok p
      → (x.0 ≡ ok tt) × (p.subject ≡ cfg.subject_prefix) × ((configured js cfg x).1 ≡ x.1)
  unfolding configured
  configured-subject cfg p (err e, s) h = cc
  configured-subject cfg p (ok _, s) h = (refl, cc, refl)

  created-Unheard :
      (cfg : Nats) (p : NatsPublisher) (s : js.Js) (c : Result (Unit {0}))
      → js.filters s ≡ []
      → js.stream_exists cfg.stream_name s ≡ false
      → (with_context js cfg s c).0 ≡ ok p
      → Unheard p.subject (with_context js cfg s c).1
  unfolding with_context
  created-Unheard cfg p s (err e) none_yet missing h = cc
  created-Unheard cfg p s (ok _) none_yet missing h =
      let fs = (cfg.subject_prefix <> ".>") ∷ [] in
      let (added, subject, same) =
        configured-subject cfg p (js.add_stream cfg.stream_name fs s) (rw missing at h) in
      let now : js.filters (js.add_stream cfg.stream_name fs s).1 ≡ fs =
        js.filters-add_stream cfg.stream_name fs s added ∙ ap (λ z. fs ++ z) none_yet in
      rw (missing, same, now, subject, js.matches_below cfg.subject_prefix) refl

  -- On a server without streams the publisher that `NewNATSPublisher` makes publishes nothing: the
  -- stream that it creates is for the subjects below the prefix, `Publish` sends to the prefix itself,
  -- and so, whatever records are published one after another, every one is answered with an error,
  -- however often it is tried, and none is stored in any stream.
  pub stream_unheard :
      (json : Json) (cfg : Nats) (p : NatsPublisher) (entries : List AckRecord) (s : js.Js)
      → js.filters s ≡ []
      → js.stream_exists cfg.stream_name s ≡ false
      → (new_nats_publisher js cfg s).0 ≡ ok p
      → let made = (new_nats_publisher js cfg s).1 in
        AllErrors (publishes json p entries made).0
        × (js.stored (publishes json p entries made).1 ≡ js.stored made)
  unfolding new_nats_publisher
  stream_unheard json cfg p entries s none_yet missing made =
      publishes-Lost json p entries (new_nats_publisher js cfg s).1
        (created-Unheard cfg p s (js.jetstream_context s) none_yet missing made)
