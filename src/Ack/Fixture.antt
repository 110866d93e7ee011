-- ===== src/Ack/Fixture.antt =====
-- JetStream in memory: the parameter can be met.
use Prim.Native.String.{◌++◌ as ◌<>◌}
use text.Mathlib.TextLemmas.{append_cancel_left, append_assoc}
use scorpion.Prelude.{
  ℕ, zero, suc, String, ◌≡◌, refl, sym, ap, ◌∙◌, Bool, true, false, Bool-cases, inl, inr, ◌==◌,
  eq_iff, List, ◌∷◌, ◌++◌, Result, ok, err, length, if◌then◌else◌,
}
use scorpion.Ack.{JetStream, any_of}

-- How many publishes are still refused, the filters of the streams, and what is stored.
pub record State : Type 0 where
  pub refusing : ℕ
  pub filters : List String
  pub stored : List (String × String)

abbrev heard : String → List String → Bool
heard subject fs = any_of (λ f. f == subject) fs

abbrev accept : String → String → ℕ → State → Result ℕ × State
accept subject payload zero s =
    (ok (suc (length s.stored)), record s { stored = (subject, payload) ∷ s.stored })
accept subject payload (suc n) s = (err "timeout", record s { refusing = n })

abbrev publish : String → String → ℕ → State → Result ℕ × State
publish subject payload t s =
    if heard subject s.filters
    then accept subject payload s.refusing s
    else (err "no response from stream", s)

accept-stored :
    (subject payload : String) (k : ℕ) (s : State) {n : ℕ}
    → (accept subject payload k s).0 ≡ ok n
    → (accept subject payload k s).1.stored ≡ (subject, payload) ∷ s.stored
accept-stored subject payload zero s e = refl
accept-stored subject payload (suc m) s e = cc

accept-filters :
    (subject payload : String) (k : ℕ) (s : State)
    → (accept subject payload k s).1.filters ≡ s.filters
accept-filters subject payload zero s = refl
accept-filters subject payload (suc m) s = refl

pub publish-stored_lem :
    (subject payload : String) (t : ℕ) (s : State) {n : ℕ}
    → (publish subject payload t s).0 ≡ ok n
    → (publish subject payload t s).1.stored ≡ (subject, payload) ∷ s.stored
publish-stored_lem subject payload t s e = elim (Bool-cases (heard subject s.filters)) [
  | inl covered ↦ rw covered (accept-stored subject payload s.refusing s (rw covered at e))
  | inr lost ↦ cc (rw lost at e)
]

pub publish-filters_lem :
    (subject payload : String) (t : ℕ) (s : State)
    → (publish subject payload t s).1.filters ≡ s.filters
publish-filters_lem subject payload t s = elim (Bool-cases (heard subject s.filters)) [
  | inl covered ↦ rw covered (accept-filters subject payload s.refusing s)
  | inr lost ↦ rw lost refl
]

pub publish_unheard_lem :
    (subject payload : String) (t : ℕ) (s : State)
    → heard subject s.filters ≡ false
    → (e : String) × ((publish subject payload t s).0 ≡ err e)
      × ((publish subject payload t s).1.stored ≡ s.stored)
publish_unheard_lem subject payload t s lost =
    ("no response from stream", rw lost refl, rw lost refl)

longer : ((".>" <> ".>") == ".>") ≡ false
longer = refl

pub matches_below_lem : (prefix : String) → ((prefix <> ".>") == prefix) ≡ false
matches_below_lem prefix = elim (Bool-cases ((prefix <> ".>") == prefix)) [
  | inr differ ↦ differ
  | inl same ↦
      let once : prefix <> ".>" ≡ prefix = (eq_iff _ _).0 same in
      let twice : prefix <> (".>" <> ".>") ≡ prefix <> ".>" =
        sym (append_assoc prefix ".>" ".>") ∙ ap (λ z. z <> ".>") once in
      cc (
        longer,
        (eq_iff (".>" <> ".>") ".>").1 (append_cancel_left prefix (".>" <> ".>") ".>" twice),
      )
]

-- A server whose streams have the filters of the state; a filter is a subject, without wildcards.
abbrev pub in_memory : JetStream
in_memory = record {
  Js = State;
  is_connected = λ _. true;
  jetstream_context = λ _. ok tt;
  publish = publish;
  stream_exists = λ _ s. false;
  add_stream = λ _ fs s. (ok tt, record s { filters = fs ++ s.filters });
  filters = λ s. s.filters;
  matches = λ f subject. f == subject;
  drain = λ s. s;
  stored = λ s. s.stored;
  stored-publish = λ subject payload t s e. publish-stored_lem subject payload t s e;
  filters-add_stream = λ name fs s e. refl;
  filters-publish = publish-filters_lem;
  publish_unheard = publish_unheard_lem;
  matches_below = matches_below_lem;
}
