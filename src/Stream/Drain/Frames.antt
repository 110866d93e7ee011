-- ===== src/Stream/Drain/Frames.antt =====
-- loop.go: the frames of a batch.
use scorpion.Prelude.{ℕ, suc, String, ◌≡◌, refl, Option, none, some, List, [], ◌∷◌, ◌++◌, take}
use scorpion.Domain.{EventPayload}
use scorpion.Json.{Json}
use scorpion.Stream.Drain.{frame_of}

-- The frames of a batch, without the entries that are no events.
abbrev pub with_frame : Option EventPayload → List String → List String
with_frame none fs = fs
with_frame (some e) fs = frame_of e ∷ fs

abbrev pub frames : Json → List String → List String
frames json [] = []
frames json (raw ∷ rest) = with_frame (json.unmarshal_event raw) (frames json rest)

pub frames-append :
    (json : Json) (xs ys : List String) → frames json (xs ++ ys) ≡ frames json xs ++ frames json ys
frames-append json [] ys = refl
frames-append json (raw ∷ xs) ys =
    rw (frames-append json xs ys) (regroup (json.unmarshal_event raw))
  where
    regroup :
        (o : Option EventPayload)
        → with_frame o (frames json xs ++ frames json ys)
          ≡ with_frame o (frames json xs) ++ frames json ys
    regroup none = refl
    regroup (some e) = refl

-- What is written before a batch goes on.
pub take_all_frames :
    (o : Option EventPayload) (fs : List String) (n : ℕ)
    → (m : ℕ) × (with_frame o [] ++ take n fs ≡ take m (with_frame o fs))
take_all_frames none fs n = (n, refl)
take_all_frames (some e) fs n = (suc n, refl)

pub with_frame-append :
    (o : Option EventPayload) (fs : List String) → with_frame o [] ++ fs ≡ with_frame o fs
with_frame-append none fs = refl
with_frame-append (some e) fs = refl
