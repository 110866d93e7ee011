-- ===== src/Stream/Frame/Beats.antt =====
-- heartbeat.go: a heartbeat is no frame of an event.
use Prim.Native.String.{String, ◌++◌}
use text.Mathlib.TextLemmas.{append_assoc}
use scorpion.Prelude.{◌≡◌, refl, ◌==◌, false}
use scorpion.Repository.Keys.Distinct.{heads_differ}
use scorpion.Stream.Frame.{frame, heartbeat}

pub heartbeat-ne-frame :
    (now id event_type body : String) → (heartbeat now == frame id event_type body) ≡ false
unfolding heartbeat frame
heartbeat-ne-frame now id event_type body =
    let rest = id ++ "\n" ++ "event: " ++ event_type ++ "\n" ++ "data: " ++ body ++ "\n\n" in
    heads_differ ":" "i" (" heartbeat " ++ now ++ "\n\n") ("d: " ++ rest) _ _ refl refl
      (append_assoc ":" " heartbeat " (now ++ "\n\n")) (append_assoc "i" "d: " rest)
