-- ===== src/Stream/Frame/Fields.antt =====
-- What a frame of loop.go says of its fields.
use Prim.Native.String.{String, ◌++◌}
use text.Mathlib.TextLemmas.{append_assoc, append_cancel_left, append_cancel_right}
use scorpion.Prelude.{◌≡◌}
use scorpion.Prelude.Texts.{Avoids, newline, split_at_newline}
use scorpion.Stream.Frame.{frame}

-- Where ids and event types contain no newline, the frame determines the id, the type and the data.
pub frame_inj :
    (id id' type type' body body' : String)
    → Avoids newline id
    → Avoids newline id'
    → Avoids newline type
    → Avoids newline type'
    → frame id type body ≡ frame id' type' body'
    → (id ≡ id') × (type ≡ type') × (body ≡ body')
unfolding frame
frame_inj id id' type type' body body' p p' q q' e =
    let (ids, rest) = split_at_newline id id' _ _ p p' (append_cancel_left "id: " _ _ e) in
    let (types, data_line) =
      split_at_newline type type' _ _ q q' (append_cancel_left "event: " _ _ rest) in
    (ids, types, append_cancel_right body body' "\n\n" (append_cancel_left "data: " _ _ data_line))

-- An event type is written as it is: one that contains the lines of other fields makes one event
-- read as two, the second with whatever id, type and data the first one's producer chose.
pub frame_injection :
    (id type body id' type' body' : String)
    → frame id
        (type ++ "\n" ++ "data: " ++ body ++ "\n\n" ++ "id: " ++ id' ++ "\n" ++ "event: " ++ type')
        body'
      ≡ frame id type body ++ frame id' type' body'
unfolding frame
frame_injection id type body id' type' body' = simp append_assoc
