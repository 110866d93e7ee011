-- ===== src/Stream/Frame.antt =====
-- loop.go, `writeSSEEvent`, and heartbeat.go: the texts that are written. The pooled buffer is reset
-- before use, so a frame is a function of its arguments.
pub mod Fields
pub mod Beats
use Prim.Native.String.{String, ◌++◌}

unfoldable pub frame : String → String → String → String
frame id event_type body =
    "id: " ++ id ++ "\n" ++ "event: " ++ event_type ++ "\n" ++ "data: " ++ body ++ "\n\n"

-- The time, in seconds of the Unix clock, is a decimal text.
unfoldable pub heartbeat : String → String
heartbeat now = ": heartbeat " ++ now ++ "\n\n"
