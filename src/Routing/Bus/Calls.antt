-- ===== src/Routing/Bus/Calls.antt =====
-- The calls that change the bus, and their effect one after the other.
use oacp.Prelude.{ℕ, String, Option, List, [], ◌∷◌}
use oacp.Protocol.Errors.{Result, ok, err}
use oacp.Protocol.Json.{Json}
use oacp.Protocol.Messages.{OacpMessage}
use oacp.Routing.Bus.Defs.{
  Bus, RegisterOptions, register, unregister, close, open_bus, clear_traces, replay_trace_message,
}
use oacp.Routing.Bus.Delivery.{Host, send, send_raw}
use oacp.Routing.Bus.Waiting.{Waiting, wait_for_message, expire}

-- The calls of the public methods that change the bus, and the timers.
pub data Call : Type 0 where
  registers : String → Option ℕ → RegisterOptions → Call
  unregisters : String → Call
  sends : String → OacpMessage → Call
  sends_raw : String → Json → Call
  waits : String → Call
  expires : ℕ → Call
  replays : OacpMessage → Call
  closes opens clears : Call

-- The state after a call of `waitForMessage`, which may throw.
unfoldable pub after_wait : Bus → Result (Waiting × Bus) → Bus
after_wait b (ok (w, next)) = next
after_wait b (err e) = b

unfoldable pub step : Host → Bus → Call → Bus
step host b (registers uri handler o) = register b uri handler o
step host b (unregisters uri) = (unregister b uri).0
step host b (sends at m) = (send host at m b).1
step host b (sends_raw at payload) = (send_raw host at payload b).1
step host b (waits uri) = after_wait b (wait_for_message b uri)
step host b (expires w) = expire w b
step host b (replays m) = replay_trace_message b m
step host b closes = close b
step host b opens = open_bus b
step host b clears = clear_traces b

unfoldable pub run : Host → Bus → List Call → Bus
run host b [] = b
run host b (c ∷ cs) = run host (step host b c) cs
