-- ===== src/Mqtt/Requests/Answers.antt =====
-- wotpy/protocols/mqtt/client.py: what an invocation that returns gives.
use wot_py.Prelude.{String, ◌≡◌}
use wot_py.Json.{Json, null, text, object, Members}
use wot_py.Mqtt.Handlers.{member_or_null}

-- The answers that `invoke_action` gives back, and what it gives for them.
abbrev pub IsAnswer : String → Json → Json → Type 0
IsAnswer id answer v =
    (ms : Members) × (answer ≡ object ms)
    × (member_or_null "id" ms ≡ text id)
    × (member_or_null "error" ms ≡ null)
    × (member_or_null "result" ms ≡ v)
