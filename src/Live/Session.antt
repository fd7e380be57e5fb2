-- ===== src/Live/Session.antt =====
-- The two loops of a socket in src/ws/session.rs: what is forwarded live, and the answer to a
-- RESUME. Serialisation is left out, and a frame stands for its JSON.
use agro.Base.{
  ℕ, Bool, true, false, List, [], ◌∷◌, map, Option, none, some, Text, length, if◌then◌else◌,
}
use agro.Live.{WsMessage, is_for, seq_or_zero}
use agro.Live.Channels.{Channels, hub_replay_after}

pub data Frame : Type 0 where
  resumed_frame : (from replayed : ℕ) → (resync_required : Bool) → Frame
  message : WsMessage → Frame

-- What a receiver of a channel answers.
pub data Received : Type 0 where
  arrived : WsMessage → Received
  lagged closed : Received

-- One round of the live loop: the frame it sends, if any, and whether it goes on.
unfoldable pub forward : Received → Option Text → Option Text → Option Frame × Bool
unfolding is_for
forward (arrived msg) username device =
    if is_for msg username device then (some (message msg), true) else (none, true)
forward lagged username device = (some (resumed_frame 0 0 true), true)
forward closed username device = (none, false)

-- `missed.as_ref().map(Vec::len).unwrap_or(0)`, and the messages of the answer.
unfoldable pub answer : ℕ → Option (List WsMessage) → List Frame
answer after_seq none = resumed_frame after_seq 0 true ∷ []
answer after_seq (some missed) = resumed_frame after_seq (length missed) false ∷ map message missed

-- The frames that answer a RESUME from the position; a frame without one counts as zero.
unfoldable pub on_resume :
    Channels → ℕ → Option ℕ → Option Text → Option Text → Channels × List Frame
unfolding hub_replay_after answer
on_resume c now last_seq username device =
    let after_seq = seq_or_zero last_seq in
    let replayed = hub_replay_after c now after_seq username device in
    (replayed.0, answer after_seq replayed.1)
