-- ===== src/Live.antt =====
-- The messages of src/ws.rs and the replay buffer of src/ws_channels.rs. An instant is a number of
-- nanoseconds; the JSON payload is carried as text and never looked at.
mod Channels
mod Buffer
mod Table
mod Stream
mod Resume
mod Session
mod Window
mod Aged
mod Return
mod Answer
mod Examples
use agro.Base.{
  ℕ, zero, suc, ◌+◌, ◌-◌, ◌*◌, ◌^◌, Bool, true, false, ◌&&◌, List, [], ◌∷◌, ◌++◌, map, Option, none,
  some, Text, same, eq_nocase, select, ltb, if◌then◌else◌, length, to_lowercase,
}

pub record WsMessage : Type 0 where
  pub msg_type : Text
  pub payload : Text
  pub user_id : Option Text
  pub target_device : Option Text
  pub seq : Option ℕ

abbrev pub replay_ttl : ℕ
replay_ttl = 30 * 1_000_000_000

-- A message of a buffer, with the instant it was pushed at.
pub record Held : Type 0 where
  pub at : ℕ
  pub msg : WsMessage

pub record Replay : Type 0 where
  pub messages : List Held
  pub forgotten_through : ℕ

abbrev pub empty_replay : Replay
empty_replay = record { messages = []; forgotten_through = 0 }

abbrev pub max : ℕ → ℕ → ℕ
max a b = if ltb a b then b else a

-- `seq.unwrap_or(0)`
abbrev pub seq_or_zero : Option ℕ → ℕ
seq_or_zero none = 0
seq_or_zero (some s) = s

-- What the buffer has forgotten once its front `h` is popped off as well.
abbrev pub forget_front : Held → ℕ → ℕ
forget_front h forgotten_through = max forgotten_through (seq_or_zero h.msg.seq)

-- The loop of `expire`: the front is forgotten while it is older than the window.
unfoldable pub expire_loop : ℕ → List Held → ℕ → Replay
expire_loop now [] forgotten = record { messages = []; forgotten_through = forgotten }
expire_loop now (h ∷ rest) forgotten =
    let further = expire_loop now rest (forget_front h forgotten) in
    if ltb replay_ttl (now - h.at)
    then further
    else record { messages = h ∷ rest; forgotten_through = forgotten }

abbrev pub expire : ℕ → Replay → Replay
expire now r = expire_loop now r.messages r.forgotten_through

-- The loop of `push`: the front is forgotten while the buffer is over its capacity.
unfoldable pub shrink_loop : ℕ → List Held → ℕ → Replay
shrink_loop capacity [] forgotten = record { messages = []; forgotten_through = forgotten }
shrink_loop capacity (h ∷ rest) forgotten =
    let further = shrink_loop capacity rest (forget_front h forgotten) in
    if ltb capacity (suc (length rest))
    then further
    else record { messages = h ∷ rest; forgotten_through = forgotten }

unfoldable pub push : ℕ → WsMessage → ℕ → Replay → Replay
unfolding expire_loop shrink_loop
push now msg capacity r =
    let kept =
      expire now (record r { messages = r.messages ++ record { at = now; msg = msg } ∷ [] }) in
    shrink_loop capacity kept.messages kept.forgotten_through

-- `seq.is_some_and(|s| s > after_seq)`
abbrev pub is_later : ℕ → WsMessage → Bool
is_later after_seq m = elim m.seq [ none ↦ false | some s ↦ ltb after_seq s ]

unfoldable pub after : Replay → ℕ → (WsMessage → Bool) → Option (List WsMessage)
unfolding select
after r after_seq wanted =
    if ltb after_seq r.forgotten_through
    then none
    else some (select (λ m. is_later after_seq m && wanted m) (map (λ h. h.msg) r.messages))

-- Whether a socket of the account and device sees the message.
abbrev pub is_for_user : Option Text → Option Text → Bool
is_for_user none username = true
is_for_user (some target) none = false
is_for_user (some target) (some name) = eq_nocase name target

abbrev pub is_for_device : Option Text → Option Text → Bool
is_for_device none device = true
is_for_device (some target) (some own) = same target own
is_for_device (some target) none = false

unfoldable pub is_for : WsMessage → Option Text → Option Text → Bool
unfolding same to_lowercase
is_for msg username device =
    is_for_user msg.user_id username && is_for_device msg.target_device device
