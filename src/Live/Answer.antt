-- ===== src/Live/Answer.antt =====
-- The frames that a returning socket is sent in answer to its RESUME.
use agro.Base.{
  ◌∙◌, ℕ, ◌+◌, ◌≤◌, ◌<◌, ◌^◌, ◌++◌, ◌≡◌, ap, List, ◌∷◌, Option, some, Text, length, All, map, false,
}
use agro.Live.{WsMessage}
use agro.Live.Channels.{Channels, key, replay_capacity, user_replay_capacity}
use agro.Live.Session.{on_resume, answer, resumed_frame, message}
use agro.Live.Stream.{Runs}
use agro.Live.Return.{
  Publication, publish_all, stamped, IsInWindow, everyone_in, account_in, resume_within_window,
}
use agro.Live.Resume.{missed}

-- A socket of an account that had seen every message, and resumes after a burst of publications
-- that are no older than thirty seconds by then, at most 512 of them for everyone and at most 128
-- for the account, is answered that it need not resynchronise, with the number of messages for it
-- that were published since its position and then exactly these, in the order of publication. It
-- is assumed that the counter of positions does not wrap.
pub on_resume_within_window :
    (log : List WsMessage) (c : Channels) (burst : List Publication) (now : ℕ) (name : Text)
    (device : Option Text) (since : List WsMessage)
    → Runs log c
    → length log + length (stamped c burst) + 1 < 2 ^ 64
    → All (IsInWindow now) (stamped c burst)
    → length (everyone_in (stamped c burst)) ≤ replay_capacity
    → length (account_in (key name) (stamped c burst)) ≤ user_replay_capacity
    → missed (log ++ map (λ h. h.msg) (stamped c burst)) (length log) (some name) device ≡ since
    → (on_resume (publish_all c burst) now (some (length log)) (some name) device).1
      ≡ resumed_frame (length log) (length since) false ∷ map message since
unfolding on_resume answer
on_resume_within_window log c burst now name device since runs room window everyone account e =
    ap (answer (length log)) (
      resume_within_window log c burst now name device runs room window everyone account
      ∙ ap some e)
