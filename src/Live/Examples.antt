-- ===== src/Live/Examples.antt =====
-- Sockets that resume.
use agro.Base.{
  arith, ◌*◌, ℕ, ◌++◌, ◌≡◌, ◌⊎◌, refl, true, false, [], ◌∷◌, List, Option, none, some, Text, codes,
  same, select, to_lowercase, to_ascii_lowercase, order_by, insert_by,
}
use agro.Live.{WsMessage, push, expire_loop, shrink_loop, after, is_for}
use agro.Live.Channels.{
  Channels, new, key, publish, publish_to, stamp, entry_or_default, get, get_mut, replay_after,
  after_global, extend_found, hub_replay_after, sweep, subscribe_user, to_account, to_nobody,
}
use agro.Live.Session.{on_resume, answer, resumed_frame, message, forward, lagged}
use agro.Live.Stream.{Runs}
use agro.Live.Stream.Runs.{boot, published}
use agro.Live.Resume.{missed, hub_replay_after_exact}
use agro.Live.Return.{Publication, publish_all, stamped}
use agro.Live.Answer.{on_resume_within_window}

program : Unit {0}
unfolding same select to_lowercase to_ascii_lowercase order_by insert_by push expire_loop
    shrink_loop after is_for key publish publish_to entry_or_default get get_mut replay_after
    after_global extend_found hub_replay_after sweep subscribe_user on_resume answer publish_all
    stamped forward
program = tt

abbrev second : ℕ
second = 1_000_000_000

abbrev to : Option Text → Option Text → WsMessage
to user_id device = record {
  msg_type = codes "T";
  payload = codes "{}";
  user_id = user_id;
  target_device = device;
  seq = none;
}

abbrev ana : Text
ana = codes "ana"

abbrev Ana : Text
Ana = codes "Ana"

abbrev bo : Text
bo = codes "bo"

abbrev one : Channels
one = (publish new 0 (to (some Ana) none)).0

abbrev two : Channels
two = (publish one second (to (some bo) none)).0

abbrev three : Channels
three = (publish two (2 * second) (to none none)).0

abbrev log : List WsMessage
log = [] ++ stamp new (to (some Ana) none) ∷ []

abbrev log3 : List WsMessage
log3 = (log ++ stamp one (to (some bo) none) ∷ []) ++ stamp two (to none none) ∷ []

runs : Runs log3 three
runs = published (published (published boot 0 _) second _) (2 * second) _

hub_replay_after_exact_example :
    ((hub_replay_after three (3 * second) 0 (some ana) none).1 ≡ none)
    ⊎ ((hub_replay_after three (3 * second) 0 (some ana) none).1
        ≡ some (missed log3 0 (some ana) none))
hub_replay_after_exact_example =
    hub_replay_after_exact log3 three (3 * second) 0 (some ana) none runs
      (unfold program in omega arith)

-- The account's message and everyone's, but not the other account's.
ana_resumes :
    (on_resume three (3 * second) (some 0) (some ana) none).1
    ≡ resumed_frame 0 2 false
      ∷ message (stamp new (to (some Ana) none))
      ∷ message (stamp two (to none none))
      ∷ []
unfolding program
ana_resumes = refl

-- Once a message has expired, a socket from before it must resynchronise, and one after it not.
ana_late : (on_resume three (31 * second) (some 0) (some ana) none).1 ≡ resumed_frame 0 0 true ∷ []
unfolding program
ana_late = refl

-- A message that only the other account was sent.
bo_late :
    (on_resume three (31 * second) (some 1) (some bo) none).1
    ≡ resumed_frame 1 2 false
      ∷ message (stamp one (to (some bo) none))
      ∷ message (stamp two (to none none))
      ∷ []
unfolding program
bo_late = refl

ahead : (on_resume three (3 * second) (some 500) (some ana) none).1 ≡ resumed_frame 500 0 true ∷ []
unfolding program
ahead = refl

-- A position of the last boot that this boot has handed out again is taken for its own: the first
-- two messages of this boot are not among the answer, and nothing says so.
stale_position :
    (on_resume three (3 * second) (some 2) (some ana) none).1
    ≡ resumed_frame 2 1 false ∷ message (stamp two (to none none)) ∷ []
unfolding program
stale_position = refl

-- A socket that never saw a message is sent what the buffers hold.
never_seen :
    (on_resume one second none (some ana) none).1
    ≡ resumed_frame 0 1 false ∷ message (stamp new (to (some Ana) none)) ∷ []
unfolding program
never_seen = refl

slow : forward lagged (some ana) none ≡ (some (resumed_frame 0 0 true), true)
unfolding program
slow = refl

-- Without a channel the message is only remembered.
routes :
    ((publish new 0 (to (some ana) none)).1 ≡ to_nobody (stamp new (to (some ana) none)))
    × ((publish (record new { users = subscribe_user Ana [] }) 0 (to (some ana) none)).1
        ≡ to_account ana (stamp new (to (some ana) none)))
unfolding program
routes = (refl, refl)

abbrev burst : List Publication
burst =
    record { now = 5 * second; msg = to (some ana) (some (codes "phone")) }
    ∷ record { now = 6 * second; msg = to (some ana) (some (codes "car")) }
    ∷ record { now = 7 * second; msg = to none none }
    ∷ []

on_resume_within_window_example :
    (on_resume (publish_all three burst) (30 * second) (some 3) (some ana) (some (codes "car"))).1
    ≡ resumed_frame 3 2 false
      ∷ message (record (to (some ana) (some (codes "car"))) { seq = some 5 })
      ∷ message (record (to none none) { seq = some 6 })
      ∷ []
on_resume_within_window_example =
    on_resume_within_window log3 three burst (30 * second) ana (some (codes "car"))
      (record (to (some ana) (some (codes "car"))) { seq = some 5 }
        ∷ record (to none none) { seq = some 6 }
        ∷ [])
      runs (unfold program in omega arith) (unfold program in omega arith)
      (unfold program in omega arith) (unfold program in omega arith) (unfold program in refl)
