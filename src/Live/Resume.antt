-- ===== src/Live/Resume.antt =====
-- What a resuming socket is handed: `replay_after` of src/ws/hub.rs.
use agro.Base.{
  ℕ, ◌+◌, ◌%◌, ◌<◌, ◌^◌, ◌++◌, ◌≡◌, ◌⊎◌, ◌&&◌, ◌||◌, refl, ap, ◌∙◌, Bool, List, [], ◌∷◌, Option,
  none, some, inl, inr, arith, Text, Option-cases, Bool-cases, leb, length, length-append,
  All-append, All-map, IsAscending, IsAscending-append, same_comm, select, select-pointwise,
  order_by, order_by-select, order_by-select_one, to_lowercase,
}
use mathlib.Core.List.{append-nil}
use agro.Live.{is_for, is_later, WsMessage, Replay, expire, is_for, is_later}
use agro.Live.Channels.{
  hub_replay_after, Channels, key, stamp, publish, publish_to, replay_after, after_global,
  extend_found, hub_replay_after, sweep, seq_rank,
}
use agro.Live.Buffer.{
  Holds-empty, Holds-push, Holds-other, Holds, Holds-expire, Holds-nothing, after-Holds, later_and,
}
use agro.Live.Table.{or_empty}
use agro.Live.Buffer.{Holds, Holds-expire, Holds-nothing, after-Holds, later_and}
use agro.Live.Table.{or_empty}
use agro.Live.Stream.{
  BufferLaw, expire_global-Buffers, Buffers, Runs-Buffers, for_everyone, for_account, Runs, Buffers,
  Numbered, Runs-Buffers, for_everyone, for_account,
}
use agro.Live.Stream.Runs.{boot, published, swept, resumed, subscribed}

extend_found-next_seq :
    (c : Channels) (now after_seq : ℕ) (user : Text) (wanted : WsMessage → Bool)
    (found : List WsMessage) (replay : Option Replay)
    → (extend_found c now after_seq user wanted found replay).0.next_seq ≡ c.next_seq
unfolding extend_found
extend_found-next_seq c now after_seq user wanted found none = refl
extend_found-next_seq c now after_seq user wanted found (some r) = refl

after_global-next_seq :
    (c : Channels) (now after_seq : ℕ) (username : Option Text) (wanted : WsMessage → Bool)
    (found : Option (List WsMessage))
    → (after_global c now after_seq username wanted found).0.next_seq ≡ c.next_seq
unfolding after_global
after_global-next_seq c now after_seq username wanted none = refl
after_global-next_seq c now after_seq none wanted (some found) = refl
after_global-next_seq c now after_seq (some name) wanted (some found) =
    extend_found-next_seq c now after_seq (key name) wanted found _

replay_after-next_seq :
    (c : Channels) (now after_seq : ℕ) (username : Option Text) (wanted : WsMessage → Bool)
    → (replay_after c now after_seq username wanted).0.next_seq ≡ c.next_seq
unfolding replay_after
replay_after-next_seq c now after_seq username wanted =
    elim (Bool-cases (leb c.next_seq after_seq)) [
      | inl e ↦ rw e refl
      | inr e ↦ rw e (after_global-next_seq _ now after_seq username wanted _)
    ]

publish_to-next_seq :
    (c : Channels) (now : ℕ) (msg : WsMessage) (to : Option Text)
    → (publish_to c now msg to).0.next_seq ≡ c.next_seq
unfolding publish_to
publish_to-next_seq c now msg none = refl
publish_to-next_seq c now msg (some user_id) = refl

Numbered-published :
    (log : List WsMessage) (c c' : Channels) (msg : WsMessage)
    → length log + 2 < 2 ^ 64
    → c'.next_seq ≡ (c.next_seq + 1) % 2 ^ 64
    → Numbered log c
    → Numbered (log ++ stamp c msg ∷ []) c'
Numbered-published log c c' msg room e n =
    let up : c'.next_seq ≡ c.next_seq + 1 = omega (arith, n.counted) in
    record {
      counted = omega (arith, n.counted, length-append log (stamp c msg ∷ []));
      ascending =
          IsAscending-append seq_rank log (stamp c msg) n.ascending
            (All-map _ _ log (λ m h. omega arith) n.below);
      below =
          All-append _ log (stamp c msg ∷ []) (All-map _ _ log (λ m h. omega arith) n.below)
            (omega arith, tt);
    }

Numbered-same :
    (log : List WsMessage) (c c' : Channels)
    → c'.next_seq ≡ c.next_seq
    → Numbered log c
    → Numbered log c'
Numbered-same log c c' e n = record {
  counted = e ∙ n.counted;
  ascending = n.ascending;
  below = All-map _ _ log (λ m h. omega arith) n.below;
}

-- Positions are handed out from one on, in the order of publication, until the counter wraps.
pub Runs-Numbered :
    {log : List WsMessage} {c : Channels} → Runs log c → length log + 1 < 2 ^ 64 → Numbered log c
unfolding publish sweep
Runs-Numbered boot room = record { counted = refl; ascending = tt; below = tt }
Runs-Numbered (published {log} {c} runs now msg) room =
    let grown = length-append log (stamp c msg ∷ []) in
    Numbered-published log c _ msg (omega arith)
      (publish_to-next_seq _ now (stamp c msg) msg.user_id) (Runs-Numbered runs (omega arith))
Runs-Numbered (swept {log} {c} runs now) room = Numbered-same log c _ refl (Runs-Numbered runs room)
Runs-Numbered (resumed {log} {c} runs now after_seq username wanted) room =
    Numbered-same log c _ (replay_after-next_seq c now after_seq username wanted)
      (Runs-Numbered runs room)
Runs-Numbered (subscribed {log} {c} runs username) room =
    Numbered-same log c _ refl (Runs-Numbered runs room)

Holds-law : BufferLaw Holds
Holds-law = record {
  starts = Holds-empty;
  expires = Holds-expire;
  pushes = Holds-push;
  passes = Holds-other;
}

-- The messages that the socket has not seen: published after its position, and for it.
abbrev pub missed : List WsMessage → ℕ → Option Text → Option Text → List WsMessage
missed log after_seq username device =
    select (λ m. is_later after_seq m && is_for m username device) log

-- Without an account a socket sees what is for everyone, and with one what is for the account too.
is_for-none :
    (m : WsMessage) (device : Option Text)
    → for_everyone m && is_for m none device ≡ is_for m none device
unfolding is_for
is_for-none m device = ground arith

is_for-some :
    (name : Text) (m : WsMessage) (device : Option Text)
    → (for_everyone m || for_account (key name) m) && is_for m (some name) device
      ≡ is_for m (some name) device
unfolding is_for key
is_for-some name m device = elim (Option-cases m.user_id) [
  | inl e ↦ rw e refl
  | inr (target, e) ↦ rw (e, same_comm (to_lowercase name) (to_lowercase target)) (ground arith)
]

module _ (log : List WsMessage) (up : IsAscending seq_rank log) (after_seq : ℕ)
    (device : Option Text) where
  abbrev wanted : Option Text → WsMessage → Bool
  wanted username m = is_for m username device

  abbrev selected : Option Text → (WsMessage → Bool) → List WsMessage
  selected username p = select (λ m. p m && later_and after_seq (wanted username) m) log

  sorted_none : order_by seq_rank (selected none for_everyone) ≡ missed log after_seq none device
  sorted_none =
      order_by-select_one seq_rank _ log up
      ∙ select-pointwise _ _ log (λ m. ground (arith, is_for-none m device))

  -- Everyone's messages and the account's, sorted by position, are the missed ones.
  sorted_some :
      (name : Text)
      → order_by seq_rank
          (selected (some name) for_everyone ++ selected (some name) (for_account (key name)))
        ≡ missed log after_seq (some name) device
  sorted_some name =
      order_by-select seq_rank _ _ log (λ m. ground arith) up
      ∙ select-pointwise _ _ log (λ m. ground (arith, is_for-some name m device))

  -- Nothing, or exactly what was missed.
  abbrev IsExact : Option Text → Option (List WsMessage) → Type 0
  IsExact username answer = (answer ≡ none) ⊎ (answer ≡ some (missed log after_seq username device))

  extend_found-IsExact :
      (c : Channels) (now : ℕ) (name : Text) (replay : Option Replay)
      → Holds (for_account (key name)) (or_empty replay) log
      → IsExact
          (some name)
          (extend_found c now after_seq
            (key name)
            (wanted (some name))
            (selected (some name) for_everyone)
            replay).1
  unfolding extend_found
  extend_found-IsExact c now name none h =
      let nothing = Holds-nothing (for_account (key name)) log after_seq (wanted (some name)) h in
      inr (ap some (rw (nothing, append-nil) at (sorted_some name)))
  extend_found-IsExact c now name (some r) h =
      elim (after-Holds _ (expire now r) log after_seq (wanted (some name))
        (Holds-expire _ now r log h)) [
          | inl e ↦ rw e (inl refl)
          | inr e ↦ rw e (inr (ap some (sorted_some name)))
        ]

  after_global-IsExact :
      (c : Channels) (now : ℕ) (username : Option Text)
      → Buffers Holds log c
      → IsExact username
          (after_global c now after_seq username
            (wanted username)
            (some (selected username for_everyone))).1
  unfolding after_global
  after_global-IsExact c now none b = inr (ap some sorted_none)
  after_global-IsExact c now (some name) b =
      extend_found-IsExact c now name _ (b.accounts (key name))

  hub_replay_after-IsExact :
      (c : Channels) (now : ℕ) (username : Option Text)
      → Buffers Holds log c
      → IsExact username (hub_replay_after c now after_seq username device).1
  unfolding hub_replay_after replay_after
  hub_replay_after-IsExact c now username b = elim (Bool-cases (leb c.next_seq after_seq)) [
    | inl e ↦ rw e (inl refl)
    | inr e ↦
        rw e
          (elim (after-Holds for_everyone (expire now c.global_replay) log after_seq
            (wanted username) (Holds-expire _ now _ log b.global)) [
              | inl k ↦ rw k (unfold after_global in inl refl)
              | inr k ↦ rw k (
                  after_global-IsExact _ now username (expire_global-Buffers Holds-law log c b now))
            ])
  ]

-- After any run of publications, sweeps and resumes in which the counter has not wrapped, a socket
-- that resumes is either told to resynchronise or handed exactly the messages published after its
-- position that are for it, each once and in the order of publication.
pub hub_replay_after_exact :
    (log : List WsMessage) (c : Channels) (now after_seq : ℕ) (username device : Option Text)
    → Runs log c
    → length log + 1 < 2 ^ 64
    → ((hub_replay_after c now after_seq username device).1 ≡ none)
      ⊎ ((hub_replay_after c now after_seq username device).1
          ≡ some (missed log after_seq username device))
hub_replay_after_exact log c now after_seq username device runs room =
    hub_replay_after-IsExact log (Runs-Numbered runs room).ascending after_seq device c now username
      (Runs-Buffers Holds-law runs)
