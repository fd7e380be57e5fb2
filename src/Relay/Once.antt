-- ===== src/Relay/Once.antt =====
-- A direct session has one receiver: `receive_relay` of src/relay/download.rs among all that may
-- happen to the sessions.
use agro.Base.{
  ℕ, ◌≡◌, ◌≢◌, refl, subst, Bool, true, false, not, List, [], ◌∷◌, eq_nocase, arith, Option, none,
  some, Text, same, select, update, head?, Bool-cases, inl, inr, All, All-append, All-delete,
  All-update_fits,
}
use mathlib.Core.Option as Option
use agro.Relay.{
  RelayPipe, direct, fanout, RelayChannel, Server, is_session, is_young, get_session, when_young,
  create_session, create_jam_session, insert_session, remove_session,
}
use agro.Relay.Attach.{
  Headers, capture, take_sender, take_receiver, send_relay, send_on, receive_relay, receive_on,
  with_pipe, may_receive, conflict_unless,
}

-- What may happen to the sessions: a session is opened for a device or for a jam, an end attaches,
-- or a session is dropped.
pub data Event : Type 0 where
  open_direct :
      (id : Text) (now : ℕ)
      (receiver_user receiver_device sender_user sender_device content_hash : Text)
      → Event
  open_jam : (id : Text) (now : ℕ) (jam_id sender_user sender_device content_hash : Text) → Event
  send : (user_id id : Text) (now : ℕ) → Headers → Event
  receive : (user_id id : Text) (now : ℕ) → Event
  drop : (id : Text) → Event

unfoldable pub step : Server → Event → Server
step s (open_direct id now ru rd su sd hash) = record s {
  sessions = create_session s.sessions id now ru rd su sd hash;
}
step s (open_jam id now jam su sd hash) = record s {
  sessions = create_jam_session s.sessions id now jam su sd hash;
}
step s (send user_id id now h) = (send_relay s user_id id now h).server
step s (receive user_id id now) = (receive_relay s user_id id now).server
step s (drop id) = record s { sessions = remove_session s.sessions id }

unfoldable pub run : Server → List Event → Server
run s [] = s
run s (e ∷ events) = run (step s e) events

-- The event opens a session under this id.
abbrev pub opens : Text → Event → Bool
opens id (open_direct id' _ _ _ _ _ _) = same id' id
opens id (open_jam id' _ _ _ _ _) = same id' id
opens id _ = false

-- Every session of this id has its receiver's end taken.
abbrev is_taken : RelayPipe → Bool
is_taken (direct sender_free receiver_free) = not receiver_free
is_taken (fanout _) = false

abbrev IsTaken : Text → RelayChannel → Type 0
IsTaken id c = is_session id c ≡ true → is_taken c.pipe ≡ true

abbrev is_direct : RelayPipe → Bool
is_direct (direct _ _) = true
is_direct (fanout _) = false

take_receiver-direct : (p : RelayPipe) → is_direct p ≡ true → is_taken (take_receiver p).0 ≡ true
take_receiver-direct (direct a b) h = refl
take_receiver-direct (fanout a) h = ground arith

take_sender-taken : (p : RelayPipe) → is_taken p ≡ true → is_taken (take_sender p).0 ≡ true
take_sender-taken (direct a b) h = h
take_sender-taken (fanout a) h = h

take_receiver-taken : (p : RelayPipe) → is_taken p ≡ true → is_taken (take_receiver p).0 ≡ true
take_receiver-taken (direct a b) h = refl
take_receiver-taken (fanout a) h = h

All-select_of {ℓ κ} :
    {R : Type ℓ} (P : R → Type κ) (p : R → Bool) (rows : List R)
    → All P rows
    → All P (select p rows)
unfolding select
All-select_of P p [] h = h
All-select_of P p (r ∷ rows) h = elim (Bool-cases (p r)) [
  | inl e ↦ rw e (h.0, All-select_of P p rows h.1)
  | inr e ↦ rw e (All-select_of P p rows h.1)
]

young-All {κ} :
    (P : RelayChannel → Type κ) (sessions : List RelayChannel) (id : Text) (now : ℕ)
    (found : Option RelayChannel)
    → All P sessions
    → All P (when_young sessions id now found).0
young-All P sessions id now none h = h
young-All P sessions id now (some c) h = elim (Bool-cases (is_young now c)) [
  | inl e ↦ rw e h
  | inr e ↦ rw e (All-delete P (is_session id) sessions h)
]

get-All {κ} :
    (P : RelayChannel → Type κ) (sessions : List RelayChannel) (id : Text) (now : ℕ)
    → All P sessions
    → All P (get_session sessions id now).0
unfolding get_session
get-All P sessions id now h = young-All P sessions id now _ h

first_of {ℓ κ} :
    {R : Type ℓ} (P : R → Type κ) (rows : List R) (r : R) → head? rows ≡ some r → All P rows → P r
first_of P [] r e h = elim (Option.none-ne-some r e) [ ]
first_of P (x ∷ rows) r e h = subst P (Option.some-injective x r e) h.0

module _ (id : Text) where
  abbrev Taken : List RelayChannel → Type 0
  Taken = All (IsTaken id)

  insert-Taken :
      (sessions : List RelayChannel) (now : ℕ) (c : RelayChannel)
      → same c.session_id id ≡ false
      → Taken sessions
      → Taken (insert_session sessions now c)
  unfolding insert_session
  insert-Taken sessions now c other h =
      All-append (IsTaken id) _ (c ∷ [])
        (All-delete (IsTaken id) (is_session c.session_id) _
          (All-select_of (IsTaken id) (is_young now) sessions h))
        ((λ k. ground arith), tt)

  pipe-Taken :
      (other : Text) (take : RelayPipe → RelayPipe × Bool) (change : RelayChannel → RelayChannel)
      (sessions : List RelayChannel)
      → ((c : RelayChannel) → (change c).session_id ≡ c.session_id)
      → ((p : RelayPipe) → is_taken p ≡ true → is_taken (take p).0 ≡ true)
      → Taken sessions
      → Taken (with_pipe other take change sessions)
  pipe-Taken other take change sessions same_id keeps h =
      All-update_fits (IsTaken id) (is_session other) _ sessions
        (λ c fits taken k. keeps c.pipe (taken (rw⁻¹ (same_id c) k))) h

  capture-session_id : (h : Headers) (d : RelayChannel) → (capture h d).session_id ≡ d.session_id
  unfolding capture
  capture-session_id h d = refl

  send_on-Taken :
      (s : Server) (user_id other : Text) (h : Headers)
      (found : List RelayChannel × Option RelayChannel)
      → Taken found.0
      → Taken (send_on s user_id other h found).server.sessions
  send_on-Taken s user_id other h (sessions, none) t = t
  send_on-Taken s user_id other h (sessions, some c) t =
      elim (Bool-cases (eq_nocase c.sender_user user_id)) [
        | inl e ↦ rw e (
            pipe-Taken other take_sender (capture h) sessions (λ d. capture-session_id h d)
              take_sender-taken t)
        | inr e ↦ rw e t
      ]

  receive_on-Taken :
      (s : Server) (user_id other : Text) (found : List RelayChannel × Option RelayChannel)
      → Taken found.0
      → Taken (receive_on s user_id other found).server.sessions
  receive_on-Taken s user_id other (sessions, none) t = t
  receive_on-Taken s user_id other (sessions, some c) t =
      elim (Bool-cases (may_receive s user_id c c.jam_id)) [
        | inl e ↦
            rw e
              (pipe-Taken other take_receiver (λ d. d) sessions (λ d. refl) take_receiver-taken t)
        | inr e ↦ rw e t
      ]

  step-Taken :
      (s : Server) (e : Event) → opens id e ≡ false → Taken s.sessions → Taken (step s e).sessions
  unfolding step create_session create_jam_session send_relay receive_relay remove_session
  step-Taken s (open_direct other now ru rd su sd hash) h t = insert-Taken s.sessions now _ h t
  step-Taken s (open_jam other now jam su sd hash) h t = insert-Taken s.sessions now _ h t
  step-Taken s (send user_id other now headers) h t =
      send_on-Taken s user_id other headers (get_session s.sessions other now)
        (get-All (IsTaken id) s.sessions other now t)
  step-Taken s (receive user_id other now) h t =
      receive_on-Taken s user_id other (get_session s.sessions other now)
        (get-All (IsTaken id) s.sessions other now t)
  step-Taken s (drop other) h t = All-delete (IsTaken id) (is_session other) s.sessions t

  run-Taken :
      (s : Server) (events : List Event)
      → All (λ e. opens id e ≡ false) events
      → Taken s.sessions
      → Taken (run s events).sessions
  unfolding run
  run-Taken s [] h t = t
  run-Taken s (e ∷ events) h t = run-Taken (step s e) events h.1 (step-Taken s e h.0 t)

  -- The sessions under the id are for one device.
  abbrev pub IsDirect : RelayChannel → Type 0
  IsDirect c = is_session id c ≡ true → is_direct c.pipe ≡ true

  with_pipe-Taken :
      (rows : List RelayChannel)
      → All IsDirect rows
      → Taken (with_pipe id take_receiver (λ c. c) rows)
  unfolding update
  with_pipe-Taken [] d = tt
  with_pipe-Taken (c ∷ rows) d = elim (Bool-cases (is_session id c)) [
    | inl e ↦ rw e ((λ k. take_receiver-direct c.pipe (d.0 e)), with_pipe-Taken rows d.1)
    | inr e ↦ rw e ((λ k. ground arith), with_pipe-Taken rows d.1)
  ]

  select-Taken :
      (rows : List RelayChannel)
      → Taken rows
      → All (λ c. is_taken c.pipe ≡ true) (select (is_session id) rows)
  unfolding select
  select-Taken [] t = tt
  select-Taken (c ∷ rows) t = elim (Bool-cases (is_session id c)) [
    | inl e ↦ rw e (t.0 e, select-Taken rows t.1)
    | inr e ↦ rw e (select-Taken rows t.1)
  ]

  not_free : (p : RelayPipe) → is_taken p ≡ true → conflict_unless (take_receiver p).1 ≢ none
  not_free (direct a true) h k = ground arith
  not_free (direct a false) h k = ground arith
  not_free (fanout a) h k = ground arith

  received-Taken :
      (s : Server) (user_id : Text) (found : List RelayChannel × Option RelayChannel)
      → All IsDirect found.0
      → (receive_on s user_id id found).refusal ≡ none
      → Taken (receive_on s user_id id found).server.sessions
  received-Taken s user_id (sessions, none) d h = ground arith
  received-Taken s user_id (sessions, some c) d h =
      elim (Bool-cases (may_receive s user_id c c.jam_id)) [
        | inl e ↦ rw e (with_pipe-Taken sessions d)
        | inr e ↦ ground arith
      ]

  refused_on :
      (s : Server) (user_id : Text) (sessions : List RelayChannel) (now : ℕ)
      (found : Option RelayChannel)
      → ((c : RelayChannel) → found ≡ some c → is_taken c.pipe ≡ true)
      → (receive_on s user_id id (when_young sessions id now found)).refusal ≢ none
  refused_on s user_id sessions now none taken h = ground arith
  refused_on s user_id sessions now (some c) taken h = elim (Bool-cases (is_young now c)) [
    | inr e ↦ ground arith
    | inl e ↦ elim (Bool-cases (may_receive s user_id c c.jam_id)) [
      | inl k ↦ not_free c.pipe (taken c refl) (ground arith)
      | inr k ↦ ground arith
    ]
  ]

  -- Once a receiver is attached to a session for one device, nobody is attached as its receiver again,
  -- whatever happens to the sessions in between, as long as no session is opened under the same id.
  pub receive_relay_once :
      (s : Server) (user_id another : Text) (now later : ℕ) (events : List Event)
      → All IsDirect s.sessions
      → All (λ e. opens id e ≡ false) events
      → (receive_relay s user_id id now).refusal ≡ none
      → (receive_relay
          (run (receive_relay s user_id id now).server events)
          another
          id
          later).refusal
        ≢ none
  unfolding receive_relay get_session
  receive_relay_once s user_id another now later events d h ok =
      let after = run (receive_relay s user_id id now).server events in
      let t = run-Taken (receive_relay s user_id id now).server events h (
        received-Taken s user_id (get_session s.sessions id now)
          (get-All IsDirect s.sessions id now d) ok) in
      refused_on after another after.sessions later (head? (select (is_session id) after.sessions))
        (λ c e. first_of (λ c. is_taken c.pipe ≡ true) _ c e (select-Taken after.sessions t))
