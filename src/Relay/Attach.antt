-- ===== src/Relay/Attach.antt =====
-- The two ends of a relay: src/relay/upload.rs and src/relay/download.rs. The streaming itself is
-- left out; what happens when it ends is `finish_send` and `finish_receive`.
use agro.Base.{
  ℕ, Bool, true, false, ◌&&◌, not, List, Option, none, some, Text, same, codes, eq_nocase, update,
  insert_or_ignore, ltb, if◌then◌else◌,
}
use agro.Jam.{is_jam_member}
use agro.Relay.{
  RelayPipe, direct, fanout, RelayChannel, Holding, Server, is_session, get_session, remove_session,
}

pub data AttachError : Type 0 where
  not_found forbidden conflict : AttachError

-- The server afterwards, and the refusal if there is one.
pub record Attached : Type 0 where
  pub server : Server
  pub refusal : Option AttachError

-- The encryption headers of an upload.
pub record Headers : Type 0 where
  pub encrypted : Option Text
  pub nonce : Option Text
  pub key_fingerprint : Option Text
  pub sealed_key : Option Text

abbrev or_kept : Option Text → Option Text → Option Text
or_kept none kept = kept
or_kept (some s) kept = some s

abbrev says_true : Option Text → Bool → Bool
says_true none kept = kept
says_true (some s) kept = eq_nocase s (codes "true")

unfoldable pub capture : Headers → RelayChannel → RelayChannel
capture h c = record c {
  is_encrypted = says_true h.encrypted c.is_encrypted;
  nonce = or_kept h.nonce c.nonce;
  key_fingerprint = or_kept h.key_fingerprint c.key_fingerprint;
  sealed_key = or_kept h.sealed_key c.sealed_key;
}

-- The sender's end after an attempt to take it, and whether it was free.
abbrev pub take_sender : RelayPipe → RelayPipe × Bool
take_sender (direct sender_free receiver_free) = (direct false receiver_free, sender_free)
take_sender (fanout sender_attached) = (fanout true, not sender_attached)

abbrev pub take_receiver : RelayPipe → RelayPipe × Bool
take_receiver (direct sender_free receiver_free) = (direct sender_free false, receiver_free)
take_receiver (fanout sender_attached) = (fanout sender_attached, true)

abbrev pub conflict_unless : Bool → Option AttachError
conflict_unless true = none
conflict_unless false = some conflict

-- Every row of the session is the one that the handlers share.
abbrev pub with_pipe :
    Text
    → (RelayPipe → RelayPipe × Bool)
    → (RelayChannel → RelayChannel)
    → List RelayChannel
    → List RelayChannel
with_pipe id take change =
    update (is_session id) (λ c. record (change c) { pipe = (take c.pipe).0 })

abbrev pub send_on :
    Server → Text → Text → Headers → List RelayChannel × Option RelayChannel → Attached
send_on s user_id id h (sessions, none) = record {
  server = record s { sessions = sessions };
  refusal = some not_found;
}
send_on s user_id id h (sessions, some c) =
    if eq_nocase c.sender_user user_id
    then record {
      server = record s { sessions = with_pipe id take_sender (capture h) sessions };
      refusal = conflict_unless (take_sender c.pipe).1;
    }
    else record { server = record s { sessions = sessions }; refusal = some forbidden }

unfoldable pub send_relay : Server → Text → Text → ℕ → Headers → Attached
send_relay s user_id session_id now h =
    send_on s user_id session_id h (get_session s.sessions session_id now)

abbrev is_fanout : RelayPipe → Bool
is_fanout (fanout _) = true
is_fanout (direct _ _) = false

-- A fanout is over for everyone when its upload is.
abbrev pub finish_send : Server → RelayChannel → Server
finish_send s c =
    if is_fanout c.pipe then record s { sessions = remove_session s.sessions c.session_id } else s

abbrev pub may_receive : Server → Text → RelayChannel → Option Text → Bool
may_receive s user_id c none = eq_nocase c.receiver_user user_id
may_receive s user_id c (some jam_id) = is_jam_member s.rooms jam_id user_id

abbrev pub receive_on : Server → Text → Text → List RelayChannel × Option RelayChannel → Attached
receive_on s user_id id (sessions, none) = record {
  server = record s { sessions = sessions };
  refusal = some not_found;
}
receive_on s user_id id (sessions, some c) =
    if may_receive s user_id c c.jam_id
    then record {
      server = record s { sessions = with_pipe id take_receiver (λ c. c) sessions };
      refusal = conflict_unless (take_receiver c.pipe).1;
    }
    else record { server = record s { sessions = sessions }; refusal = some forbidden }

unfoldable pub receive_relay : Server → Text → Text → ℕ → Attached
receive_relay s user_id session_id now =
    receive_on s user_id session_id (get_session s.sessions session_id now)

-- On the key (device_id, content_hash); the columns that an update would set are left out.
unfoldable pub upsert_holding : List Holding → Holding → List Holding
upsert_holding rows h =
    insert_or_ignore (λ r. same r.device_id h.device_id && same r.content_hash h.content_hash) h
      rows

-- The end of the stream of a direct session after `transferred` bytes.
unfoldable pub finish_receive : Server → RelayChannel → ℕ → Server
finish_receive s c transferred =
    let holding : Holding = record {
      user_id = c.receiver_user;
      device_id = c.receiver_device;
      content_hash = c.content_hash;
    } in
    record s {
      sessions = remove_session s.sessions c.session_id;
      device_holdings =
          if ltb 0 transferred then upsert_holding s.device_holdings holding else s.device_holdings;
    }
