-- ===== src/Relay.antt =====
-- The relay of an audio file from one device to another: src/relay.rs, and the two look-ups of
-- src/db_library/holdings.rs by which it knows a device. Instants are milliseconds; a session id is
-- an argument. Of a pipe the model keeps who is attached: the chunks in flight are the channels'.
mod Open
mod Attach
mod Grants
mod Once
mod Examples
use agro.Base.{
  ℕ, ◌-◌, ◌*◌, Bool, true, false, ◌&&◌, ◌||◌, not, List, [], ◌∷◌, ◌++◌, Option, none, some, Text,
  same, select, delete, count, any, ltb, if◌then◌else◌, head?,
}
use agro.Jam.{Rooms}

abbrev pub session_ttl : ℕ
session_ttl = 60 * 1000

-- Whether the sender's and the receiver's end have not been taken; or whether a sender is attached.
pub data RelayPipe : Type 0 where
  direct : (sender_free receiver_free : Bool) → RelayPipe
  fanout : (sender_attached : Bool) → RelayPipe

pub record RelayChannel : Type 0 where
  pub session_id : Text
  pub content_hash : Text
  pub sender_user : Text
  pub sender_device : Text
  pub receiver_user : Text
  pub receiver_device : Text
  pub jam_id : Option Text
  pub created_at : ℕ
  pub is_encrypted : Bool
  pub nonce : Option Text
  pub key_fingerprint : Option Text
  pub sealed_key : Option Text
  pub pipe : RelayPipe

-- A row of `registered_nodes`.
pub record Node : Type 0 where
  pub user_id : Text
  pub device_id : Text

pub record Holding : Type 0 where
  pub user_id : Text
  pub device_id : Text
  pub content_hash : Text

pub record Server : Type 0 where
  pub rooms : Rooms
  pub registered_nodes : List Node
  pub device_holdings : List Holding
  pub sessions : List RelayChannel

unfoldable pub device_belongs_to : Server → Text → Text → Bool
device_belongs_to s user_id device_id =
    ltb 0 (count (λ n. same n.user_id user_id && same n.device_id device_id) s.registered_nodes)

abbrev owner_in : Option Node → Option Text
owner_in none = none
owner_in (some n) = some n.user_id

unfoldable pub owner_of_device : Server → Text → Option Text
owner_of_device s device_id =
    owner_in (head? (select (λ n. same n.device_id device_id) s.registered_nodes))

abbrev pub is_session : Text → RelayChannel → Bool
is_session session_id c = same c.session_id session_id

abbrev pub is_young : ℕ → RelayChannel → Bool
is_young now c = ltb (now - c.created_at) session_ttl

-- `HashMap::insert` after the sweep of the expired sessions.
unfoldable pub insert_session : List RelayChannel → ℕ → RelayChannel → List RelayChannel
insert_session sessions now c =
    delete (is_session c.session_id) (select (is_young now) sessions) ++ c ∷ []

unfoldable pub create_session :
    List RelayChannel → Text → ℕ → Text → Text → Text → Text → Text → List RelayChannel
create_session sessions id now receiver_user receiver_device sender_user sender_device
      content_hash =
    insert_session sessions now (record {
      session_id = id;
      content_hash = content_hash;
      sender_user = sender_user;
      sender_device = sender_device;
      receiver_user = receiver_user;
      receiver_device = receiver_device;
      jam_id = none;
      created_at = now;
      is_encrypted = false;
      nonce = none;
      key_fingerprint = none;
      sealed_key = none;
      pipe = direct true true;
    })

unfoldable pub create_jam_session :
    List RelayChannel → Text → ℕ → Text → Text → Text → Text → List RelayChannel
create_jam_session sessions id now jam_id sender_user sender_device content_hash =
    insert_session sessions now (record {
      session_id = id;
      content_hash = content_hash;
      sender_user = sender_user;
      sender_device = sender_device;
      receiver_user = [];
      receiver_device = [];
      jam_id = some jam_id;
      created_at = now;
      is_encrypted = false;
      nonce = none;
      key_fingerprint = none;
      sealed_key = none;
      pipe = fanout false;
    })

abbrev when_young :
    List RelayChannel → Text → ℕ → Option RelayChannel → List RelayChannel × Option RelayChannel
when_young sessions session_id now none = (sessions, none)
when_young sessions session_id now (some c) =
    if is_young now c then (sessions, some c) else (delete (is_session session_id) sessions, none)

-- An expired session is dropped when it is asked for.
unfoldable pub get_session : List RelayChannel → Text → ℕ → List RelayChannel × Option RelayChannel
get_session sessions session_id now =
    when_young sessions session_id now (head? (select (is_session session_id) sessions))

unfoldable pub remove_session : List RelayChannel → Text → List RelayChannel
remove_session sessions session_id = delete (is_session session_id) sessions
