-- ===== src/Relay/Examples.antt =====
-- Relays between the devices of two friends.
use agro.Base.{
  ◌≡◌, ◌≢◌, refl, true, false, [], ◌∷◌, none, Text, same, codes, select, delete, update, count, any,
  trim, to_lowercase, is_whitespace, trim_start, trim_end, to_ascii_lowercase, order_by_desc,
  insert_by_desc,
}
use agro.Social.{Edge, accepted, contains, friend_state, empty}
use agro.Social.Edges.{has, name_key}
use agro.Jam.{Rooms, jam_for_member, is_jam_member}
use agro.Relay.{
  Server, Node, RelayChannel, direct, device_belongs_to, owner_of_device, create_session,
  insert_session, get_session, remove_session,
}
use agro.Relay.Open.{OpenRelayRequest, open_relay, is_allowed}
use agro.Relay.Attach.{receive_relay, send_relay, Headers}
use agro.Relay.Grants.{is_opened, open_relay_direct}
use agro.Relay.Once.{run, step, send, receive_relay_once}

program : Unit {0}
unfolding same select delete update count any trim to_lowercase is_whitespace trim_start trim_end
    to_ascii_lowercase order_by_desc insert_by_desc contains friend_state jam_for_member
    is_jam_member device_belongs_to owner_of_device create_session insert_session get_session
    remove_session open_relay is_allowed receive_relay send_relay run step
program = tt

abbrev ana : Text
ana = codes "ana"

abbrev bo : Text
bo = codes "bo"

abbrev friendship : Text → Text → Edge
friendship a b = record { user_id = a; friend_id = b; state = accepted; created_at = 1 }

abbrev quiet : Rooms
quiet = record {
  jams = [];
  jam_members = [];
  jam_tracks = [];
  jam_votes = [];
  jam_skips = [];
  enabled = true;
  graph = record empty { friendships = friendship ana bo ∷ friendship bo ana ∷ [] };
}

abbrev session : RelayChannel
session = record {
  session_id = codes "s1";
  content_hash = codes "ff";
  sender_user = bo;
  sender_device = codes "desk";
  receiver_user = ana;
  receiver_device = codes "phone";
  jam_id = none;
  created_at = 1000;
  is_encrypted = false;
  nonce = none;
  key_fingerprint = none;
  sealed_key = none;
  pipe = direct true true;
}

abbrev node : Text → Text → Node
node user device = record { user_id = user; device_id = device }

abbrev server : Server
server = record {
  rooms = quiet;
  registered_nodes = node ana (codes "phone") ∷ node bo (codes "desk") ∷ [];
  device_holdings = [];
  sessions = session ∷ [];
}

abbrev request : OpenRelayRequest
request = record {
  content_hash = codes "ff";
  from_device = codes "desk";
  to_device = codes "phone";
  listener_public_key = none;
  jam_id = none;
}

open_relay_direct_example : is_opened (open_relay server ana (codes "s2") 2000 request) ≡ true
unfolding program has name_key
open_relay_direct_example = open_relay_direct server ana (codes "s2") 2000 request bo refl refl

abbrev plain : Headers
plain = record { encrypted = none; nonce = none; key_fingerprint = none; sealed_key = none }

receive_relay_once_example :
    (receive_relay
      (run
        (receive_relay server ana (codes "s1") 2000).server
        (send bo (codes "s1") 3000 plain ∷ []))
      ana
      (codes "s1")
      4000).refusal
    ≢ none
unfolding program
receive_relay_once_example =
    receive_relay_once (codes "s1") server ana ana 2000 4000 (send bo (codes "s1") 3000 plain ∷ [])
      ((λ _. refl), tt) (refl, tt) refl
