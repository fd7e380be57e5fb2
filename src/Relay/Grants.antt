-- ===== src/Relay/Grants.antt =====
-- Who is let into a relay: `open_relay` of src/relay/open.rs and `receive_relay` of
-- src/relay/download.rs.
use agro.Base.{
  ℕ, subst, ◌<◌, ◌-◌, ◌*◌, ◌≡◌, Bool, true, false, ◌&&◌, ◌||◌, not, arith, none, some, Text, trim,
  eq_nocase, select, head?, Bool-cases, inl, inr,
}
use agro.Social.{blocked, accepted}
use agro.Social.Edges.{name_key, has, friend_state-verdict}
use agro.Jam.{jam_for_member}
use agro.Jam.Queue.{trimmed}
use agro.Relay.{
  Server, RelayChannel, device_belongs_to, owner_of_device, get_session, is_session, is_young,
  when_young,
}
use agro.Relay.Open.{OpenRelayRequest, Opened, opened, refused, is_allowed, same_jam, open_relay}
use agro.Relay.Attach.{receive_relay, receive_on, may_receive}

abbrev pub is_opened : Opened → Bool
is_opened (opened s id) = true
is_opened (refused _) = false

-- From a source device that is registered, a session for one device is opened exactly when the
-- target device is the caller's and the owner of the source is the caller, or somebody whom
-- neither blocks and who is a friend or in the same jam.
pub open_relay_direct :
    (s : Server) (user_id id : Text) (now : ℕ) (body : OpenRelayRequest) (owner : Text)
    → trimmed body.jam_id ≡ none
    → owner_of_device s (trim body.from_device) ≡ some owner
    → (let me = name_key user_id in
        let them = name_key owner in
        let rows = s.rooms.graph.friendships in
        is_opened (open_relay s user_id id now body)
        ≡ device_belongs_to s user_id (trim body.to_device)
          && (eq_nocase owner user_id
              || (not (has blocked rows me them || has blocked rows them me)
                  && (has accepted rows me them
                      || has accepted rows them me
                      || same_jam
                          (jam_for_member s.rooms user_id)
                          (jam_for_member s.rooms owner)))))
unfolding open_relay is_allowed
open_relay_direct s user_id id now body owner alone owned =
    rw (alone, owned) (ground (arith, friend_state-verdict s.rooms.graph user_id owner))

-- Whoever is attached as a receiver asked for a session less than a minute old, and is the account
-- that the session was opened for or, when it was opened for a jam, a member of that jam now.
pub receive_relay_granted :
    (s : Server) (user_id id : Text) (now : ℕ) (c : RelayChannel)
    → head? (select (is_session id) s.sessions) ≡ some c
    → (receive_relay s user_id id now).refusal ≡ none
    → (now - c.created_at < 60 * 1000) × (may_receive s user_id c c.jam_id ≡ true)
unfolding receive_relay get_session
receive_relay_granted s user_id id now c found ok =
    let h : (receive_on s user_id id (when_young s.sessions id now (some c))).refusal ≡ none =
      subst (λ row. (receive_on s user_id id (when_young s.sessions id now row)).refusal ≡ none)
        found ok in
    elim (Bool-cases (is_young now c)) [
      | inl y ↦ elim (Bool-cases (may_receive s user_id c c.jam_id)) [
        | inl m ↦ (ground arith, m)
        | inr m ↦ ground arith
      ]
      | inr y ↦ ground arith
    ]
