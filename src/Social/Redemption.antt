-- ===== src/Social/Redemption.antt =====
-- What the redemption of a friend code does: src/db_social/friends.rs and
-- src/schema_social/friends_mutation.rs.
use agro.Base.{
  ℕ, ◌≤◌, ◌≡◌, Bool, true, false, ◌&&◌, ◌||◌, not, arith, Text, same, same_comm, any, same_refl,
  if◌then◌else◌, some, none, update, any-update, any_none, trim, to_lowercase, ◌∙◌, ap,
}
use agro.Social.{
  FriendCode, pending, accepted, blocked, Graph, are_friends, friend_state, is_some, is_blocked,
  send_friend_request, accept_friend_request,
}
use agro.Social.Codes.{redeem_friend_code, befriend_owner, is_live}
use agro.Social.Edges.{name_key, has, friend_state-verdict}
use agro.Social.Effects.{has-send_friend_request, has-accept_friend_request, accept-has_pending}
use agro.Social.Calls.{step}
use agro.Social.Soundness.{IsSound, send-IsSound, accept-IsSound}

-- A friend code is good once: after a redemption, successful or not, a redemption of the same code
-- at that time or later finds nothing.
pub redeem_friend_code_twice :
    (g : Graph) (code : Text) (now later : ℕ)
    → now ≤ later
    → (redeem_friend_code (redeem_friend_code g code now).0 code later).1 ≡ none
unfolding redeem_friend_code
redeem_friend_code_twice g code now later h =
    let spend = λ (c : FriendCode). record c { used_at = some now } in
    let dead : any (is_live (trim code) later)
          (update (is_live (trim code) now) spend g.friend_codes)
        ≡ false =
      any-update (is_live (trim code) later) (is_live (trim code) now) spend g.friend_codes
      ∙ any_none (λ c. is_live (trim code) later (if is_live (trim code) now c then spend c else c))
          g.friend_codes (λ c. ground arith) in
    rw dead

module _ (g : Graph) (me owner : Text) (now : ℕ) (v : IsSound g) where
  abbrev M : Text
  M = name_key me

  abbrev O : Text
  O = name_key owner

  abbrev requested : Graph
  requested = (send_friend_request g owner me now).0

  -- Nothing stands between the two, or the owner's own request is waiting.
  abbrev pub may_befriend : Bool
  may_befriend = not (is_some (friend_state g me owner)) || has pending g.friendships O M

  pending-requested : same M O ≡ false → has pending requested.friendships O M ≡ may_befriend
  pending-requested h = ground (
    arith,
    has-send_friend_request pending g O M owner me now,
    friend_state-verdict g me owner,
    friend_state-verdict g owner me,
    same_comm M O,
    same_refl M,
    same_refl O,
  )

  not_blocked : may_befriend ≡ true → is_blocked (friend_state g me owner) ≡ false
  not_blocked h = ground (arith, friend_state-verdict g me owner, v.exclusive pending blocked O M)

  befriended :
      same M O ≡ false
      → may_befriend ≡ true
      → are_friends (accept_friend_request requested me owner now).0 me owner ≡ true
  befriended h k =
      let sent : IsSound requested = unfold step in send-IsSound g v owner me now in
      let sound : IsSound (accept_friend_request requested me owner now).0 =
        unfold step in accept-IsSound requested sent me owner now in
      ground (
        arith,
        friend_state-verdict (accept_friend_request requested me owner now).0 me owner,
        has-accept_friend_request accepted requested M O me owner now sent.stored,
        pending-requested h,
        sound.exclusive accepted blocked M O,
        same_refl M,
        same_refl O,
      )

-- What a redeemed code does between the one who scans it and its owner, on every branch: their own
-- code, an existing friendship, a block by either, and an unanswered request of the scanner all
-- give `none`; otherwise (no relation, or a waiting request of the owner) the two are friends
-- afterwards. The two names have no surrounding space.
pub befriend_owner_outcome :
    (g : Graph) (me owner : Text) (now : ℕ)
    → IsSound g
    → trim me ≡ me
    → trim owner ≡ owner
    → let free = not (is_some (friend_state g me owner)) in
      let asked = has pending g.friendships (name_key owner) (name_key me) in
      let result = befriend_owner g me (some owner) now in
      (result.1 ≡ (
        if same (name_key me) (name_key owner)
        then none
        else if free || asked
        then some owner
        else none))
      × ((is_some result.1 && not (are_friends result.0 me owner)) ≡ false)
unfolding befriend_owner name_key
befriend_owner_outcome g me owner now v hm ho =
    let hm' = ap to_lowercase hm in
    let ho' = ap to_lowercase ho in
    ground (
      arith,
      hm',
      ho',
      same_comm (to_lowercase me) (to_lowercase owner),
      not_blocked g me owner now v,
      befriended g me owner now v,
      pending-requested g me owner now v,
      accept-has_pending (send_friend_request g owner me now).0 me owner now,
    )
