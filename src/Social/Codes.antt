-- ===== src/Social/Codes.antt =====
-- Friend codes: the second half of src/db_social/friends.rs, and `redeem_friend_code` of
-- src/schema_social/friends_mutation.rs. Instants are seconds; the source compares them as RFC 3339
-- text in UTC, whose order is that of time.
use agro.Base.{
  ℕ, ◌+◌, ◌*◌, Bool, true, false, ◌&&◌, List, [], ◌∷◌, ◌++◌, Option, none, some, Text, same, trim,
  to_lowercase, eq_nocase, delete, update, any, ltb, if◌then◌else◌,
}
use Prim.Native.Nat.{max}
use agro.Social.{
  Graph, FriendCode, friend_state, is_blocked, send_friend_request, accept_friend_request,
}

-- `ttl_minutes` is signed there; a negative one counts as 1, as 0 does. `secret` is what
-- `credentials::mint_token` returns.
unfoldable pub create_friend_code : Graph → Text → ℕ → Text → ℕ → Graph × FriendCode
create_friend_code g user_id ttl_minutes secret now =
    let owner = to_lowercase (trim user_id) in
    let code : FriendCode = record {
      code = secret;
      user_id = owner;
      created_at = now;
      expires_at = now + max ttl_minutes 1 * 60;
      used_at = none;
    } in
    (
      record g { friend_codes = delete (λ c. same c.user_id owner) g.friend_codes ++ code ∷ [] },
      code,
    )

unfoldable pub revoke_friend_codes : Graph → Text → Graph
revoke_friend_codes g user_id = record g {
  friend_codes = delete (λ c. same c.user_id (to_lowercase (trim user_id))) g.friend_codes;
}

abbrev pub is_unused : Option ℕ → Bool
is_unused none = true
is_unused (some _) = false

abbrev pub is_live : Text → ℕ → FriendCode → Bool
is_live code now c = same c.code code && is_unused c.used_at && ltb now c.expires_at

-- SELECT user_id … WHERE code = ?
unfoldable pub owner_of_code : Text → List FriendCode → Option Text
owner_of_code code [] = none
owner_of_code code (c ∷ cs) =
    let rest = owner_of_code code cs in if same c.code code then some c.user_id else rest

unfoldable pub redeem_friend_code : Graph → Text → ℕ → Graph × Option Text
redeem_friend_code g code now =
    let claimed =
      update (is_live (trim code) now) (λ c. record c { used_at = some now }) g.friend_codes in
    (
      record g { friend_codes = claimed },
      if any (is_live (trim code) now) g.friend_codes
          then owner_of_code (trim code) claimed
          else none,
    )

-- The mutation, for the signed-in account `me`. The push to the owner's devices is left out.
unfoldable pub befriend_owner : Graph → Text → Option Text → ℕ → Graph × Option Text
befriend_owner g me none now = (g, none)
befriend_owner g me (some owner) now =
    let requested = (send_friend_request g owner me now).0 in
    let (after, accepted) = accept_friend_request requested me owner now in
    if eq_nocase owner me
    then (g, none)
    else if is_blocked (friend_state g me owner)
    then (g, none)
    else (after, if accepted then some owner else none)

unfoldable pub redeem : Graph → Text → Text → ℕ → Graph × Option Text
redeem g me code now =
    let (spent, owner) = redeem_friend_code g code now in befriend_owner spent me owner now
