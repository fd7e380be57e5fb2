-- ===== src/Social/Consent.antt =====
-- Nobody becomes a friend without having asked or answered.
use agro.Base.{ℕ, ◌≡◌, Bool, true, ◌&&◌, ◌||◌, List, [], ◌∷◌, arith, Text, any, eq_of_same}
use agro.Social.{pending, accepted, empty, are_friends}
use agro.Social.Edges.{name_key, has, friend_state-verdict}
use agro.Social.Effects.{
  has-send_friend_request, has-accept_friend_request, has-remove_friend, has-block_user,
  has-unblock_user,
}
use agro.Social.Calls.{Call, send, accept, remove, block, unblock, step, run, asked, answered}
use agro.Social.Soundness.{run-IsSound}

-- One of the two asked, and the other accepted.
abbrev pub agreed : List Call → Text → Text → Bool
agreed cs x y = (asked cs x y && answered cs y x) || (asked cs y x && answered cs x y)

record Explained (cs : List Call) (x y : Text) : Type 0 where
  requests : has pending (run empty cs).friendships x y ≡ true → asked cs x y ≡ true
  friendships : has accepted (run empty cs).friendships x y ≡ true → agreed cs x y ≡ true

module _ (cs : List Call) (x y : Text) (ih : Explained cs x y) where
  send-Explained : (from to : Text) (now : ℕ) → Explained (send from to now ∷ cs) x y
  unfolding run step asked answered any
  send-Explained from to now = ground (
    arith,
    has-send_friend_request pending (run empty cs) x y from to now,
    has-send_friend_request accepted (run empty cs) x y from to now,
  )

  accept-Explained :
      (to from : Text) (now : ℕ)
      → Explained cs (name_key from) (name_key to)
      → Explained (accept to from now ∷ cs) x y
  unfolding run step asked answered any
  accept-Explained to from now request =
      let v = run-IsSound cs in
      ground (
        arith,
        has-accept_friend_request pending (run empty cs) x y to from now v.stored,
        has-accept_friend_request accepted (run empty cs) x y to from now v.stored,
        eq_of_same x (name_key from),
        eq_of_same y (name_key to),
        eq_of_same x (name_key to),
        eq_of_same y (name_key from),
      )

  remove-Explained : (a b : Text) → Explained (remove a b ∷ cs) x y
  unfolding run step asked answered any
  remove-Explained a b = ground (
    arith,
    has-remove_friend pending (run empty cs) x y a b,
    has-remove_friend accepted (run empty cs) x y a b,
  )

  block-Explained : (a b : Text) (now : ℕ) → Explained (block a b now ∷ cs) x y
  unfolding run step asked answered any
  block-Explained a b now =
      let v = run-IsSound cs in
      ground (
        arith,
        has-block_user pending (run empty cs) x y a b now v.stored,
        has-block_user accepted (run empty cs) x y a b now v.stored,
      )

  unblock-Explained : (a b : Text) → Explained (unblock a b ∷ cs) x y
  unfolding run step asked answered any
  unblock-Explained a b = ground (
    arith,
    has-unblock_user pending (run empty cs) x y a b,
    has-unblock_user accepted (run empty cs) x y a b,
  )

run-Explained : (cs : List Call) (x y : Text) → Explained cs x y
unfolding run asked answered any has
run-Explained [] x y = ground arith
run-Explained (send from to now ∷ cs) x y = send-Explained cs x y (run-Explained cs x y) from to now
run-Explained (accept to from now ∷ cs) x y =
    accept-Explained cs x y (run-Explained cs x y) to from now
      (run-Explained cs (name_key from) (name_key to))
run-Explained (remove a b ∷ cs) x y = remove-Explained cs x y (run-Explained cs x y) a b
run-Explained (block a b now ∷ cs) x y = block-Explained cs x y (run-Explained cs x y) a b now
run-Explained (unblock a b ∷ cs) x y = unblock-Explained cs x y (run-Explained cs x y) a b

-- After any history of requests, acceptances, removals, blocks and unblocks that starts from empty
-- tables, two accounts count as friends only if, at some point, one of them sent the other a
-- request and, at some point, the other accepted a request of the first. Names count as the same
-- account when they agree up to surrounding space and ASCII case.
pub run-consent :
    (cs : List Call) (a b : Text)
    → are_friends (run empty cs) a b ≡ true
    → agreed cs (name_key a) (name_key b) ≡ true
run-consent cs a b h =
    let forth = run-Explained cs (name_key a) (name_key b) in
    let back = run-Explained cs (name_key b) (name_key a) in
    ground (arith, friend_state-verdict (run empty cs) a b, forth.friendships, back.friendships)
