-- ===== src/Social/Calls.antt =====
-- Histories of the friend graph: the calls of src/db_social/friends.rs that write friendships, one
-- after the other.
use agro.Base.{ℕ, Text, Bool, ◌&&◌, false, List, [], ◌∷◌, any, same}
use agro.Social.{
  Graph, send_friend_request, accept_friend_request, remove_friend, block_user, unblock_user,
}
use agro.Social.Edges.{name_key}

pub data Call : Type 0 where
  send : Text → Text → ℕ → Call
  accept : Text → Text → ℕ → Call
  remove : Text → Text → Call
  block : Text → Text → ℕ → Call
  unblock : Text → Text → Call

unfoldable pub step : Graph → Call → Graph
step g (send from to now) = (send_friend_request g from to now).0
step g (accept to from now) = (accept_friend_request g to from now).0
step g (remove a b) = (remove_friend g a b).0
step g (block blocker subject now) = (block_user g blocker subject now).0
step g (unblock blocker subject) = (unblock_user g blocker subject).0

-- The last call stands first.
unfoldable pub run : Graph → List Call → Graph
run g [] = g
run g (c ∷ cs) = step (run g cs) c

-- In the history, `x` asked `y`, or `x` accepted the request of `y`.
abbrev pub is_ask : Text → Text → Call → Bool
is_ask x y (send from to now) = same x (name_key from) && same y (name_key to)
is_ask x y _ = false

abbrev pub is_answer : Text → Text → Call → Bool
is_answer x y (accept to from now) = same x (name_key to) && same y (name_key from)
is_answer x y _ = false

unfoldable pub asked : List Call → Text → Text → Bool
asked cs x y = any (is_ask x y) cs

unfoldable pub answered : List Call → Text → Text → Bool
answered cs x y = any (is_answer x y) cs
