-- ===== src/Live/Buffer.antt =====
-- What a replay buffer still gives back of the messages that were pushed into it.
use agro.Base.{
  ℕ, ◌++◌, ◌≤◌, ◌≡◌, refl, sym, ap, ◌∙◌, Bool, true, false, ◌&&◌, List, [], ◌∷◌, map, none, some,
  inl, inr, arith, ◌⊎◌, select-append, Bool-cases, select, ltb,
}
use mathlib.Core.List.{append-nil, map-append}
use agro.Live.{
  empty_replay, WsMessage, Held, Replay, expire, expire_loop, shrink_loop, push, after, is_later,
  forget_front,
}

abbrev pub messages_of : Replay → List WsMessage
messages_of r = map (λ h. h.msg) r.messages

abbrev pub later_and : ℕ → (WsMessage → Bool) → WsMessage → Bool
later_and after_seq w m = is_later after_seq m && w m

-- From any position that the buffer has not forgotten past, it holds the messages of the log that
-- satisfy `p`, in the log's order.
pub Holds : (WsMessage → Bool) → Replay → List WsMessage → Type 0
Holds p r log =
    (after_seq : ℕ) (w : WsMessage → Bool)
    → r.forgotten_through ≤ after_seq
    → select (later_and after_seq w) (messages_of r)
      ≡ select (λ m. p m && later_and after_seq w m) log

module _ (after_seq : ℕ) (w : WsMessage → Bool) where
  -- A forgotten front was not later than the position.
  skip_front :
      (h : Held) (rest : List Held) (f : ℕ)
      → forget_front h f ≤ after_seq
      → (select (later_and after_seq w) (map (λ h. h.msg) (h ∷ rest))
          ≡ select (later_and after_seq w) (map (λ h. h.msg) rest))
        × (f ≤ after_seq)
  unfolding select
  skip_front h rest f le = ground arith

  expire_loop-later :
      (now : ℕ) (hs : List Held) (f : ℕ)
      → (expire_loop now hs f).forgotten_through ≤ after_seq
      → (select (later_and after_seq w) (messages_of (expire_loop now hs f))
          ≡ select (later_and after_seq w) (map (λ h. h.msg) hs))
        × (f ≤ after_seq)
  unfolding expire_loop
  expire_loop-later now [] f le = (refl, le)
  expire_loop-later now (h ∷ rest) f le =
      ground (arith, skip_front h rest f, expire_loop-later now rest (forget_front h f))

  shrink_loop-later :
      (capacity : ℕ) (hs : List Held) (f : ℕ)
      → (shrink_loop capacity hs f).forgotten_through ≤ after_seq
      → (select (later_and after_seq w) (messages_of (shrink_loop capacity hs f))
          ≡ select (later_and after_seq w) (map (λ h. h.msg) hs))
        × (f ≤ after_seq)
  unfolding shrink_loop
  shrink_loop-later capacity [] f le = (refl, le)
  shrink_loop-later capacity (h ∷ rest) f le =
      ground (arith, skip_front h rest f, shrink_loop-later capacity rest (forget_front h f))

  -- What a push leaves in the buffer.
  push-later :
      (now capacity : ℕ) (msg : WsMessage) (r : Replay)
      → (push now msg capacity r).forgotten_through ≤ after_seq
      → (select (later_and after_seq w) (messages_of (push now msg capacity r))
          ≡ select (later_and after_seq w) (messages_of r ++ msg ∷ []))
        × (r.forgotten_through ≤ after_seq)
  unfolding push
  push-later now capacity msg r le =
      let grown = r.messages ++ record { at = now; msg = msg } ∷ [] in
      let kept = expire_loop now grown r.forgotten_through in
      let shrunk = shrink_loop-later capacity kept.messages kept.forgotten_through le in
      let expired = expire_loop-later now grown r.forgotten_through shrunk.1 in
      (
        shrunk.0 ∙ expired.0 ∙ ap (select (later_and after_seq w)) (map-append _ r.messages _),
        expired.1,
      )

-- An empty buffer holds what there is of an empty log.
pub Holds-empty : (p : WsMessage → Bool) → Holds p empty_replay []
unfolding Holds select
Holds-empty p after_seq w le = refl

-- Where an empty buffer holds all of it, the log has nothing.
pub Holds-nothing :
    (p : WsMessage → Bool) (log : List WsMessage) (after_seq : ℕ) (w : WsMessage → Bool)
    → Holds p empty_replay log
    → select (λ m. p m && later_and after_seq w m) log ≡ []
unfolding Holds select
Holds-nothing p log after_seq w h = sym (h after_seq w (omega arith))

pub Holds-expire :
    (p : WsMessage → Bool) (now : ℕ) (r : Replay) (log : List WsMessage)
    → Holds p r log
    → Holds p (expire now r) log
unfolding Holds
Holds-expire p now r log h after_seq w le =
    let expired = expire_loop-later after_seq w now r.messages r.forgotten_through le in
    expired.0 ∙ h after_seq w expired.1

-- The message that is pushed is the log's newest.
pub Holds-push :
    (p : WsMessage → Bool) (now capacity : ℕ) (msg : WsMessage) (r : Replay) (log : List WsMessage)
    → p msg ≡ true
    → Holds p r log
    → Holds p (push now msg capacity r) (log ++ msg ∷ [])
unfolding Holds select
Holds-push p now capacity msg r log fits h after_seq w le =
    let pushed = push-later after_seq w now capacity msg r le in
    pushed.0
    ∙ select-append _ (messages_of r) (msg ∷ [])
    ∙ rw (h after_seq w pushed.1)
        (ground (arith, select-append (λ m. p m && later_and after_seq w m) log (msg ∷ [])))

-- A message of another buffer changes nothing.
pub Holds-other :
    (p : WsMessage → Bool) (msg : WsMessage) (r : Replay) (log : List WsMessage)
    → p msg ≡ false
    → Holds p r log
    → Holds p r (log ++ msg ∷ [])
unfolding Holds select
Holds-other p msg r log misses h after_seq w le =
    rw (select-append (λ m. p m && later_and after_seq w m) log (msg ∷ []), misses, append-nil)
      (h after_seq w le)

-- The buffer answers with what the log holds, or not at all.
pub after-Holds :
    (p : WsMessage → Bool) (r : Replay) (log : List WsMessage) (after_seq : ℕ)
    (w : WsMessage → Bool)
    → Holds p r log
    → (after r after_seq w ≡ none)
      ⊎ (after r after_seq w ≡ some (select (λ m. p m && later_and after_seq w m) log))
unfolding Holds after
after-Holds p r log after_seq w h = elim (Bool-cases (ltb after_seq r.forgotten_through)) [
  | inl e ↦ inl (rw e refl)
  | inr e ↦ inr (rw (e, h after_seq w (ground arith)) refl)
]
