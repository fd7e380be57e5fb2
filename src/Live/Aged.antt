-- ===== src/Live/Aged.antt =====
-- No buffer remembers, or has forgotten, a position past the newest that was published.
use agro.Base.{
  ℕ, ◌≤◌, ◌++◌, Bool, List, [], ◌∷◌, arith, length, All, All-append, Bool-cases, inl, inr, ltb, suc,
  ◌-◌,
}
use agro.Live.{
  WsMessage, Held, Replay, replay_ttl, expire_loop, shrink_loop, push, seq_or_zero, forget_front,
}
use agro.Live.Window.{IsOld}
use agro.Live.Stream.{BufferLaw}

abbrev pub IsAgedAt : ℕ → Replay → Type 0
IsAgedAt q r = All (IsOld q) r.messages × (r.forgotten_through ≤ q)

-- Whatever bounds the log's positions bounds the buffer's.
abbrev pub Aged : (WsMessage → Bool) → Replay → List WsMessage → Type 0
Aged p r log = (q : ℕ) → All (λ m. seq_or_zero m.seq ≤ q) log → IsAgedAt q r

module _ (q : ℕ) where
  expire_loop-IsAgedAt :
      (now : ℕ) (hs : List Held) (f : ℕ)
      → All (IsOld q) hs
      → f ≤ q
      → IsAgedAt q (expire_loop now hs f)
  unfolding expire_loop
  expire_loop-IsAgedAt now [] f old le = (tt, le)
  expire_loop-IsAgedAt now (h ∷ hs) f old le = elim (Bool-cases (ltb replay_ttl (now - h.at))) [
    | inl e ↦ rw e (expire_loop-IsAgedAt now hs (forget_front h f) old.1 (ground (arith, old.0)))
    | inr e ↦ rw e (old, le)
  ]

  shrink_loop-IsAgedAt :
      (capacity : ℕ) (hs : List Held) (f : ℕ)
      → All (IsOld q) hs
      → f ≤ q
      → IsAgedAt q (shrink_loop capacity hs f)
  unfolding shrink_loop
  shrink_loop-IsAgedAt capacity [] f old le = (tt, le)
  shrink_loop-IsAgedAt capacity (h ∷ hs) f old le =
      elim (Bool-cases (ltb capacity (suc (length hs)))) [
        | inl e ↦
            rw e (shrink_loop-IsAgedAt capacity hs (forget_front h f) old.1 (ground (arith, old.0)))
        | inr e ↦ rw e (old, le)
      ]

  push-IsAgedAt :
      (now capacity : ℕ) (msg : WsMessage) (r : Replay)
      → seq_or_zero msg.seq ≤ q
      → IsAgedAt q r
      → IsAgedAt q (push now msg capacity r)
  unfolding push
  push-IsAgedAt now capacity msg r le aged =
      let grown =
        expire_loop-IsAgedAt now (r.messages ++ record { at = now; msg = msg } ∷ [])
          r.forgotten_through (All-append _ r.messages _ aged.0 (le, tt)) aged.1 in
      shrink_loop-IsAgedAt capacity _ _ grown.0 grown.1

  front :
      (log ms : List WsMessage)
      → All (λ m. seq_or_zero m.seq ≤ q) (log ++ ms)
      → All (λ m. seq_or_zero m.seq ≤ q) log × All (λ m. seq_or_zero m.seq ≤ q) ms
  front [] ms h = (tt, h)
  front (m ∷ log) ms h = let rest = front log ms h.1 in ((h.0, rest.0), rest.1)

pub Aged-law : BufferLaw Aged
Aged-law = record {
  starts = λ p q h. (tt, omega arith);
  expires = λ p now r log aged q h.
      expire_loop-IsAgedAt q now r.messages r.forgotten_through (aged q h).0 (aged q h).1;
  pushes = λ p now capacity msg r log fits aged q h.
      let split = front q log (msg ∷ []) h in
      push-IsAgedAt q now capacity msg r split.1.0 (aged q split.0);
  passes = λ p msg r log misses aged q h. aged q (front q log (msg ∷ []) h).0;
}
