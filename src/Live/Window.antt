-- ===== src/Live/Window.antt =====
-- How far back a replay buffer reaches: what is pushed within the window, up to the capacity, is
-- still there.
use agro.Base.{
  Bool-cases, ℕ, suc, ◌+◌, ◌-◌, ◌≤◌, ◌++◌, ◌≡◌, refl, false, List, [], ◌∷◌, inl, inr, arith, ltb,
  length, length-append, All, All-append,
}
use mathlib.Core.List.{append_assoc}
use agro.Live.{
  WsMessage, Held, Replay, replay_ttl, expire, expire_loop, shrink_loop, push, forget_front,
  seq_or_zero,
}

-- Nothing of the buffer is newer than the position `p`.
abbrev pub IsOld : ℕ → Held → Type 0
IsOld p h = seq_or_zero h.msg.seq ≤ p

abbrev pub IsFresh : ℕ → Held → Type 0
IsFresh now h = now - h.at ≤ replay_ttl

-- The buffer is what it had up to the position `p`, as far as it is kept, and then `news`.
pub record Keeps (p : ℕ) (news : List Held) (r : Replay) : Type 0 where
  pub olds : List Held
  pub split : r.messages ≡ olds ++ news
  pub old : All (IsOld p) olds
  pub forgotten : r.forgotten_through ≤ p

module _ (p : ℕ) where
  expire_loop-news :
      (now : ℕ) (news : List Held) (f : ℕ)
      → All (IsFresh now) news
      → f ≤ p
      → Keeps p news (expire_loop now news f)
  unfolding expire_loop
  expire_loop-news now [] f fresh le = record { olds = []; split = refl; old = tt; forgotten = le }
  expire_loop-news now (h ∷ news) f fresh le =
      let young : ltb replay_ttl (now - h.at) ≡ false = ground (arith, fresh.0) in
      rw young (record { olds = []; split = refl; old = tt; forgotten = le })

  expire_loop-Keeps :
      (now : ℕ) (news olds : List Held) (f : ℕ)
      → All (IsFresh now) news
      → All (IsOld p) olds
      → f ≤ p
      → Keeps p news (expire_loop now (olds ++ news) f)
  unfolding expire_loop
  expire_loop-Keeps now news [] f fresh old le = expire_loop-news now news f fresh le
  expire_loop-Keeps now news (h ∷ olds) f fresh old le =
      elim (Bool-cases (ltb replay_ttl (now - h.at))) [
        | inl e ↦
            rw e (
              expire_loop-Keeps now news olds (forget_front h f) fresh old.1
                (ground (arith, old.0)))
        | inr e ↦ rw e (record { olds = h ∷ olds; split = refl; old = old; forgotten = le })
      ]

  shrink_loop-news :
      (capacity : ℕ) (news : List Held) (f : ℕ)
      → length news ≤ capacity
      → f ≤ p
      → Keeps p news (shrink_loop capacity news f)
  unfolding shrink_loop
  shrink_loop-news capacity [] f room le = record {
    olds = [];
    split = refl;
    old = tt;
    forgotten = le;
  }
  shrink_loop-news capacity (h ∷ news) f room le =
      let fits : ltb capacity (suc (length news)) ≡ false = ground arith in
      rw fits (record { olds = []; split = refl; old = tt; forgotten = le })

  shrink_loop-Keeps :
      (capacity : ℕ) (news olds : List Held) (f : ℕ)
      → length news ≤ capacity
      → All (IsOld p) olds
      → f ≤ p
      → Keeps p news (shrink_loop capacity (olds ++ news) f)
  unfolding shrink_loop
  shrink_loop-Keeps capacity news [] f room old le = shrink_loop-news capacity news f room le
  shrink_loop-Keeps capacity news (h ∷ olds) f room old le =
      elim (Bool-cases (ltb capacity (suc (length (olds ++ news))))) [
        | inl e ↦ rw e (
            shrink_loop-Keeps capacity news olds (forget_front h f) room old.1
              (ground (arith, old.0)))
        | inr e ↦ rw e (record { olds = h ∷ olds; split = refl; old = old; forgotten = le })
      ]

  pub expire-Keeps :
      (now : ℕ) (news : List Held) (r : Replay)
      → All (IsFresh now) news
      → Keeps p news r
      → Keeps p news (expire now r)
  expire-Keeps now news r fresh k =
      rw k.split (expire_loop-Keeps now news k.olds r.forgotten_through fresh k.old k.forgotten)

  pub push-Keeps :
      (now capacity : ℕ) (news : List Held) (msg : WsMessage) (r : Replay)
      → All (IsFresh now) news
      → length news + 1 ≤ capacity
      → Keeps p news r
      → Keeps p (news ++ record { at = now; msg = msg } ∷ []) (push now msg capacity r)
  unfolding push
  push-Keeps now capacity news msg r fresh room k =
      let h : Held = record { at = now; msg = msg } in
      let grown = news ++ h ∷ [] in
      let room' : length grown ≤ capacity = omega (arith, length-append news (h ∷ [])) in
      let fresh' : All (IsFresh now) grown = All-append _ news (h ∷ []) fresh (omega arith, tt) in
      let e : r.messages ++ h ∷ [] ≡ k.olds ++ grown =
        rw k.split (append_assoc k.olds news (h ∷ [])) in
      let kept = expire_loop-Keeps now grown k.olds r.forgotten_through fresh' k.old k.forgotten in
      rw (e, kept.split)
        (shrink_loop-Keeps capacity grown kept.olds _ room' kept.old kept.forgotten)
