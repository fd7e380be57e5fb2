-- ===== src/Live/Return.antt =====
-- A socket that was up to date, was away for a while, and resumes within the replay window.
use agro.Base.{
  All-select_of, ℕ, suc, ◌+◌, ◌-◌, ◌≤◌, ◌<◌, ◌^◌, ◌++◌, ◌≡◌, ◌≢◌, refl, sym, ap, subst, ◌∙◌, Bool,
  true, false, List, [], ◌∷◌, Option, none, some, inl, inr, arith, ltb, leb, length, length-append,
  All, All-map, select, select-append, map, Text, same, same_iff, Bool-cases, Option-cases,
}
use mathlib.Core.List.{append_assoc, append-nil}
use agro.Live.{WsMessage, Held, Replay, replay_ttl, expire, after, seq_or_zero, push}
use agro.Live.Channels.{
  Channels, key, stamp, fetch_add, publish, publish_to, replay_after, after_global, extend_found,
  hub_replay_after, get, seq_rank, replay_capacity, user_replay_capacity,
}
use agro.Live.Table.{or_empty, get-entry_or_default}
use agro.Live.Stream.{Runs, Numbered, Runs-Buffers, for_everyone, for_account}
use agro.Live.Stream.Runs.{published}
use agro.Live.Window.{Keeps, IsFresh, push-Keeps, expire-Keeps}
use agro.Live.Aged.{Aged-law}
use agro.Live.Resume.{hub_replay_after_exact, missed, Runs-Numbered}

-- The messages published while the socket is away, each with its instant.
pub record Publication : Type 0 where
  pub now : ℕ
  pub msg : WsMessage

unfoldable pub publish_all : Channels → List Publication → Channels
unfolding publish
publish_all c [] = c
publish_all c (b ∷ burst) = publish_all (publish c b.now b.msg).0 burst

-- The same as the buffers hold them.
unfoldable pub stamped : Channels → List Publication → List Held
unfolding publish
stamped c [] = []
stamped c (b ∷ burst) =
    record { at = b.now; msg = stamp c b.msg } ∷ stamped (publish c b.now b.msg).0 burst

abbrev pub everyone_in : List Held → List Held
everyone_in = select (λ h. for_everyone h.msg)

abbrev pub account_in : Text → List Held → List Held
account_in k = select (λ h. for_account k h.msg)

record Within (p : ℕ) (k : Text) (news : List Held) (c : Channels) : Type 0 where
  global : Keeps p (everyone_in news) c.global_replay
  account : Keeps p (account_in k news) (or_empty (get k c.user_replay))

-- What was held before the socket left is old.
Within-start :
    (log : List WsMessage) (c : Channels) (k : Text)
    → Runs log c
    → Numbered log c
    → Within (length log) k [] c
unfolding select
Within-start log c k runs n =
    let aged = Runs-Buffers Aged-law runs in
    let below =
      All-map (λ m. seq_rank m ≤ c.next_seq) (λ m. seq_or_zero m.seq ≤ length log) log
        (λ m h. ground (arith, n.counted)) n.below in
    record {
      global = record {
        olds = c.global_replay.messages;
        split = sym (append-nil _);
        old = (aged.global (length log) below).0;
        forgotten = (aged.global (length log) below).1;
      };
      account = record {
        olds = (or_empty (get k c.user_replay)).messages;
        split = sym (append-nil _);
        old = (aged.accounts k (length log) below).0;
        forgotten = (aged.accounts k (length log) below).1;
      };
    }

module _ (p now : ℕ) (news : List Held) (msg : WsMessage) (q : Held → Bool) where
  abbrev newest : Held
  newest = record { at = now; msg = msg }

  push_chosen :
      (capacity : ℕ) (r : Replay)
      → q newest ≡ true
      → All (IsFresh now) news
      → length (select q (news ++ newest ∷ [])) ≤ capacity
      → Keeps p (select q news) r
      → Keeps p (select q (news ++ newest ∷ [])) (push now msg capacity r)
  unfolding select
  push_chosen capacity r e fresh room k =
      let s = select-append q news (newest ∷ []) ∙ rw e refl in
      let room' : length (select q news) + 1 ≤ capacity =
        omega (arith, ap length s, length-append (select q news) (newest ∷ [])) in
      rw s (push-Keeps p now capacity (select q news) msg r (All-select_of _ q news fresh) room' k)

  push_other :
      (r : Replay)
      → q newest ≡ false
      → Keeps p (select q news) r
      → Keeps p (select q (news ++ newest ∷ [])) r
  unfolding select
  push_other r e k = rw (select-append q news (newest ∷ []), e, append-nil) k

module _ (p : ℕ) (k : Text) (now : ℕ) (news : List Held) where
  abbrev IsRoomy : List Held → Type 0
  IsRoomy hs =
      (length (everyone_in hs) ≤ replay_capacity)
      × (length (account_in k hs) ≤ user_replay_capacity)

  publish_to-Within :
      (c : Channels) (msg : WsMessage) (to : Option Text)
      → msg.user_id ≡ to
      → All (IsFresh now) news
      → IsRoomy (news ++ record { at = now; msg = msg } ∷ [])
      → Within p k news c
      → Within p k (news ++ record { at = now; msg = msg } ∷ []) (publish_to c now msg to).0
  unfolding publish_to
  publish_to-Within c msg none e fresh room w = record {
    global =
        push_chosen p now news msg _ replay_capacity c.global_replay (rw e refl) fresh room.0
          w.global;
    account = push_other p now news msg _ _ (rw e refl) w.account;
  }
  publish_to-Within c msg (some user_id) e fresh room w = record {
    global = push_other p now news msg _ _ (rw e refl) w.global;
    account =
        rw (get-entry_or_default k (key user_id) (push now msg user_replay_capacity) c.user_replay)
          (elim (Bool-cases (same (key user_id) k)) [
            | inl s ↦
                rw (s, (same_iff (key user_id) k).0 s)
                  (push_chosen p now news msg _ user_replay_capacity _ (rw e s) fresh room.1
                    w.account)
            | inr s ↦ rw s (push_other p now news msg _ _ (rw e s) w.account)
          ]);
  }

-- Published no later than `end`, and within the replay window of it.
abbrev pub IsInWindow : ℕ → Held → Type 0
IsInWindow end h = (h.at ≤ end) × (end - h.at ≤ replay_ttl)

module _ (p : ℕ) (k : Text) (end : ℕ) where
  All-front {ℓ κ} :
      {A : Type ℓ} (P : A → Type κ) (xs ys : List A) → All P (xs ++ ys) → All P xs × All P ys
  All-front P [] ys h = (tt, h)
  All-front P (x ∷ xs) ys h = let rest = All-front P xs ys h.1 in ((h.0, rest.0), rest.1)

  length-select_front :
      (q : Held → Bool) (xs ys : List Held) → length (select q xs) ≤ length (select q (xs ++ ys))
  length-select_front q xs ys =
      omega (arith, ap length (select-append q xs ys), length-append (select q xs) (select q ys))

  publish-Within :
      (news : List Held) (c : Channels) (b : Publication)
      → All (IsInWindow end) (news ++ record { at = b.now; msg = stamp c b.msg } ∷ [])
      → IsRoomy p k b.now news (news ++ record { at = b.now; msg = stamp c b.msg } ∷ [])
      → Within p k news c
      → Within p k
          (news ++ record { at = b.now; msg = stamp c b.msg } ∷ [])
          (publish c b.now b.msg).0
  unfolding publish
  publish-Within news c b window room w =
      let split = All-front (IsInWindow end) news _ window in
      publish_to-Within p k b.now news (record c { next_seq = fetch_add c.next_seq })
        (stamp c b.msg) b.msg.user_id refl (All-map _ _ news (λ h i. omega arith) split.0) room
        (record { global = w.global; account = w.account })

  publish_all-Within :
      (burst : List Publication) (news : List Held) (c : Channels)
      → All (IsInWindow end) (news ++ stamped c burst)
      → IsRoomy p k end news (news ++ stamped c burst)
      → Within p k news c
      → Within p k (news ++ stamped c burst) (publish_all c burst)
  unfolding publish_all stamped
  publish_all-Within [] news c window room w = rw append-nil w
  publish_all-Within (b ∷ burst) news c window room w =
      let h : Held = record { at = b.now; msg = stamp c b.msg } in
      let rest = stamped (publish c b.now b.msg).0 burst in
      let e : (news ++ h ∷ []) ++ rest ≡ news ++ h ∷ rest = append_assoc news (h ∷ []) rest in
      let window' = subst (All (IsInWindow end)) (sym e) window in
      let room' = subst (IsRoomy p k end news) (sym e) room in
      let first =
        publish-Within news c b (All-front _ (news ++ h ∷ []) rest window').0
          (
            omega (
              arith,
              room'.0,
              length-select_front (λ h. for_everyone h.msg) (news ++ h ∷ []) rest,
            ),
            omega (
              arith,
              room'.1,
              length-select_front (λ h. for_account k h.msg) (news ++ h ∷ []) rest,
            ),
          )
          w in
      subst (λ hs. Within p k hs (publish_all (publish c b.now b.msg).0 burst)) e
        (publish_all-Within burst (news ++ h ∷ []) _ window' room' first)

publish_all-Runs :
    (burst : List Publication) {log : List WsMessage} {c : Channels}
    → Runs log c
    → Runs (log ++ map (λ h. h.msg) (stamped c burst)) (publish_all c burst)
unfolding publish_all stamped
publish_all-Runs [] {log} {c} runs = subst (λ l. Runs l c) (sym (append-nil log)) runs
publish_all-Runs (b ∷ burst) {log} {c} runs =
    subst (λ l. Runs l (publish_all (publish c b.now b.msg).0 burst))
      (append_assoc log (stamp c b.msg ∷ []) _)
      (publish_all-Runs burst (published runs b.now b.msg))

-- A position that was handed out, and that neither buffer has forgotten past, is answered.
replay_after-some :
    (c : Channels) (now after_seq : ℕ) (name : Text) (wanted : WsMessage → Bool)
    → after_seq < c.next_seq
    → (expire now c.global_replay).forgotten_through ≤ after_seq
    → (expire now (or_empty (get (key name) c.user_replay))).forgotten_through ≤ after_seq
    → (replay_after c now after_seq (some name) wanted).1 ≢ none
unfolding replay_after after_global extend_found after
replay_after-some c now after_seq name wanted lt g a =
    let issued : leb c.next_seq after_seq ≡ false = ground arith in
    let kept : ltb after_seq (expire now c.global_replay).forgotten_through ≡ false =
      ground arith in
    elim (Option-cases (get (key name) c.user_replay)) [
      | inl e ↦ rw (issued, kept, e) (λ n. absurd (cc n))
      | inr (r, e) ↦
          let left : ltb after_seq (expire now r).forgotten_through ≡ false =
            ground
              (arith, subst (λ o. (expire now (or_empty o)).forgotten_through ≤ after_seq) e a) in
          rw (issued, kept, e, left) (λ n. absurd (cc n))
    ]

length-map : (hs : List Held) → length (map (λ h. h.msg) hs) ≡ length hs
length-map [] = refl
length-map (h ∷ hs) = ap suc (length-map hs)

-- A socket of an account that had seen every message, and resumes after a burst of publications
-- that are no older than thirty seconds by then, at most 512 of them for everyone and at most 128
-- for the account, is handed exactly the messages for it that were published since its position.
pub resume_within_window :
    (log : List WsMessage) (c : Channels) (burst : List Publication) (now : ℕ) (name : Text)
    (device : Option Text)
    → Runs log c
    → length log + length (stamped c burst) + 1 < 2 ^ 64
    → All (IsInWindow now) (stamped c burst)
    → length (everyone_in (stamped c burst)) ≤ replay_capacity
    → length (account_in (key name) (stamped c burst)) ≤ user_replay_capacity
    → (hub_replay_after (publish_all c burst) now (length log) (some name) device).1
      ≡ some (missed (log ++ map (λ h. h.msg) (stamped c burst)) (length log) (some name) device)
unfolding hub_replay_after
resume_within_window log c burst now name device runs room window roomy_all roomy_account =
    let after = publish_all c burst in
    let heard = stamped c burst in
    let grown = length-append log (map (λ h. h.msg) heard) in
    let size = length-map heard in
    let runs' = publish_all-Runs burst runs in
    let room' : length (log ++ map (λ h. h.msg) heard) + 1 < 2 ^ 64 = omega (arith, grown, size) in
    let start = Within-start log c (key name) runs (Runs-Numbered runs (omega arith)) in
    let w =
      publish_all-Within (length log) (key name) now burst [] c window (roomy_all, roomy_account)
        start in
    let fresh = All-map (IsInWindow now) (IsFresh now) heard (λ h i. i.1) window in
    let global =
      expire-Keeps (length log) now _ after.global_replay (All-select_of _ _ heard fresh)
        w.global in
    let account =
      expire-Keeps (length log) now _ (or_empty (get (key name) after.user_replay))
        (All-select_of _ _ heard fresh) w.account in
    let issued : length log < after.next_seq =
      omega (arith, (Runs-Numbered runs' room').counted, grown) in
    elim (hub_replay_after_exact _ after now (length log) (some name) device runs' room') [
      | inl e ↦ absurd (
          replay_after-some after now (length log) name _ issued global.forgotten account.forgotten
            e)
      | inr e ↦ e
    ]
