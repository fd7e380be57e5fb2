-- ===== src/Live/Stream.antt =====
-- Every message published since the start, and the channels after it.
use agro.Base.{
  ℕ, ◌+◌, ◌≤◌, ◌++◌, ◌≡◌, refl, subst, Bool, true, false, List, [], ◌∷◌, Option, none, some, inl,
  inr, Text, same, same_iff, same_refl, Bool-cases, length, All, IsAscending, leb,
}
use mathlib.Core.Option as Option
use agro.Live.{empty_replay, WsMessage, Replay, expire, push}
use agro.Live.Channels.{
  fetch_add, Channels, new, key, stamp, publish, publish_to, replay_after, after_global,
  extend_found, sweep, subscribe_user, seq_rank, get, get_mut, user_replay_capacity,
  replay_capacity,
}
use agro.Live.Table.{or_empty, get-entry_or_default, get-get_mut, get-expire_entry}

-- The channels after the messages of the log were published, in that order, with sweeps, resumes
-- and new sockets between them.
pub data Runs : List WsMessage → Channels → Type 0 where
  boot : Runs [] new
  published :
      {log : List WsMessage} {c : Channels}
      → Runs log c
      → (now : ℕ) (msg : WsMessage) → Runs (log ++ stamp c msg ∷ []) (publish c now msg).0
  swept : {log : List WsMessage} {c : Channels} → Runs log c → (now : ℕ) → Runs log (sweep c now)
  resumed :
      {log : List WsMessage} {c : Channels}
      → Runs log c
      → (now after_seq : ℕ) (username : Option Text) (wanted : WsMessage → Bool)
      → Runs log (replay_after c now after_seq username wanted).0
  subscribed :
      {log : List WsMessage} {c : Channels}
      → Runs log c
      → (username : Text) → Runs log (record c { users = subscribe_user username c.users })

abbrev pub for_everyone : WsMessage → Bool
for_everyone m = elim m.user_id [ none ↦ true | some _ ↦ false ]

abbrev pub for_account : Text → WsMessage → Bool
for_account k m = elim m.user_id [ none ↦ false | some user_id ↦ same (key user_id) k ]

pub record Numbered (log : List WsMessage) (c : Channels) : Type 0 where
  pub counted : c.next_seq ≡ length log + 1
  pub ascending : IsAscending seq_rank log
  pub below : All (λ m. seq_rank m ≤ c.next_seq) log

-- What is asked of a fact `P` about a buffer, whose messages are those of the log with `p`, to hold
-- of every buffer at all times.
pub record BufferLaw (P : (WsMessage → Bool) → Replay → List WsMessage → Type 0) : Type 0 where
  pub starts : (p : WsMessage → Bool) → P p empty_replay []
  pub expires :
      (p : WsMessage → Bool) (now : ℕ) (r : Replay) (log : List WsMessage)
      → P p r log
      → P p (expire now r) log
  pub pushes :
      (p : WsMessage → Bool) (now capacity : ℕ) (msg : WsMessage) (r : Replay)
      (log : List WsMessage)
      → p msg ≡ true
      → P p r log
      → P p (push now msg capacity r) (log ++ msg ∷ [])
  pub passes :
      (p : WsMessage → Bool) (msg : WsMessage) (r : Replay) (log : List WsMessage)
      → p msg ≡ false
      → P p r log
      → P p r (log ++ msg ∷ [])

pub record Buffers (P : (WsMessage → Bool) → Replay → List WsMessage → Type 0)
    (log : List WsMessage) (c : Channels) : Type 0 where
  pub global : P for_everyone c.global_replay log
  pub accounts : (k : Text) → P (for_account k) (or_empty (get k c.user_replay)) log

module _ {P : (WsMessage → Bool) → Replay → List WsMessage → Type 0} (law : BufferLaw P) where
  new-Buffers : Buffers P [] new
  unfolding get
  new-Buffers = record {
    global = law.starts for_everyone;
    accounts = λ k. law.starts (for_account k);
  }

  map_expire :
      (p : WsMessage → Bool) (now : ℕ) (found : Option Replay) (log : List WsMessage)
      → P p (or_empty found) log
      → P p (or_empty (Option.map (expire now) found)) log
  map_expire p now none log h = h
  map_expire p now (some r) log h = law.expires p now r log h

  module _ (log : List WsMessage) (c : Channels) (b : Buffers P log c) where
    sweep-Buffers : (now : ℕ) → Buffers P log (sweep c now)
    unfolding sweep
    sweep-Buffers now = record {
      global = law.expires for_everyone now c.global_replay log b.global;
      accounts = λ k.
          rw (get-expire_entry k now c.user_replay)
            (map_expire (for_account k) now (get k c.user_replay) log (b.accounts k));
    }

    pub expire_global-Buffers :
        (now : ℕ) → Buffers P log (record c { global_replay = expire now c.global_replay })
    expire_global-Buffers now = record {
      global = law.expires for_everyone now c.global_replay log b.global;
      accounts = b.accounts;
    }

    expire_account-Buffers :
        (now : ℕ) (user : Text)
        → Buffers P log (record c { user_replay = get_mut user (expire now) c.user_replay })
    expire_account-Buffers now user = record {
      global = b.global;
      accounts = λ k.
          rw (get-get_mut k user (expire now) c.user_replay) (elim (Bool-cases (same user k)) [
            | inl e ↦ rw e (map_expire (for_account k) now (get k c.user_replay) log (b.accounts k))
            | inr e ↦ rw e (b.accounts k)
          ]);
    }

    publish_to-Buffers :
        (now : ℕ) (msg : WsMessage) (to : Option Text)
        → msg.user_id ≡ to
        → Buffers P (log ++ msg ∷ []) (publish_to c now msg to).0
    unfolding publish_to
    publish_to-Buffers now msg none e = record {
      global =
          law.pushes for_everyone now replay_capacity msg c.global_replay log (rw e refl) b.global;
      accounts = λ k. law.passes (for_account k) msg _ log (rw e refl) (b.accounts k);
    }
    publish_to-Buffers now msg (some user_id) e = record {
      global = law.passes for_everyone msg c.global_replay log (rw e refl) b.global;
      accounts = λ k.
          rw
            (get-entry_or_default k (key user_id) (push now msg user_replay_capacity) c.user_replay)
            (elim (Bool-cases (same (key user_id) k)) [
              | inl s ↦ rw s (
                  subst
                    (λ j.
                      P (for_account j)
                        (push now msg user_replay_capacity
                          (or_empty (get (key user_id) c.user_replay)))
                        (log ++ msg ∷ []))
                    ((same_iff (key user_id) k).0 s)
                    (law.pushes (for_account (key user_id)) now user_replay_capacity msg _ log
                      (rw e (same_refl (key user_id))) (b.accounts (key user_id))))
              | inr s ↦ rw s (law.passes (for_account k) msg _ log (rw e s) (b.accounts k))
            ]);
    }

  module _ (log : List WsMessage) where
    extend_found-Buffers :
        (c : Channels) (now after_seq : ℕ) (user : Text) (wanted : WsMessage → Bool)
        (found : List WsMessage) (replay : Option Replay)
        → Buffers P log c
        → Buffers P log (extend_found c now after_seq user wanted found replay).0
    unfolding extend_found
    extend_found-Buffers c now after_seq user wanted found none b = b
    extend_found-Buffers c now after_seq user wanted found (some r) b =
        expire_account-Buffers log c b now user

    after_global-Buffers :
        (c : Channels) (now after_seq : ℕ) (username : Option Text) (wanted : WsMessage → Bool)
        (found : Option (List WsMessage))
        → Buffers P log c
        → Buffers P log (after_global c now after_seq username wanted found).0
    unfolding after_global
    after_global-Buffers c now after_seq username wanted none b = b
    after_global-Buffers c now after_seq none wanted (some found) b = b
    after_global-Buffers c now after_seq (some name) wanted (some found) b =
        extend_found-Buffers c now after_seq (key name) wanted found _ b

    replay_after-Buffers :
        (c : Channels) (now after_seq : ℕ) (username : Option Text) (wanted : WsMessage → Bool)
        → Buffers P log c
        → Buffers P log (replay_after c now after_seq username wanted).0
    unfolding replay_after
    replay_after-Buffers c now after_seq username wanted b =
        elim (Bool-cases (leb c.next_seq after_seq)) [
          | inl e ↦ rw e b
          | inr e ↦ rw e (
              after_global-Buffers _ now after_seq username wanted _
                (expire_global-Buffers log c b now))
        ]

  -- The buffers never disagree with what was published.
  pub Runs-Buffers : {log : List WsMessage} {c : Channels} → Runs log c → Buffers P log c
  unfolding publish
  Runs-Buffers boot = new-Buffers
  Runs-Buffers (published {log} {c} runs now msg) =
      let b = Runs-Buffers runs in
      publish_to-Buffers log (record c { next_seq = fetch_add c.next_seq })
        (record { global = b.global; accounts = b.accounts }) now (stamp c msg) msg.user_id refl
  Runs-Buffers (swept {log} {c} runs now) = sweep-Buffers log c (Runs-Buffers runs) now
  Runs-Buffers (resumed {log} {c} runs now after_seq username wanted) =
      replay_after-Buffers log c now after_seq username wanted (Runs-Buffers runs)
  Runs-Buffers (subscribed {log} {c} runs username) =
      let b = Runs-Buffers runs in record { global = b.global; accounts = b.accounts }
