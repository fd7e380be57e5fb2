-- ===== src/Library/Spooling.antt =====
-- The spool: src/library/spool.rs, but for the periodic sweep; and the answers to an upload.
use agro.Base.{
  ℕ, ◌+◌, ◌*◌, Bool, List, [], ◌∷◌, Option, none, some, Text, same, eq_nocase, trim, select, delete,
  head?, to_lowercase,
}
use agro.Library.{
  Library, Account, UploadSession, SpoolItem, effective_quota, write_file, remove_file, hour,
}
use agro.Library.Index.{spool_insert, spool_delete, spool_evictable_for}

pub data PutReply : Type 0 where
  no_such_upload not_yours past_the_end cannot_truncate interrupted : PutReply
  too_long : (quota : Option ℕ) → PutReply
  partial : (received : ℕ) → PutReply
  vanished mismatch spooled archived unfiled : PutReply

abbrev pub is_account : Text → Account → Bool
is_account username a = eq_nocase a.username (trim username)

abbrev pub budget_of : Library → Option Account → ℕ
budget_of s none = s.storage.spool_max_bytes
budget_of s (some a) = elim (effective_quota a) [
  | none ↦ s.storage.spool_max_bytes
  | some quota ↦ quota
]

unfoldable pub remove_doomed : List SpoolItem → Library → Library
unfolding spool_delete delete same
remove_doomed [] s = s
remove_doomed (i ∷ doomed) s = remove_doomed doomed (record s {
  spooled = remove_file i.content_hash s.spooled;
  spool_items = spool_delete i.content_hash s.spool_items;
})

-- The quota of the account is its budget, and for an uncapped one the deployment's setting.
unfoldable pub evict_spool : Library → Text → ℕ → Library
unfolding select spool_evictable_for remove_doomed to_lowercase trim
evict_spool s user_id now =
    remove_doomed
      (spool_evictable_for s user_id (budget_of s (head? (select (is_account user_id) s.accounts)))
        now)
      s

-- The file moved out of the parts, and its row.
unfoldable pub park : Library → UploadSession → List ℕ → ℕ → Library
unfolding delete same spool_insert
park s session bytes now = record s {
  spooled = write_file session.content_hash bytes s.spooled;
  parts = remove_file session.upload_id s.parts;
  spool_items =
      spool_insert
        (record {
          content_hash = session.content_hash;
          size_bytes = session.size_bytes;
          from_device = session.device_id;
          user_id = session.user_id;
          created_at = now;
          expires_at = now + s.storage.spool_ttl_hours * hour;
        })
        s.spool_items;
}

unfoldable pub spool : Library → UploadSession → List ℕ → ℕ → Library × PutReply
unfolding park evict_spool
spool s session bytes now = (evict_spool (park s session bytes now) session.user_id now, spooled)
