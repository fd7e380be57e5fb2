-- ===== src/Library/Guests.antt =====
-- What an account that is not the admin can fetch.
use agro.Base.{
  ℕ, ◌≡◌, refl, ◌∙◌, subst, true, false, not, List, Option, none, some, inl, inr, Text, Bool-cases,
}
use agro.Library.{Library, Account, File, read_file}
use agro.Library.Index.{spool_owner}
use agro.Library.Uploads.{is_owner, is_sha256_hex}
use agro.Library.Archiving.{FileTags}
use agro.Library.Fetch.{
  Fetched, fetch, served, resolve_fetchable, or_file, found, bad_hash, not_found, fetch_archived,
}
use agro.Library.Integrity.{History, History-IsIntact, read_file-All}

module _ (sha256 : List ℕ → Text) (s : Library) (user : Account) (content_hash : Text) where
  -- What is served is the file of the hash, staged for the account.
  IsStaged : Fetched → Type 0
  IsStaged (found bytes) =
      (sha256 bytes ≡ content_hash) × (is_owner user.username (spool_owner s content_hash) ≡ true)
  IsStaged bad_hash = Unit
  IsStaged not_found = Unit

  fetch_archived-guest : user.is_admin ≡ false → fetch_archived s user content_hash ≡ none
  unfolding fetch_archived
  fetch_archived-guest e = rw e refl

  served-IsStaged :
      (staged : Option File)
      → ((f : File) → staged ≡ some f → sha256 f.bytes ≡ content_hash)
      → is_owner user.username (spool_owner s content_hash) ≡ true
      → IsStaged (served (or_file staged none))
  unfolding IsStaged
  served-IsStaged none intact mine = tt
  served-IsStaged (some f) intact mine = (intact f refl, mine)

  resolve_fetchable-guest :
      user.is_admin ≡ false
      → ((f : File) → read_file content_hash s.spooled ≡ some f → sha256 f.bytes ≡ content_hash)
      → IsStaged (served (resolve_fetchable s user content_hash))
  unfolding resolve_fetchable fetch_archived IsStaged
  resolve_fetchable-guest guest intact =
      elim (Bool-cases (is_owner user.username (spool_owner s content_hash))) [
        | inl k ↦ rw (k, guest) (served-IsStaged (read_file content_hash s.spooled) intact k)
        | inr k ↦ rw (k, guest) tt
      ]

  fetch-IsStaged :
      user.is_admin ≡ false
      → ((f : File) → read_file content_hash s.spooled ≡ some f → sha256 f.bytes ≡ content_hash)
      → IsStaged (fetch s user content_hash)
  unfolding fetch IsStaged
  fetch-IsStaged guest intact = elim (Bool-cases (not (is_sha256_hex content_hash))) [
    | inl e ↦ rw e tt
    | inr e ↦ rw e (resolve_fetchable-guest guest intact)
  ]

-- After any history of uploads and sweeps from an empty spool, an account that is not the admin is
-- served a file only if the file was staged for it, and then the bytes are those that the hash it
-- asked for names.
pub fetch_guest_staged :
    (sha256 : List ℕ → Text) (read_tags : List ℕ → FileTags) (s : Library) (user : Account)
    (content_hash : Text) (bytes : List ℕ)
    → History sha256 read_tags s
    → user.is_admin ≡ false
    → fetch s user content_hash ≡ found bytes
    → (sha256 bytes ≡ content_hash) × (is_owner user.username (spool_owner s content_hash) ≡ true)
unfolding IsStaged
fetch_guest_staged sha256 read_tags s user content_hash bytes past guest e =
    subst (IsStaged sha256 s user content_hash) e (
      fetch-IsStaged sha256 s user content_hash guest (λ f r.
        let read =
          read_file-All (λ x. sha256 x.bytes ≡ x.name) content_hash s.spooled f
            (History-IsIntact sha256 read_tags past) r in
        read.0 ∙ read.1))
