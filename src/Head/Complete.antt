-- ===== src/Head/Complete.antt =====
-- When a snapshot is complete: everything below its root is there and has the identity, the form and
-- the sizes that the objects above it say. This is the specification of validateRoot.
use filecloud.Prelude.{ℕ, ◌+◌, ◌≡◌, true, ◌||◌, some, List, [], ◌∷◌, length, ltb, ◌==◌}
use filecloud.Prelude.Bytes.{Bytes, codes, same}
use filecloud.Prelude.Outcome.{ok}
use filecloud.Object.Values.{File, Directory, DirectoryEntry, CommitObject}
use filecloud.Object.Canonical.{max_block_size}
use filecloud.Head.State.{block_content, Opened, Store, read_metadata}
use filecloud.Head.Snapshot.{max_commit_body, max_file_body, max_directory_body, checked_block}

module _ (store : Store) where
  pub record IsBlock (id : Bytes) (size : ℕ) : Type 0 where
    pub file : Opened
    pub stored : store.get_object (codes "blocks") id ≡ ok (some file)
    pub checked : checked_block store id file.size (block_content file) ≡ ok size

  -- All blocks are there, all but the last are full, and their sizes add up to the number.
  abbrev pub AddUp : List Bytes → ℕ → Type 0
  AddUp [] n = n ≡ 0
  AddUp (id ∷ ids) n =
      (size : ℕ) × (rest : ℕ) × IsBlock id size
      × ((ltb (length ids) 1 || (size == max_block_size)) ≡ true)
      × AddUp ids rest
      × (n ≡ size + rest)

  pub record IsFile (id : Bytes) : Type 0 where
    pub content : Bytes
    pub stored : read_metadata store (codes "files") id max_file_body ≡ ok (some content)
    pub file : File
    pub verified : store.verifier.verify_file content id ≡ ok file
    pub blocks : AddUp file.blocks file.size

  pub record IsDirectory (id : Bytes) (d : Directory) : Type 0 where
    pub content : Bytes
    pub stored : read_metadata store (codes "directories") id max_directory_body ≡ ok (some content)
    pub verified : store.verifier.verify_directory content id ≡ ok d

  pub record IsCommit (id : Bytes) (c : CommitObject) : Type 0 where
    pub content : Bytes
    pub stored : read_metadata store (codes "commits") id max_commit_body ≡ ok (some content)
    pub verified : store.verifier.verify_commit content id ≡ ok c

  mutual
    pub data Complete : Bytes → Type 0 where
      complete : {id : Bytes} (d : Directory) → IsDirectory id d → Entries d.entries → Complete id

    pub data Entries : List DirectoryEntry → Type 0 where
      no_more : Entries []
      subdirectory :
          {e : DirectoryEntry} {es : List DirectoryEntry}
          → same e.kind (codes "Directory") ≡ true
          → Complete e.id
          → Entries es
          → Entries (e ∷ es)
      file :
          {e : DirectoryEntry} {es : List DirectoryEntry}
          → same e.kind (codes "File") ≡ true
          → IsFile e.id
          → Entries es
          → Entries (e ∷ es)
