-- ===== src/Storage/Collector/Graph.antt =====
-- What an object refers to, and what is reachable from the published roots.
use filecloud.Prelude.{◌≡◌, true, List, [], ◌∷◌, map, if◌then◌else◌}
use filecloud.Prelude.Bytes.{codes, same}
use filecloud.Prelude.Outcome.{Result, ok, err}
use filecloud.Object.Values.{File, Directory, DirectoryEntry, CommitObject}
use filecloud.Storage.Objects.{Key, has, Stored, Verifier, file_at, directory_at, commit_at}
use filecloud.Storage.Collector.{Root, at, commit_key}

abbrev pub file_children : Key → Result File → List Key
file_children k (err e) = []
file_children k (ok f) = map (λ b. at k (codes "blocks") b) f.blocks

-- An entry that is no directory is a file, in a directory that VerifyDirectory accepts.
abbrev pub entry_key : Key → DirectoryEntry → Key
entry_key k e =
    if same e.kind (codes "Directory")
    then at k (codes "directories") e.id
    else at k (codes "files") e.id

abbrev pub directory_children : Key → Result Directory → List Key
directory_children k (err e) = []
directory_children k (ok d) = map (entry_key k) d.entries

abbrev pub commit_children : Key → Result CommitObject → List Key
commit_children k (err e) = []
commit_children k (ok c) =
    at k (codes "directories") c.root ∷ map (λ p. at k (codes "commits") p) c.parents

abbrev pub root_key : Root → Key
root_key r = commit_key r r.id

module _ (v : Verifier) (disk : List Stored) where
  -- The references of the object that is stored under a key.
  abbrev pub children : Key → List Key
  children k =
      if same k.kind (codes "commits")
      then commit_children k (commit_at v disk k)
      else if same k.kind (codes "directories")
      then directory_children k (directory_at v disk k)
      else if same k.kind (codes "files")
      then file_children k (file_at v disk k)
      else []

  -- An object that a published commit refers to, over any number of references.
  pub data Reach (roots : List Root) : Key → Type 0 where
    root : {k : Key} → has k (map root_key roots) ≡ true → Reach roots k
    refer : {k c : Key} → Reach roots k → has c (children k) ≡ true → Reach roots c
