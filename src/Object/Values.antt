-- ===== src/Object/Values.antt =====
-- The objects of internal/object/object.go and verified.go, and the record that every metadata
-- object is decoded into while its fields are read.
use filecloud.Prelude.{ℕ, Option, none, List, []}
use filecloud.Prelude.Bytes.{Bytes}
use filecloud.Prelude.Int.{ℤ, pos}

-- fileObject; `blocks` is none for the nil slice.
pub record FileObject : Type 0 where
  pub blocks : Option (List Bytes)
  pub size : Bytes
  pub kind : Bytes
  pub version : ℤ

-- directoryEntry, and DirectoryEntry of verified.go; `kind` is the field Type.
pub record DirectoryEntry : Type 0 where
  pub id : Bytes
  pub modified_at : Bytes
  pub name : Bytes
  pub kind : Bytes

pub record DirectoryObject : Type 0 where
  pub entries : Option (List DirectoryEntry)
  pub kind : Bytes
  pub version : ℤ

pub record CommitObject : Type 0 where
  pub author_user_id : Bytes
  pub created_at : Bytes
  pub device_id : Bytes
  pub message : Option Bytes
  pub parents : List Bytes
  pub root : Bytes
  pub kind : Bytes
  pub version : ℤ

-- The zero values that `var value` starts from.
abbrev pub no_file : FileObject
no_file = record { blocks = none; size = []; kind = []; version = pos 0 }

abbrev pub no_entry : DirectoryEntry
no_entry = record { id = []; modified_at = []; name = []; kind = [] }

abbrev pub no_directory : DirectoryObject
no_directory = record { entries = none; kind = []; version = pos 0 }

abbrev pub no_commit : CommitObject
no_commit = record {
  author_user_id = [];
  created_at = [];
  device_id = [];
  message = none;
  parents = [];
  root = [];
  kind = [];
  version = pos 0;
}

-- File of verified.go
pub record File : Type 0 where
  pub blocks : List Bytes
  pub size : ℕ

-- Directory of verified.go
pub record Directory : Type 0 where
  pub entries : List DirectoryEntry
