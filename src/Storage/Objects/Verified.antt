-- ===== src/Storage/Objects/Verified.antt =====
-- The Verify functions of internal/object, as the storage uses them.
use filecloud.Prelude.{◌≡◌, ◌≢◌, All, true}
use filecloud.Prelude.Bytes.{Bytes}
use filecloud.Prelude.Outcome.{Result, ok, err, out_of_fuel}
use filecloud.Object.Text.{Unicode}
use filecloud.Object.Stream.{Stream}
use filecloud.Object.Ids.{valid_id}
use filecloud.Object.Values.{File}
use filecloud.Object.Canonical.{or_invalid, verify_file, verify_directory, verify_commit}
use filecloud.Object.Canonical.Verified.{verify_file-IsVerifiedFile}
use filecloud.Storage.Objects.{Verifier}

-- No outcome of the Verify functions is the model's own error.
pub record IsTotal (v : Verifier) : Type 0 where
  pub file : (c id : Bytes) → v.verify_file c id ≢ err out_of_fuel
  pub directory : (c id : Bytes) → v.verify_directory c id ≢ err out_of_fuel
  pub commit : (c id : Bytes) → v.verify_commit c id ≢ err out_of_fuel

-- VerifyFile checks the identities of the blocks.
abbrev pub IsChecked : Verifier → Type 0
IsChecked v =
    (content id : Bytes) (f : File)
    → v.verify_file content id ≡ ok f
    → All (λ b. valid_id b ≡ true) f.blocks

module _ (u : Unicode) (sha256 : Bytes → Bytes) (tokens : Bytes → Stream) where
  abbrev pub object_verifier : Verifier
  object_verifier = record {
    verify_commit = verify_commit u sha256 tokens;
    verify_directory = verify_directory u sha256 tokens;
    verify_file = verify_file u sha256 tokens;
  }

  or_invalid-ends : {A : Type 0} (r : Result A) → or_invalid u sha256 tokens r ≢ err out_of_fuel
  or_invalid-ends (ok a) h = cc
  or_invalid-ends (err e) h = cc

  pub object_verifier-IsTotal : IsTotal object_verifier
  unfolding verify_file verify_directory verify_commit
  object_verifier-IsTotal = record {
    file = λ c id. or_invalid-ends _;
    directory = λ c id. or_invalid-ends _;
    commit = λ c id. or_invalid-ends _;
  }

  pub object_verifier-IsChecked : IsChecked object_verifier
  object_verifier-IsChecked content id f h =
      (verify_file-IsVerifiedFile u sha256 tokens content id f h).valid_blocks
