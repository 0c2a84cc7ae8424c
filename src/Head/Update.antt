-- ===== src/Head/Update.antt =====
-- updateHead: the request that moves a library's head, behind the authentication and the reading of the
-- body. afterHeadValidationAdmit, which returns nothing, is left out.
pub mod Laws
use filecloud.Prelude.{
  ℕ, zero, suc, Bool, true, false, not, Option, none, some, List, [], ◌∷◌, length, ◌==◌,
  if◌then◌else◌,
}
use filecloud.Prelude.Bytes.{Bytes}
use filecloud.Prelude.Outcome.{
  Error, Result, ok, err, payload_too_large, invalid_snapshot, corrupt_object, canceled,
  head_conflict,
}
use filecloud.Object.Ids.{valid_id}
use filecloud.Storage.Heads.{Library, Role, Tables, Transaction, Move, move_head}
use filecloud.Head.State.{Limits, Store, State}
use filecloud.Head.Candidate.{History, validate_candidate, new_state}
use filecloud.Head.Etag.{parse_head_etag}

-- The response. `answered` stands for those of readJSONBody and admitHeadValidation.
pub data Reply : Type 0 where
  precondition_required : Reply
  invalid_request : Reply
  answered : Reply
  conflict_reply : Library → Reply
  too_large : Reply
  corrupt_reply : Reply
  unavailable : Reply
  internal_error : Reply
  missing_reply : List Bytes → Bool → Reply
  head_reply : Library → Reply

-- A request, with what the calls on its way return: the body, none where readJSONBody has answered and
-- some none where decodeHeadRequest fails; whether the validation is admitted; the errors of the hooks
-- beforeHeadUpdate and afterHeadUpdate, none where a hook is nil; what the statements of the
-- transaction fail with; and the library that a conflict reads.
pub record Call : Type 0 where
  pub owner : Bytes
  pub library : Bytes
  pub if_match : List Bytes
  pub request : Option (Option Bytes)
  pub admitted : Bool
  pub patience : Option ℕ
  pub now : Bytes
  pub before_update : Option Error
  pub failures : List (Option Error)
  pub latest : Result Library
  pub after_update : Option Error

abbrev pub refuse_validation : Error → Reply
refuse_validation payload_too_large = too_large
refuse_validation invalid_snapshot = invalid_request
refuse_validation corrupt_object = corrupt_reply
refuse_validation canceled = unavailable
refuse_validation _ = internal_error

abbrev pub reply_conflict : Result Library → Reply
reply_conflict (ok l) = conflict_reply l
reply_conflict (err e) = internal_error

abbrev pub refuse_move : Result Library → Error → Reply
refuse_move latest head_conflict = reply_conflict latest
refuse_move latest _ = internal_error

-- The arguments of UpdateLibraryHeadWithRoles.
abbrev pub move_of : Call → Library → Bytes → Move
move_of call current commit = record {
  owner = call.owner;
  library = call.library;
  expected_head = current.head;
  expected_version = current.version;
  commit = commit;
  now = call.now;
}

-- Behind the transaction, whatever the hook says.
abbrev pub reply_updated : Option Error → Library → Reply
reply_updated none l = head_reply l
reply_updated (some e) l = internal_error

abbrev pub reply_moved : Call → Tables → Result (Library × Transaction) → Reply × Tables
reply_moved call t (ok (l, after)) = (reply_updated call.after_update l, after.tables)
reply_moved call t (err e) = (refuse_move call.latest e, t)

abbrev pub reply_ready : Call → Library → Bytes → List Role → Tables → Option Error → Reply × Tables
reply_ready call current commit roles t (some e) = (internal_error, t)
reply_ready call current commit roles t none = reply_moved call t (
    move_head (move_of call current commit) roles (record { tables = t; failures = call.failures }))

abbrev pub reply_validated :
    Call → Library → Bytes → Tables → Result (List Role × State) → Reply × Tables
reply_validated call current commit t (err e) = (refuse_validation e, t)
reply_validated call current commit t (ok (roles, end)) =
    if not (length end.missing.ids == 0)
    then (missing_reply end.missing.ids end.missing.truncated, t)
    else reply_ready call current commit roles t call.before_update

module _ (store : Store) (limits : Limits) (history : History) (call : Call) (current : Library)
    (t : Tables) where
  abbrev pub reply_request : Option (Option Bytes) → Reply × Tables
  reply_request none = (answered, t)
  reply_request (some none) = (invalid_request, t)
  reply_request (some (some commit)) =
      if not (valid_id commit)
      then (invalid_request, t)
      else if not call.admitted
      then (answered, t)
      else reply_validated call current commit t (
          validate_candidate store limits history call.owner commit current.head
            (new_state call.patience))

  abbrev pub reply_version : Option ℕ → Reply × Tables
  reply_version none = (invalid_request, t)
  reply_version (some version) =
      if not (version == current.version)
      then (conflict_reply current, t)
      else reply_request call.request

  -- The library that headLibrary has read is `current`; the tables are those of the transaction.
  abbrev pub update_head : Reply × Tables
  update_head =
      if length call.if_match == 0
      then (precondition_required, t)
      else reply_version (parse_head_etag call.if_match)
