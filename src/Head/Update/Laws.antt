-- ===== src/Head/Update/Laws.antt =====
-- What an update of a head does to the tables, and what its success tells.
use filecloud.Prelude.{
  ◌⊎◌, inl, inr, ℕ, ◌≡◌, refl, ap, ◌∙◌, subst, Bool, true, false, not, Option, none, some, List, [],
  ◌∷◌, arith, length, ◌==◌, if◌then◌else◌,
}
use filecloud.Prelude.Bytes.{Bytes}
use filecloud.Prelude.Outcome.{
  Error, Result, ok, err, payload_too_large, path_needs_fallback, source_path_not_found, failed,
  canceled, invalid_snapshot, corrupt_object, head_conflict, upload_rate_limited,
  upload_unavailable, out_of_fuel,
}
use filecloud.Object.Ids.{valid_id}
use filecloud.Storage.Heads.{
  Library, Role, Tables, Transaction, Move, move, move_head, serve, committed,
}
use filecloud.Storage.Heads.Proven.{IsProven}
use filecloud.Storage.Heads.Race.{IsSwap, move-IsSwap}
use filecloud.Head.State.{Limits, Store, State}
use filecloud.Head.Candidate.{History, validate_candidate, new_state}
use filecloud.Head.Candidate.Laws.{IsAccepted, validate_candidate-IsAccepted}
use filecloud.Head.Etag.{parse_head_etag}
use filecloud.Head.Update.{
  Reply, head_reply, Call, refuse_validation, refuse_move, move_of, reply_moved, reply_ready,
  reply_validated, reply_request, reply_version, update_head,
}

abbrev pub is_head : Reply → Bool
is_head (head_reply l) = true
is_head _ = false

refuse_validation-head : (e : Error) → is_head (refuse_validation e) ≡ false
refuse_validation-head payload_too_large = refl
refuse_validation-head path_needs_fallback = refl
refuse_validation-head source_path_not_found = refl
refuse_validation-head (failed message) = refl
refuse_validation-head canceled = refl
refuse_validation-head invalid_snapshot = refl
refuse_validation-head corrupt_object = refl
refuse_validation-head head_conflict = refl
refuse_validation-head upload_rate_limited = refl
refuse_validation-head upload_unavailable = refl
refuse_validation-head out_of_fuel = refl

refuse_move-head : (latest : Result Library) (e : Error) → is_head (refuse_move latest e) ≡ false
refuse_move-head latest payload_too_large = refl
refuse_move-head latest path_needs_fallback = refl
refuse_move-head latest source_path_not_found = refl
refuse_move-head latest (failed message) = refl
refuse_move-head latest canceled = refl
refuse_move-head latest invalid_snapshot = refl
refuse_move-head latest corrupt_object = refl
refuse_move-head (ok l) head_conflict = refl
refuse_move-head (err e) head_conflict = refl
refuse_move-head latest upload_rate_limited = refl
refuse_move-head latest upload_unavailable = refl
refuse_move-head latest out_of_fuel = refl

serve-move :
    (m : Move) (roles : List Role) (failures : List (Option Error)) (t : Tables)
    → serve (move m roles) failures t
      ≡ committed t (move_head m roles (record { tables = t; failures = failures }))
unfolding serve
serve-move m roles failures t = refl

-- What has been published behind a request: the commit that it asks for, which was accepted behind the
-- head that was read, and the swap of the library's row from the version and the head that were read.
pub record IsPublication (store : Store) (call : Call) (current : Library) (t after : Tables)
    : Type 0 where
  pub commit : Bytes
  pub roles : List Role
  pub requested : call.request ≡ some (some commit)
  pub valid : valid_id commit ≡ true
  pub matched : parse_head_etag call.if_match ≡ some current.version
  pub accepted : IsAccepted store call.owner commit current.head roles
  pub swap : IsSwap call.owner call.library current.head current.version commit call.now t after

-- A publication, or a refusal that leaves the tables as they are.
abbrev Outcome : Store → Call → Library → Tables → Reply × Tables → Type 0
Outcome store call current t p =
    ((is_head p.0 ≡ false) × (p.1 ≡ t)) ⊎ IsPublication store call current t p.1

module _ (store : Store) (limits : Limits) (history : History) (call : Call) (current : Library)
    (t : Tables) where
  abbrev Ends : Reply × Tables → Type 0
  Ends p = Outcome store call current t p

  Ends-if :
      (b : Bool) (x y : Reply × Tables) → Ends x → (b ≡ false → Ends y) → Ends (if b then x else y)
  Ends-if true x y h k = h
  Ends-if false x y h k = k refl

  reply_moved-Ends :
      (r : Result (Library × Transaction))
      → ((committed t r).1 ≡ true → IsPublication store call current t (committed t r).0)
      → Ends (reply_moved call t r)
  reply_moved-Ends (ok (l, after)) k = inr (k refl)
  reply_moved-Ends (err e) k = inl (refuse_move-head call.latest e, refl)

  module _ (commit : Bytes) (requested : call.request ≡ some (some commit))
      (valid : valid_id commit ≡ true)
      (matched : parse_head_etag call.if_match ≡ some current.version) (p : IsProven t) where
    reply_ready-Ends :
        (roles : List Role) (hook : Option Error)
        → IsAccepted store call.owner commit current.head roles
        → Ends (reply_ready call current commit roles t hook)
    reply_ready-Ends roles (some e) accepted = inl (refl, refl)
    reply_ready-Ends roles none accepted =
        let m = move_of call current commit in
        reply_moved-Ends (move_head m roles (record { tables = t; failures = call.failures }))
          (λ done.
            let run = serve-move m roles call.failures t in
            record {
              commit = commit;
              roles = roles;
              requested = requested;
              valid = valid;
              matched = matched;
              accepted = accepted;
              swap =
                  subst
                    (λ x.
                      IsSwap call.owner call.library current.head current.version commit call.now t
                        x.0)
                    run (move-IsSwap m roles call.failures t p (ap (λ x. x.1) run ∙ done));
            })

    reply_validated-Ends :
        (r : Result (List Role × State))
        → ((roles : List Role) (end : State)
            → r ≡ ok (roles, end)
            → end.missing.ids ≡ []
            → IsAccepted store call.owner commit current.head roles)
        → Ends (reply_validated call current commit t r)
    reply_validated-Ends (err e) k = inl (refuse_validation-head e, refl)
    reply_validated-Ends (ok (roles, end)) k =
        Ends-if (not (length end.missing.ids == 0)) _ _ (inl (refl, refl)) (λ clean.
          reply_ready-Ends roles call.before_update
            (k roles end refl (length-nil end.missing.ids clean)))
      where
        length-nil : (ids : List Bytes) → not (length ids == 0) ≡ false → ids ≡ []
        length-nil [] e = refl
        length-nil (i ∷ ids) e = ground (arith, e)

  reply_request-Ends :
      (request : Option (Option Bytes))
      → IsProven t
      → call.request ≡ request
      → parse_head_etag call.if_match ≡ some current.version
      → Ends (reply_request store limits history call current t request)
  reply_request-Ends none p e m = inl (refl, refl)
  reply_request-Ends (some none) p e m = inl (refl, refl)
  reply_request-Ends (some (some commit)) p e m =
      Ends-if (not (valid_id commit)) _ _ (inl (refl, refl)) (λ valid.
        Ends-if (not call.admitted) _ _ (inl (refl, refl)) (λ admitted.
          reply_validated-Ends commit e (ground (arith, valid)) m p
            (validate_candidate store limits history call.owner commit current.head
              (new_state call.patience))
            (λ roles end done clean.
              validate_candidate-IsAccepted store limits history call.owner commit current.head
                call.patience roles end done clean)))

  reply_version-Ends :
      (version : Option ℕ)
      → IsProven t
      → parse_head_etag call.if_match ≡ version
      → Ends (reply_version store limits history call current t version)
  reply_version-Ends none p m = inl (refl, refl)
  reply_version-Ends (some version) p m =
      Ends-if (not (version == current.version)) _ _ (inl (refl, refl)) (λ same_version.
        reply_request-Ends call.request p refl (m ∙ ap some (ground (arith, same_version))))

  update_head-Ends : IsProven t → Ends (update_head store limits history call current t)
  update_head-Ends p =
      Ends-if (length call.if_match == 0) _ _ (inl (refl, refl))
        (λ some_value. reply_version-Ends (parse_head_etag call.if_match) p refl)

  -- On proven tables updateHead, whatever it replies, leaves the tables as they are or has
  -- published the requested commit, which was accepted behind the head that was read, from the
  -- version and head that were read.
  pub update_head-publishes :
      IsProven t
      → ((update_head store limits history call current t).1 ≡ t)
        ⊎ IsPublication store call current t (update_head store limits history call current t).1
  update_head-publishes p = elim (update_head-Ends p) [
    | inl (refused, kept) ↦ inl kept
    | inr published ↦ inr published
  ]

  -- On proven tables, when updateHead replies the new head: If-Match was the entity tag of the
  -- version of the library that was read, the requested commit has a valid identity and was
  -- accepted with complete snapshots behind the head that was read, the library's row had the
  -- version and the head that were read and has now the next version with the commit as its head,
  -- and the rows of all other libraries are as they were.
  pub update_head-IsPublication :
      (after : Tables) (l : Library)
      → IsProven t
      → update_head store limits history call current t ≡ (head_reply l, after)
      → IsPublication store call current t after
  update_head-IsPublication after l p h = elim (update_head-Ends p) [
    | inl (refused, kept) ↦ absurd (ground (arith, refused, ap (λ x. is_head x.0) h))
    | inr published ↦ subst (λ x. IsPublication store call current t x) (ap (λ x. x.1) h) published
  ]
