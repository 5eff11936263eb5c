-- ===== src/Identity.antt =====
-- src/identity.rs: the legacy key and the canonical id of a subject.
pub mod Canonical
use Prim.Native.String.{[], ◌∷◌}
use animus_queue_default.Common.{
  String, Bool, ◌||◌, Option, none, some, ◌==◌, eqb, is_blank, trim, ascii_lower,
  eq_ignore_ascii_case, filter_opt, if◌then◌else◌, ◌<>◌, Result, ok, err,
}
use mathlib.Core.Option
use animus_queue_default.Protocol.{SubjectRef, SubjectDispatch}

abbrev pub missing_subject_identity : String
missing_subject_identity = "queue subject identity is missing"

-- The kinds of `BARE_ID_KINDS`.
unfoldable pub is_bare_id_kind : String → Bool
is_bare_id_kind kind =
    kind == "animus.task"
    || kind == "animus.requirement"
    || kind == "custom"
    || kind == "task"
    || kind == "requirement"

unfoldable pub legacy_subject_key : String → String → String
unfolding is_bare_id_kind
legacy_subject_key kind id = if is_bare_id_kind kind then id else kind <> "::" <> id

-- `id` without the prefix, where its first characters are the prefix in any ASCII case. As the
-- source's slices are of equal length in bytes, this is its comparison of the two byte by byte.
unfoldable pub strip_prefix_ignore_case : String → String → Option String
strip_prefix_ignore_case [] id = some id
strip_prefix_ignore_case (c ∷ prefix) [] = none
strip_prefix_ignore_case (c ∷ prefix) (d ∷ id) =
    let rest = strip_prefix_ignore_case prefix id in
    if eqb (ascii_lower c) (ascii_lower d) then rest else none

native_of : String → Option String → String
native_of id none = id
native_of id (some rest) = rest

short_kind : String → String
short_kind kind =
    if kind == "animus.task"
    then "task"
    else if kind == "animus.requirement"
    then "requirement"
    else kind

unfoldable pub canonical_subject_id : String → String → Result String String
unfolding native_of short_kind strip_prefix_ignore_case trim
canonical_subject_id raw_kind raw_id =
    let kind = trim (short_kind raw_kind) in
    let id = trim raw_id in
    if is_blank kind || is_blank id
    then err missing_subject_identity
    else let native = native_of id (strip_prefix_ignore_case (kind <> ":") id) in
      if is_blank native then err missing_subject_identity else ok (kind <> ":" <> native)

canonical_of : Option SubjectRef → Result String String
canonical_of none = err missing_subject_identity
canonical_of (some subject) = canonical_subject_id subject.kind subject.id

unfoldable pub dispatch_canonical_id : SubjectDispatch → Result String String
unfolding canonical_of
dispatch_canonical_id dispatch = canonical_of dispatch.subject

unfoldable pub dispatch_legacy_key : SubjectDispatch → Option String
dispatch_legacy_key dispatch =
    Option.map (λ (subject : SubjectRef). legacy_subject_key subject.kind subject.id)
      dispatch.subject

unfoldable pub is_task_kind : String → Bool
unfolding eq_ignore_ascii_case
is_task_kind kind = eq_ignore_ascii_case kind "animus.task" || eq_ignore_ascii_case kind "task"

unfoldable pub dispatch_task_id : SubjectDispatch → Option String
unfolding is_task_kind
dispatch_task_id dispatch =
    Option.map (λ (subject : SubjectRef). subject.id)
      (filter_opt (λ (subject : SubjectRef). is_task_kind subject.kind) dispatch.subject)
