-- ===== src/RequestHash.antt =====
-- src/request_hash.rs: the hash of the content that an idempotency key is bound to.
pub mod Order
pub mod Canonical
pub mod Content
use mathlib.Core.Option
use animus_queue_default.Common.{
  ℕ, String, Bool, Option, none, some, List, [], ◌∷◌, map, precedes, unwrap_or, if◌then◌else◌, ◌<>◌,
}
use animus_queue_default.Json.{
  Value, Items, Fields, null, boolean, number, string, array, object, nil, cons, end, field,
  without, optional_string, optional_number,
}
use animus_queue_default.Protocol.{SubjectDispatch, RepositoryReservation}
use animus_queue_default.External.{External}

-- A field of an object with the text of its value.
abbrev pub Written : Type 0
Written = String × String

unfoldable pub insert : Written → List Written → List Written
unfolding precedes
insert f [] = f ∷ []
insert f (g ∷ fs) = let rest = insert f fs in if precedes f.0 g.0 then f ∷ g ∷ fs else g ∷ rest

-- `keys.sort()`, with each key's value at its side.
unfoldable pub sort : List Written → List Written
unfolding insert
sort [] = []
sort (f ∷ fs) = insert f (sort fs)

-- `body.join(",")`.
unfoldable pub join : List String → String
join [] = ""
join (s ∷ []) = s
join (s ∷ t ∷ rest) = s <> "," <> join (t ∷ rest)

-- The dispatch without `requested_at`, which the CLI stamps anew on every attempt.
unfoldable pub unstamped : Value → Value
unfolding without
unstamped (object fs) = object (without "requested_at" fs)
unstamped null = null
unstamped (boolean b) = boolean b
unstamped (number n) = number n
unstamped (string s) = string s
unstamped (array items) = array items

module _ (x : External) where
  unfoldable pub write_field : Written → String
  write_field (key, text) = x.json_text (string key) <> ":" <> text

  unfoldable mutual
    unfolding join sort write_field

    pub canonical_json : Value → String
    canonical_json (array items) = "[" <> join (canonical_items items) <> "]"
    canonical_json (object fs) = "{" <> join (map write_field (sort (canonical_fields fs))) <> "}"
    canonical_json null = x.json_text null
    canonical_json (boolean b) = x.json_text (boolean b)
    canonical_json (number n) = x.json_text (number n)
    canonical_json (string s) = x.json_text (string s)

    pub canonical_items : Items → List String
    canonical_items nil = []
    canonical_items (cons v items) = canonical_json v ∷ canonical_items items

    pub canonical_fields : Fields → List Written
    canonical_fields end = []
    canonical_fields (field key v fs) = (key, canonical_json v) ∷ canonical_fields fs

  unfoldable pub content : Value → Option RepositoryReservation → Option String → Option ℕ → Value
  content dispatch repository run_at expire_after_secs = object (
      field "dispatch" dispatch (
        field "repository" (unwrap_or (Option.map x.reservation_value repository) null) (
          field "run_at" (optional_string run_at)
            (field "expire_after_secs" (optional_number expire_after_secs) end))))

  unfoldable pub enqueue_request_hash :
      SubjectDispatch → Option RepositoryReservation → Option String → Option ℕ → String
  unfolding canonical_json unstamped content
  enqueue_request_hash dispatch repository run_at expire_after_secs = x.sha256_hex (
      canonical_json
        (content (unstamped (x.dispatch_value dispatch)) repository run_at expire_after_secs))
