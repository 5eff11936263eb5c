-- ===== src/RequestHash/Content/Same.antt =====
-- What the hash does see: two adds with one hash have the same content.
use mathlib.Core.Option
use animus_queue_default.Common.{
  ◌≡◌, refl, sym, ◌∙◌, ℕ, String, Option, some, none, unwrap_or, arith, precedes,
}
use animus_queue_default.Json.{Value, null, object, end, field, optional_string, optional_number}
use animus_queue_default.Protocol.{SubjectDispatch, RepositoryReservation}
use animus_queue_default.External.{External}
use animus_queue_default.RequestHash.{enqueue_request_hash, content, canonical_json, unstamped}
use animus_queue_default.RequestHash.Canonical.Printed.{normal}
use animus_queue_default.RequestHash.Canonical.Decoded.{PrintsScalars}
use animus_queue_default.RequestHash.Canonical.Injective.{canonical_json-normal}

abbrev pub reservation_json : External → Option RepositoryReservation → Value
reservation_json x repository = unwrap_or (Option.map x.reservation_value repository) null

-- The text that is hashed.
abbrev pub hashed :
    External → SubjectDispatch → Option RepositoryReservation → Option String → Option ℕ → String
hashed x dispatch repository run_at expire_after_secs =
    canonical_json x
      (content x (unstamped (x.dispatch_value dispatch)) repository run_at expire_after_secs)

normal-content :
    (x : External) (v : Value) (repository : Option RepositoryReservation) (run_at : Option String)
    (expire_after_secs : Option ℕ)
    → normal (content x v repository run_at expire_after_secs)
      ≡ object (
          field "dispatch" (normal v) (
            field "expire_after_secs" (normal (optional_number expire_after_secs)) (
              field "repository"
                (normal (reservation_json x repository))
                (field "run_at" (normal (optional_string run_at)) end))))
unfolding content normal precedes
normal-content x v repository run_at expire_after_secs = refl

number_eq : (m n : Option ℕ) → normal (optional_number m) ≡ normal (optional_number n) → m ≡ n
unfolding normal
number_eq none none e = refl
number_eq none (some n) e = ground arith
number_eq (some m) none e = ground arith
number_eq (some m) (some n) e = cc

string_eq : (s t : Option String) → normal (optional_string s) ≡ normal (optional_string t) → s ≡ t
unfolding normal
string_eq none none e = refl
string_eq none (some t) e = ground arith
string_eq (some s) none e = ground arith
string_eq (some s) (some t) e = cc

pub enqueue_request_hash-content :
    (x : External)
    → PrintsScalars x
    → (a b : SubjectDispatch) (r q : Option RepositoryReservation) (s t : Option String)
      (m n : Option ℕ)
    → (x.sha256_hex (hashed x a r s m) ≡ x.sha256_hex (hashed x b q t n)
        → hashed x a r s m ≡ hashed x b q t n)
    → enqueue_request_hash x a r s m ≡ enqueue_request_hash x b q t n
    → (normal (unstamped (x.dispatch_value a)) ≡ normal (unstamped (x.dispatch_value b)))
      × (normal (reservation_json x r) ≡ normal (reservation_json x q))
      × (s ≡ t)
      × (m ≡ n)
unfolding enqueue_request_hash
enqueue_request_hash-content x prints a b r q s t m n no_collision e =
    let v = unstamped (x.dispatch_value a) in
    let w = unstamped (x.dispatch_value b) in
    let same =
      sym (normal-content x v r s m)
      ∙ canonical_json-normal x prints (content x v r s m) (content x w q t n) (no_collision e)
      ∙ normal-content x w q t n in
    (cc same, cc same, string_eq s t (cc same), number_eq m n (cc same))
