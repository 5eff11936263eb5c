-- ===== src/RequestHash/Content.antt =====
-- What the hash does not see: the time that a dispatch was requested at.
pub mod Same
use animus_queue_default.Common.{ℕ, String, ◌≡◌, refl, ap, Option, arith, ◌==◌, if◌then◌else◌}
use animus_queue_default.Json.{
  Value, Fields, null, boolean, number, string, array, object, end, field, without,
}
use animus_queue_default.Protocol.{SubjectDispatch, RepositoryReservation}
use animus_queue_default.External.{External}
use animus_queue_default.RequestHash.{enqueue_request_hash, unstamped}

-- The fields with another value at one key.
abbrev pub replace : String → Value → Fields → Fields
replace key v end = end
replace key v (field k u fs) =
    let rest = replace key v fs in if k == key then field k v rest else field k u rest

without-replace :
    (key : String) (v : Value) (fs : Fields) → without key (replace key v fs) ≡ without key fs
unfolding without
without-replace key v end = refl
without-replace key v (field k u fs) = ground (arith, without-replace key v fs)

abbrev pub stamped : String → Value → Value
stamped at (object fs) = object (replace "requested_at" (string at) fs)
stamped at null = null
stamped at (boolean b) = boolean b
stamped at (number n) = number n
stamped at (string s) = string s
stamped at (array items) = array items

unstamped-stamped : (at : String) (v : Value) → unstamped (stamped at v) ≡ unstamped v
unfolding unstamped
unstamped-stamped at (object fs) = ap object (without-replace "requested_at" (string at) fs)
unstamped-stamped at null = refl
unstamped-stamped at (boolean b) = refl
unstamped-stamped at (number n) = refl
unstamped-stamped at (string s) = refl
unstamped-stamped at (array items) = refl

abbrev pub requested : String → SubjectDispatch → SubjectDispatch
requested at dispatch = record dispatch { requested_at = at }

-- The derived `Serialize` writes `requested_at` to the field of that name, and to no other.
abbrev pub StampsField : External → Type 0
StampsField x =
    (at : String) (dispatch : SubjectDispatch)
    → x.dispatch_value (requested at dispatch) ≡ stamped at (x.dispatch_value dispatch)

-- If `requested_at` is written to the field of that name only, an add that is tried again at
-- another time has the same hash.
pub enqueue_request_hash-requested :
    (x : External)
    → StampsField x
    → (at : String) (dispatch : SubjectDispatch) (repository : Option RepositoryReservation)
      (run_at : Option String) (expire_after_secs : Option ℕ)
    → enqueue_request_hash x (requested at dispatch) repository run_at expire_after_secs
      ≡ enqueue_request_hash x dispatch repository run_at expire_after_secs
unfolding enqueue_request_hash
enqueue_request_hash-requested x stamps at dispatch repository run_at expire_after_secs =
    cc (stamps at dispatch, unstamped-stamped at (x.dispatch_value dispatch))
