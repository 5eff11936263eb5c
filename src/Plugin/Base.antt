-- ===== src/Plugin/Base.antt =====
-- What the handlers of src/plugin.rs share: the session, the checks before a call and the error
-- responses.
use animus_queue_default.Common.{
  String, Option, none, some, Result, ok, err, ◌==◌, if◌then◌else◌, ◌<>◌,
}
use animus_queue_default.Json.{Value}
use animus_queue_default.Rpc.{
  RpcCode, RpcError, RpcResponse, respond, respond_error, invalid_params, internal_error,
  plugin_not_initialized, queue_entry_not_pending, queue_stale_fence,
}
use animus_queue_default.Io.{Disk, Io, IoError}
use animus_queue_default.Service.Base.{
  QueueBackend, QueueCallError, QueueMutationError, not_pending, fenced,
}
use animus_queue_default.Plugin.Wire.{Wire, Process, Writes, Reads}

abbrev pub plugin_name : String
plugin_name = "animus-queue-default"

-- The backend that `initialize` binds, and the disk below each project root.
pub record Session : Type 0 where
  pub backend : Option QueueBackend
  pub disks : String → Disk

-- A handler of one request.
abbrev pub Reply : Type 0
Reply = Session → Session × RpcResponse

-- A check before a call: a value, or the response that ends the request.
abbrev pub Check : Type 0 → Type 0
Check A = Session → Result RpcResponse A

abbrev pub proceed : {A : Type 0} → Result RpcResponse A → (A → Reply) → Reply
proceed (ok a) f s = f a s
proceed (err response) f s = (s, response)

infixl 5 ◌>>=◌
abbrev pub ◌>>=◌ : {A : Type 0} → Check A → (A → Reply) → Reply
(c >>= f) s = proceed (c s) f s

abbrev pub error_of : RpcCode → String → RpcError
error_of code message = record { code = code; message = message; data_value = none }

unfoldable pub invalid_params_error : String → RpcError
invalid_params_error message = error_of invalid_params message

unfoldable pub internal_error_response : Option Value → String → RpcResponse
internal_error_response id message = respond_error id (error_of internal_error message)

unfoldable pub require_backend : Option Value → Check QueueBackend
require_backend id s = elim s.backend [
  | some backend ↦ ok backend
  | none ↦ err (
      respond_error id (
        error_of plugin_not_initialized
          (plugin_name <> " received a queue/* method before initialize")))
]

unfoldable pub read_params :
    {A : Type 0} → Option Value → String → Result String A → Result RpcResponse A
unfolding invalid_params_error
read_params id method (ok request) = ok request
read_params id method (err text) =
    err (respond_error id (invalid_params_error ("invalid " <> method <> " params: " <> text)))

unfoldable pub parse_params :
    {A : Type 0} → Reads A → Option Value → Option Value → String → Check A
unfolding read_params invalid_params_error
parse_params read id none method s =
    err (respond_error id (invalid_params_error ("missing params for " <> method)))
parse_params read id (some value) method s = read_params id method (read value)

unfoldable pub written_response : Option Value → Result String Value → RpcResponse
unfolding internal_error_response
written_response id (ok value) = respond id value
written_response id (err text) = internal_error_response id ("failed to encode response: " <> text)

unfoldable pub to_value_response : {A : Type 0} → Writes A → Option Value → A → RpcResponse
unfolding written_response
to_value_response write id value = written_response id (write value)

module _ (t : Wire) where
  -- `{method} failed: {error:#}`.
  abbrev pub failed_text : String → IoError → String
  failed_text method error = method <> " failed: " <> t.error_text error

  unfoldable pub mutation_error_response : Option Value → QueueMutationError → String → RpcResponse
  unfolding internal_error_response
  mutation_error_response id (not_pending entry_id) method = respond_error id (
      error_of queue_entry_not_pending
        ("queue entry " <> entry_id <> " is not in the expected pre-mutation status"))
  mutation_error_response id (fenced entry_id) method = respond_error id (
      error_of queue_stale_fence
        ("queue entry " <> entry_id <> " is owned by a generation-fenced lease; use queue/v2/*"))
  mutation_error_response id (QueueMutationError.backend error) method =
      internal_error_response id (failed_text method error)

  unfoldable pub call_error_response : Option Value → QueueCallError → String → RpcResponse
  unfolding internal_error_response invalid_params_error
  call_error_response id (QueueCallError.invalid_params message) method =
      respond_error id (invalid_params_error message)
  call_error_response id (QueueCallError.backend error) method =
      internal_error_response id (failed_text method error)

-- The response to what a call returns: to its value, or to its error.
abbrev pub reply_to :
    {E A : Type 0} → Result E A → (A → RpcResponse) → (E → RpcResponse) → RpcResponse
reply_to (ok a) on_ok on_err = on_ok a
reply_to (err e) on_ok on_err = on_err e

module _ (p : Process) where
  -- The disks, one of them written.
  abbrev pub with_disk : (String → Disk) → String → Disk → String → Disk
  with_disk disks root disk place = if place == root then disk else disks place

  -- A call of the backend, which reads and writes the disk below its project root.
  unfoldable pub perform :
      {E A : Type 0} → QueueBackend → Io E A → (A → RpcResponse) → (E → RpcResponse) → Reply
  perform backend call on_ok on_err s =
      let root = p.place backend.project_root in
      let (disk, result) = call (s.disks root) in
      (record s { disks = with_disk s.disks root disk }, reply_to result on_ok on_err)
