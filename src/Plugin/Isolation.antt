-- ===== src/Plugin/Isolation.antt =====
-- Which project the requests of src/plugin.rs change when a project was bound before.
use animus_queue_default.Common.{
  ◌≡◌, ◌≢◌, refl, ap, ◌∙◌, String, true, false, Option, some, ok, All, List, [], ◌∷◌, ◌==◌, arith,
  Bool-cases, inl, inr, eq_iff,
}
use animus_queue_default.Json.{Value}
use animus_queue_default.Rpc.{RpcRequest}
use animus_queue_default.External.{World}
use animus_queue_default.Io.{Disk}
use animus_queue_default.Service.Base.{QueueBackend}
use animus_queue_default.Plugin.Wire.{Process, InitializeParams}
use animus_queue_default.Plugin.Base.{Session, with_disk}
use animus_queue_default.Plugin.Initialize.{
  handle_initialize, present, read_init, extract_project_root, new_backend,
}
use animus_queue_default.Plugin.Requests.{serve, arm_of}
use animus_queue_default.Plugin.Sessions.{serve-realised}
use animus_queue_default.Plugin.Meaning.{
  Meaning, nothing, calls, binds, meaning, realised, all_realised, is_exit,
}
use animus_queue_default.Plugin.Binding.{host_check, is_binding}

module _ (p : Process) where
  with_disk-elsewhere :
      (disks : String → Disk) (root : String) (d : Disk) (place : String)
      → place ≢ root
      → with_disk p disks root d place ≡ disks place
  with_disk-elsewhere disks root d place other = elim (Bool-cases (place == root)) [
    | inl e ↦ absurd (other ((eq_iff place root).0 e))
    | inr e ↦ rw e refl
  ]

  -- The project at that place is untouched, and the binding is the one that was.
  abbrev IsUntouched : String → QueueBackend → Session → Session → Type 0
  IsUntouched place b s after = (after.backend ≡ some b) × (after.disks place ≡ s.disks place)

  realised-IsUntouched :
      (w : World) (m : Meaning) (s : Session) (b : QueueBackend) (place : String)
      → s.backend ≡ some b
      → place ≢ p.place b.project_root
      → elim m [ binds b ↦ true | _ ↦ false ] ≡ false
      → IsUntouched place b s (realised p w m s)
  realised-IsUntouched w nothing s b place bound other e = (bound, refl)
  realised-IsUntouched w (calls call) s b place bound other e =
      rw bound (refl, with_disk-elsewhere s.disks (p.place b.project_root) _ place other)
  realised-IsUntouched w (binds new) s b place bound other e = absurd (ground arith)

  all_realised-IsUntouched :
      (requests : List (World × RpcRequest)) (s : Session) (b : QueueBackend) (place : String)
      → s.backend ≡ some b
      → place ≢ p.place b.project_root
      → All (λ (request : World × RpcRequest). is_binding p request.1 ≡ false) requests
      → (all_realised p requests s).disks place ≡ s.disks place
  all_realised-IsUntouched [] s b place bound other h = refl
  all_realised-IsUntouched ((w, request) ∷ requests) s b place bound other h =
      let (still, same) = realised-IsUntouched w (meaning p request) s b place bound other h.0 in
      elim (Bool-cases (is_exit p (arm_of request.method))) [
        | inl e ↦ rw e same
        | inr e ↦ rw e (
            all_realised-IsUntouched requests (realised p w (meaning p request) s) b place still
              other h.1
            ∙ same)
      ]

  initialize-rebinds :
      (id : Option Value) (params : Value) (init : InitializeParams) (root : String) (s : Session)
      → host_check p params ≡ ok tt
      → p.wire.read_initialize params ≡ ok init
      → extract_project_root init ≡ ok root
      → (handle_initialize p id (some params) s).0
        ≡ record s { backend = some (new_backend p root) }
  unfolding handle_initialize present read_init
  initialize-rebinds id params init root s accepted reads named =
      ground (arith, accepted, reads, named)

  -- An `initialize` of a host that is accepted, with params that are read and name a project root,
  -- binds that project, whatever was bound before, and the requests after it change the disk of no
  -- other project, not even that of the one that was bound before, as long as none of them binds a
  -- project.
  pub serve-rebound :
      (id : Option Value) (params : Value) (init : InitializeParams) (root : String) (s : Session)
      → host_check p params ≡ ok tt
      → p.wire.read_initialize params ≡ ok init
      → extract_project_root init ≡ ok root
      → (requests : List (World × RpcRequest))
      → All (λ (request : World × RpcRequest). is_binding p request.1 ≡ false) requests
      → (place : String) → place ≢ p.place root
      → let s' = (handle_initialize p id (some params) s).0 in
        (s'.backend ≡ some (new_backend p root))
        × ((serve p requests s').0.disks place ≡ s.disks place)
  unfolding new_backend
  serve-rebound id params init root s accepted reads named requests h place other =
      let rebound = initialize-rebinds id params init root s accepted reads named in
      (
        ap (λ (t : Session). t.backend) rebound,
        rw (rebound, serve-realised p requests (record s { backend = some (new_backend p root) }))
            (all_realised-IsUntouched requests (record s { backend = some (new_backend p root) })
              (new_backend p root) place refl other h),
      )
