-- ===== src/Plugin/Projects.antt =====
-- What holds of the disk of every project, over all requests that src/plugin.rs handles.
use animus_queue_default.Common.{
  eq_iff, sym, subst, String, Option, none, some, List, [], ◌∷◌, ◌==◌, Bool-cases, inl, inr,
}
use animus_queue_default.Rpc.{RpcRequest}
use animus_queue_default.External.{World}
use animus_queue_default.Io.{Disk}
use animus_queue_default.Service.Base.{QueueBackend}
use animus_queue_default.Calls.{Call, after_call, after_calls}
use animus_queue_default.Store.Stored.{Stored, AnyHistory}
use animus_queue_default.Branches.Changes.{Exclusive}
use animus_queue_default.Branches.Invariant.{after_calls-Exclusive}
use animus_queue_default.Service.Durability.{history_bytes}
use animus_queue_default.Calls.Growth.{
  IsExtended, IsExtended-refl, IsExtended-trans, after_calls-IsExtended,
}
use animus_queue_default.Plugin.Wire.{Process}
use animus_queue_default.Plugin.Base.{Session, with_disk}
use animus_queue_default.Plugin.Requests.{serve, arm_of}
use animus_queue_default.Plugin.Meaning.{
  Meaning, nothing, calls, binds, meaning, called, realised, all_realised, is_exit,
}
use animus_queue_default.Plugin.Sessions.{serve-realised}

-- On every disk of the session.
abbrev pub Everywhere : (String → Disk → Type 0) → Session → Type 0
Everywhere P s = (root : String) → P root (s.disks root)

module _ (p : Process) (P : String → Disk → Type 0)
    (keeps : (root : String) (b : QueueBackend) (w : World) (call : Call) (d : Disk)
      → P root d
      → P root (after_call p.external b w call d)) where
  with_disk-Everywhere :
      (disks : String → Disk) (root : String) (d : Disk) (place : String)
      → P root d
      → P place (disks place)
      → P place (with_disk p disks root d place)
  with_disk-Everywhere disks root d place h k = elim (Bool-cases (place == root)) [
    | inl e ↦ rw e (subst (λ r. P r d) (sym ((eq_iff place root).0 e)) h)
    | inr e ↦ rw e k
  ]

  called-Everywhere :
      (w : World) (call : Call) (bound : Option QueueBackend) (s : Session)
      → Everywhere P s
      → Everywhere P (called p w call bound s)
  called-Everywhere w call none s h place = h place
  called-Everywhere w call (some b) s h place =
      let root = p.place b.project_root in
      with_disk-Everywhere s.disks root (after_call p.external b w call (s.disks root)) place
        (keeps root b w call (s.disks root) (h root)) (h place)

  realised-Everywhere :
      (w : World) (m : Meaning) (s : Session) → Everywhere P s → Everywhere P (realised p w m s)
  realised-Everywhere w nothing s h = h
  realised-Everywhere w (binds b) s h = h
  realised-Everywhere w (calls call) s h = called-Everywhere w call s.backend s h

  all_realised-Everywhere :
      (requests : List (World × RpcRequest)) (s : Session)
      → Everywhere P s
      → Everywhere P (all_realised p requests s)
  all_realised-Everywhere [] s h = h
  all_realised-Everywhere ((w, request) ∷ requests) s h =
      let after = realised-Everywhere w (meaning p request) s h in
      elim (Bool-cases (is_exit p (arm_of request.method))) [
        | inl e ↦ rw e after
        | inr e ↦ rw e (all_realised-Everywhere requests (realised p w (meaning p request) s) after)
      ]

  -- What each call keeps, the requests of a session keep on the disk of each project.
  pub serve-Everywhere :
      (requests : List (World × RpcRequest)) (s : Session)
      → Everywhere P s
      → Everywhere P (serve p requests s).0
  serve-Everywhere requests s h =
      subst (Everywhere P) (sym (serve-realised p requests s))
        (all_realised-Everywhere requests s h)

-- Whatever requests the plugin handles, with whatever params, for however many projects, and
-- whatever fails: if on the disk of each project at most one entry that queue.json holds runs on a
-- branch, and only ticketed entries reserve one, it is so after them.
pub serve-Exclusive :
    (p : Process) (requests : List (World × RpcRequest)) (s : Session)
    → Everywhere (λ root. Stored (Exclusive p.external) AnyHistory) s
    → Everywhere (λ root. Stored (Exclusive p.external) AnyHistory) (serve p requests s).0
unfolding after_calls
serve-Exclusive p requests s h =
    serve-Everywhere p (λ root. Stored (Exclusive p.external) AnyHistory)
      (λ root b w call d v. after_calls-Exclusive p.external b ((w, call) ∷ []) d v) requests s h

-- Whatever requests the plugin handles, with whatever params, for however many projects, and
-- whatever fails: the history of each project only grows. What it held before stands at its
-- beginning after them, byte for byte.
pub serve-IsExtended :
    (p : Process) (requests : List (World × RpcRequest)) (s : Session) (root : String)
    → IsExtended (history_bytes (s.disks root)) (history_bytes ((serve p requests s).0.disks root))
unfolding after_calls
serve-IsExtended p requests s root =
    serve-Everywhere p (λ r d. IsExtended (history_bytes (s.disks r)) (history_bytes d))
      (λ r b w call d e.
        IsExtended-trans (history_bytes (s.disks r)) e
          (after_calls-IsExtended p.external b ((w, call) ∷ []) d))
      requests s (λ r. IsExtended-refl (history_bytes (s.disks r))) root
