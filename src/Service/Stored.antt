-- ===== src/Service/Stored.antt =====
-- Invariants of the stored state through the commits and the loads of src/queue_service.rs.
use animus_queue_default.Common.{
  ℕ, [], ◌∷◌, take, ◌≡◌, refl, Option, none, some, List, ok, err, unwrap_or, Result, subst, arith,
}
use animus_queue_default.State.{DispatchQueueState, default_state}
use animus_queue_default.History.{append_history, write_bytes, appended}
use animus_queue_default.History.Recovery.{queue_json-append_history}
use animus_queue_default.History.Record.{HistoryRecord}
use animus_queue_default.External.{External, World, AppendResult, appends, refuses, tears}
use animus_queue_default.Io.{Disk, Io, IoError, continue, pure, lift, ◌>>=◌}
use animus_queue_default.Io.Keeps.{Keeps, Keeps-bind, Keeps-bind_with, Keeps-lift, Keeps-pure}
use animus_queue_default.Store.{load_queue_state}
use animus_queue_default.Store.Stored.{
  IsStable, Stored, StateHolds, LoadHolds, Keeps-save, Keeps-load, load-LoadHolds, lifted_ok,
}
use animus_queue_default.Service.Base.{load_or_default, commit}

module _ (x : External) (I : DispatchQueueState → Type 0) (H : Option (List ℕ) → Type 0)
    (stable : IsStable I H) where
  -- An append leaves the history longer by some bytes, or as it was.
  write_holds :
      (result : AppendResult) (bytes : List ℕ) (d : Disk)
      → H d.history
      → H (write_bytes x result (unwrap_or d.history []) bytes d).0.history
  unfolding write_bytes
  write_holds appends bytes d h = stable.appended d.history bytes h
  write_holds refuses bytes d h = h
  write_holds (tears n) bytes d h = stable.appended d.history (take n bytes) h

  append_holds :
      (w : World) (records : List HistoryRecord) (d : Disk)
      → H d.history
      → H (append_history x w records d).0.history
  unfolding append_history
  append_holds w [] d h = h
  append_holds w (r ∷ rs) d h =
      write_holds w.append (appended x (unwrap_or d.history []) (r ∷ rs)) d h

  Keeps-append :
      (w : World) (records : List HistoryRecord) → Keeps (Stored I H) (append_history x w records)
  Keeps-append w records = record {
    at = λ d h. (rw (queue_json-append_history x w records d) h.0, append_holds w records d h.1);
  }

  pub Keeps-commit :
      (w : World) (s : DispatchQueueState) (records : List HistoryRecord)
      → I s
      → Keeps (Stored I H) (commit x w s records)
  unfolding commit
  Keeps-commit w s records i =
      Keeps-bind (append_history x w records) _ (Keeps-append w records)
        (λ _. Keeps-save I H stable w s i)

ok_injective : {E A : Type 0} {a b : A} → ◌≡◌ {A = Result E A} (ok a) (ok b) → a ≡ b
ok_injective e = ground arith

module _ (I : DispatchQueueState → Type 0) (H : Option (List ℕ) → Type 0)
    (stable : IsStable I H) where
  default_holds :
      (loaded : Option DispatchQueueState)
      → StateHolds I loaded
      → I (unwrap_or loaded default_state)
  default_holds none h = stable.at_default
  default_holds (some s) h = h

  default_read :
      (r : Disk × Result IoError (Option DispatchQueueState)) (s : DispatchQueueState)
      → LoadHolds I H stable r
      → (continue r.0 r.1 (λ loaded. pure {E = IoError} (unwrap_or loaded default_state))).1 ≡ ok s
      → I s
  default_read (d, ok loaded) s h e = subst I (ok_injective e) (default_holds loaded h.1)
  default_read (d, err f) s h e = cc

  pub Keeps-load_or_default : (w : World) → Keeps (Stored I H) (load_or_default w)
  unfolding load_or_default
  Keeps-load_or_default w =
      Keeps-bind (load_queue_state w) _ (Keeps-load I H stable w) (λ loaded. Keeps-pure _)

  load_or_default_holds :
      (w : World) (d : Disk)
      → Stored I H d
      → (s : DispatchQueueState) → (load_or_default w d).1 ≡ ok s
      → I s
  unfolding load_or_default
  load_or_default_holds w d h s e =
      default_read (load_queue_state w d) s (load-LoadHolds I H stable w d d.queue_json refl h h.0)
        e

  -- The rest of a call may use that the state it loads satisfies the invariant.
  pub Keeps-default_bind :
      {E B : Type 0} (f : IoError → E) (w : World)
      → (rest : DispatchQueueState → Io E B)
      → ((s : DispatchQueueState) → I s → Keeps (Stored I H) (rest s))
      → Keeps (Stored I H) (lift f (load_or_default w) >>= rest)
  Keeps-default_bind f w rest k =
      Keeps-bind_with (lift f (load_or_default w)) rest
        (Keeps-lift f (load_or_default w) (Keeps-load_or_default w)) I
        (λ d h s e. load_or_default_holds w d h s (lifted_ok f (load_or_default w d).1 e)) k

  pub Keeps-default_plain :
      {B : Type 0} (w : World) (rest : DispatchQueueState → Io IoError B)
      → ((s : DispatchQueueState) → I s → Keeps (Stored I H) (rest s))
      → Keeps (Stored I H) (load_or_default w >>= rest)
  Keeps-default_plain w rest k =
      Keeps-bind_with (load_or_default w) rest (Keeps-load_or_default w) I (load_or_default_holds w)
        k
