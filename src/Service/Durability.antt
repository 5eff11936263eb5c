-- ===== src/Service/Durability.antt =====
-- The order of `QueueBackend::commit` in src/queue_service.rs: what a crash or a failure leaves.
use animus_queue_default.Common.{
  ap, ◌∙◌, Result, ℕ, ◌≡◌, refl, ◌⊎◌, inl, inr, Bool, Option, List, [], ◌∷◌, All, ok, err,
  unwrap_or,
}
use animus_queue_default.State.{DispatchQueueState}
use animus_queue_default.External.{
  External, World, SaveResult, saves, keeps_old, replaces_unflushed, AppendResult, appends, refuses,
  tears,
}
use animus_queue_default.Io.{Disk, IoError, continue}
use animus_queue_default.History.{append_history, appended, write_bytes, find_in}
use animus_queue_default.History.Record.{HistoryRecord}
use animus_queue_default.History.Recovery.{IsReadable, last_match, find_in-appended}
use animus_queue_default.Store.{save_queue_state, write_state}
use animus_queue_default.Service.Base.{commit}

abbrev pub history_bytes : Disk → List ℕ
history_bytes d = unwrap_or d.history []

module _ (x : External) where
  -- A disk whose history gives back `records` behind those that `d` holds.
  abbrev pub Recorded : List HistoryRecord → Disk → Disk → Type 0
  Recorded records d d' =
      (matches : HistoryRecord → Bool)
      → find_in x matches (history_bytes d')
        ≡ last_match x matches (find_in x matches (history_bytes d)) records

  -- An append that fails leaves `queue.json`, and one that succeeds leaves the records.
  Appended : List HistoryRecord → Disk → Disk × Result IoError (Unit {0}) → Type 0
  Appended records d (d', ok u) = Recorded records d d'
  Appended records d (d', err e) = d'.queue_json ≡ d.queue_json

  write-Appended :
      (result : AppendResult) (r : HistoryRecord) (rs : List HistoryRecord) (d : Disk)
      → All (IsReadable x) (r ∷ rs)
      → Appended
          (r ∷ rs)
          d
          (write_bytes x result (history_bytes d) (appended x (history_bytes d) (r ∷ rs)) d)
  unfolding Appended write_bytes
  write-Appended appends r rs d h =
      λ matches. find_in-appended x matches (history_bytes d) (r ∷ rs) h
  write-Appended refuses r rs d h = refl
  write-Appended (tears n) r rs d h = refl

  append-Appended :
      (w : World) (records : List HistoryRecord) (d : Disk)
      → All (IsReadable x) records
      → Appended records d (append_history x w records d)
  unfolding append_history Appended
  append-Appended w [] d h = λ matches. refl
  append-Appended w (r ∷ rs) d h = write-Appended w.append r rs d h

  history-write_state :
      (result : SaveResult) (state : DispatchQueueState) (d : Disk)
      → (write_state result state d).0.history ≡ d.history
  unfolding write_state
  history-write_state saves state d = refl
  history-write_state keeps_old state d = refl
  history-write_state replaces_unflushed state d = refl

  continued :
      (w : World) (state : DispatchQueueState) (records : List HistoryRecord) (d : Disk)
      → (after : Disk × Result IoError (Unit {0})) → Appended records d after
      → let d' = (continue after.0 after.1 (λ u. save_queue_state w state)).0 in
        (d'.queue_json ≡ d.queue_json) ⊎ Recorded records d d'
  unfolding Appended save_queue_state
  continued w state records d (d', ok u) h = inr (λ matches.
      ap (λ (bytes : Option (List ℕ)). find_in x matches (unwrap_or bytes []))
        (history-write_state w.save state d')
      ∙ h matches)
  continued w state records d (d', err e) h = inl h

  -- Whatever fails while finished entries are committed, `queue.json` is as it was, or the history
  -- gives back each of their records, provided that serde_json writes them on one line and reads
  -- them back: for every test of records, the last of them that passes is found, and else what was
  -- found before.
  pub commit-Recorded :
      (w : World) (state : DispatchQueueState) (records : List HistoryRecord) (d : Disk)
      → All (IsReadable x) records
      → let d' = (commit x w state records d).0 in
        (d'.queue_json ≡ d.queue_json) ⊎ Recorded records d d'
  unfolding commit
  commit-Recorded w state records d h =
      continued w state records d (append_history x w records d) (append-Appended w records d h)
