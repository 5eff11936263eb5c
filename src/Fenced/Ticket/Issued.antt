-- ===== src/Fenced/Ticket/Issued.antt =====
-- The fence that src/dispatch_queue_state.rs makes of an entry, and the match of
-- src/fenced_queue.rs.
use animus_queue_default.Common.{
  ◌≡◌, refl, true, Option, none, some, arith, Option-cases, inl, inr, eq_refl,
}
use animus_queue_default.Protocol.{RepositoryReservation, ExecutionFence}
use animus_queue_default.State.{DispatchQueueEntry}
use animus_queue_default.State.Entry.{execution_fence}
use animus_queue_default.External.{External}
use animus_queue_default.Fenced.Ticket.{same_repository, exact_fence_matches, fence_parts_match}

module _ (x : External) where
  same_repository_refl : (r : Option RepositoryReservation) → same_repository x r r ≡ true
  unfolding same_repository
  same_repository_refl none = refl
  same_repository_refl (some r) =
      ground (arith, eq_refl (x.to_lowercase r.repository), eq_refl r.base_ref, eq_refl r.head_ref)

  -- The fence that is made of an entry, if its identity is whole, is the ticket of that entry: the
  -- calls that check a fence against the entry accept it.
  pub execution_fence-matches :
      (entry : DispatchQueueEntry) (fence : ExecutionFence)
      → execution_fence x entry ≡ some fence
      → exact_fence_matches x entry fence ≡ true
  unfolding execution_fence exact_fence_matches fence_parts_match
  execution_fence-matches entry fence e = elim (Option-cases entry.subject_id) [
    | inl n ↦ ground (arith, n)
    | inr (id, n1) ↦ elim (Option-cases entry.subject_generation) [
      | inl n ↦ ground (arith, n1, n)
      | inr (g, n2) ↦ elim (Option-cases entry.workflow_id) [
        | inl n ↦ ground (arith, n1, n2, n)
        | inr (wid, n3) ↦ elim (Option-cases entry.workflow_generation) [
          | inl n ↦ ground (arith, n1, n2, n3, n)
          | inr (wg, n4) ↦ elim (Option-cases entry.lease_owner) [
            | inl n ↦ ground (arith, n1, n2, n3, n4, n)
            | inr (owner, n5) ↦ elim (Option-cases entry.lease_expires_at) [
              | inl n ↦ ground (arith, n1, n2, n3, n4, n5, n)
              | inr (at, n6) ↦ ground (
                arith,
                n1,
                n2,
                n3,
                n4,
                n5,
                n6,
                eq_refl id,
                eq_refl wid,
                eq_refl owner,
                eq_refl entry.entry_id,
                eq_refl x.execution_fence_schema_id,
                same_repository_refl entry.repository,
              )
            ]
          ]
        ]
      ]
    ]
  ]
