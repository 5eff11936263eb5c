-- ===== src/Service/Listing/Pages.antt =====
-- The pages of `queue/list` of src/queue_service.rs.
use animus_queue_default.Common.{
  ℕ, zero, suc, ◌+◌, ◌≡◌, refl, ap, sym, ◌∙◌, true, Option, some, List, [], ◌∷◌, ◌++◌, arith, leb,
  length, take, drop, Bool-cases, inl, inr,
}
use animus_queue_default.State.{DispatchQueueEntry}
use animus_queue_default.External.{External, World}
use animus_queue_default.Service.Listing.{page_size, page}

drop_all : {A : Type 0} (n : ℕ) (xs : List A) → leb (length xs) n ≡ true → drop n xs ≡ []
drop_all zero [] h = refl
drop_all zero (x ∷ xs) h = ground arith
drop_all (suc n) [] h = refl
drop_all (suc n) (x ∷ xs) h = drop_all n xs (ground (arith, h))

zero_add : (n : ℕ) → 0 + n ≡ n
zero_add n = omega arith

suc_add : (n m : ℕ) → suc n + m ≡ suc (n + m)
suc_add n m = omega arith

take_nil : {A : Type 0} (n : ℕ) → take {A = A} n [] ≡ []
take_nil zero = refl
take_nil (suc n) = refl

drop_nil : {A : Type 0} (n : ℕ) → drop {A = A} n [] ≡ []
drop_nil zero = refl
drop_nil (suc n) = refl

-- Dropping and taking on are dropping and taking in one.
take-drop-add :
    {A : Type 0} (o n m : ℕ) (xs : List A)
    → take n (drop o xs) ++ take m (drop (o + n) xs) ≡ take (n + m) (drop o xs)
take-drop-add {A = A} o n m [] = ground (
  arith,
  drop_nil {A = A} o,
  drop_nil {A = A} (o + n),
  take_nil {A = A} n,
  take_nil {A = A} m,
  take_nil {A = A} (n + m),
)
take-drop-add zero zero m (x ∷ xs) = rw (zero_add m) refl
take-drop-add zero (suc n) m (x ∷ xs) =
    rw (zero_add (suc n), suc_add n m)
      (ap (◌∷◌ x)
        (ap (λ k. take n xs ++ take m (drop k xs)) (sym (zero_add n)) ∙ take-drop-add zero n m xs))
take-drop-add (suc o) n m (x ∷ xs) = rw (suc_add o n) (take-drop-add o n m xs)

module _ (x : External) (w : World) where
  page-take-drop :
      (limit : Option ℕ) (offset : ℕ) (entries : List DispatchQueueEntry)
      → page x w limit (some offset) entries ≡ take (page_size x w limit) (drop offset entries)
  unfolding page
  page-take-drop limit offset entries = elim (Bool-cases (leb (length entries) offset)) [
    | inl past ↦ ground (arith, past, drop_all offset entries past)
    | inr inside ↦ ground (arith, inside)
  ]

  -- A page and the page that starts where it ends are, one after the other, what a page of both
  -- lengths would hold: between pages no entry is left out and none comes twice.
  pub page-consecutive :
      (limit next : Option ℕ) (offset : ℕ) (entries : List DispatchQueueEntry)
      → let size = page_size x w limit in
        page x w limit (some offset) entries ++ page x w next (some (offset + size)) entries
        ≡ take (size + page_size x w next) (drop offset entries)
  page-consecutive limit next offset entries =
      let size = page_size x w limit in
      rw (page-take-drop limit offset entries, page-take-drop next (offset + size) entries)
        (take-drop-add offset size (page_size x w next) entries)
