-- ===== src/Io/Keeps.antt =====
-- Invariants of the disk, with a rule for each way to build a call.
use animus_queue_default.Common.{◌≡◌, refl, Bool, true, false, Result, ok, err, if◌then◌else◌}
use animus_queue_default.Io.{Disk, Io, pure, raise, continue, lift, lift_result, ◌>>=◌}

-- `m` keeps `P`, whether it returns or fails.
pub record Keeps {E A : Type 0} (P : Disk → Type 0) (m : Io E A) : Type 0 where
  pub at : (d : Disk) → P d → P (m d).0

module _ {P : Disk → Type 0} where
  pub Keeps-pure : {E A : Type 0} (a : A) → Keeps P (pure {E = E} a)
  Keeps-pure a = record { at = λ d h. h }

  pub Keeps-raise : {E A : Type 0} (e : E) → Keeps P (raise {A = A} e)
  Keeps-raise e = record { at = λ d h. h }

  pub Keeps-lift_result : {E A : Type 0} (r : Result E A) → Keeps P (lift_result r)
  Keeps-lift_result r = record { at = λ d h. h }

  pub Keeps-lift : {E F A : Type 0} (f : E → F) (m : Io E A) → Keeps P m → Keeps P (lift f m)
  Keeps-lift f m k = record { at = λ d h. k.at d h }

  pub Keeps-if :
      {E A : Type 0} (test : Bool) (taken other : Io E A)
      → (test ≡ true → Keeps P taken)
      → (test ≡ false → Keeps P other)
      → Keeps P (if test then taken else other)
  Keeps-if true taken other on_true on_false = on_true refl
  Keeps-if false taken other on_true on_false = on_false refl

  continue_keeps :
      {E A B : Type 0} (d : Disk) (r : Result E A) (f : A → Io E B)
      → P d
      → ((a : A) → r ≡ ok a → Keeps P (f a))
      → P (continue d r f).0
  continue_keeps d (ok a) f h kf = (kf a refl).at d h
  continue_keeps d (err e) f h kf = h

  pub Keeps-bind :
      {E A B : Type 0} (m : Io E A) (f : A → Io E B)
      → Keeps P m
      → ((a : A) → Keeps P (f a))
      → Keeps P (m >>= f)
  Keeps-bind m f km kf = record {
    at = λ d h. continue_keeps (m d).0 (m d).1 f (km.at d h) (λ a _. kf a);
  }

  -- The rest of the call may use what holds of the value that it reads.
  pub Keeps-bind_with :
      {E A B : Type 0} (m : Io E A) (f : A → Io E B)
      → Keeps P m
      → (Q : A → Type 0) → ((d : Disk) → P d → (a : A) → (m d).1 ≡ ok a → Q a)
      → ((a : A) → Q a → Keeps P (f a))
      → Keeps P (m >>= f)
  Keeps-bind_with m f km Q read kf = record {
    at = λ d h. continue_keeps (m d).0 (m d).1 f (km.at d h) (λ a e. kf a (read d h a e));
  }

-- If a call answers, its answer satisfies `Q`.
abbrev pub Answers : {E A : Type 0} → (A → Type 0) → Result E A → Type 0
Answers Q (ok a) = Q a
Answers Q (err e) = Unit {0}

answered :
    {E A B : Type 0} (Q : B → Type 0) (d : Disk) (r : Result E A) (f : A → Io E B)
    → ((a : A) (d' : Disk) → Answers Q (f a d').1)
    → Answers Q (continue d r f).1
answered Q d (ok a) f h = h a d
answered Q d (err e) f h = tt

pub Answers-bind :
    {E A B : Type 0} (Q : B → Type 0) (m : Io E A) (f : A → Io E B) (d : Disk)
    → ((a : A) (d' : Disk) → Answers Q (f a d').1)
    → Answers Q ((m >>= f) d).1
Answers-bind Q m f d h = answered Q (m d).0 (m d).1 f h
