-- ===== src/Runtime/Yields.antt =====
-- What holds of the value a call returns, whenever it returns one.
use ai_document_ops_system.Prelude.{◌≡◌, refl, subst, Bool, true, false, if◌then◌else◌}
use ai_document_ops_system.Core.Errors.{Result, ok, err, is_ok}
use ai_document_ops_system.Runtime.{World, M, pure, resume, transaction, ◌>>=◌}

-- `Q` holds of a value, and of an exception nothing is said.
unfoldable pub OfOk : {A : Type 0} → (A → Type 0) → Result A → Type 0
OfOk Q (ok a) = Q a
OfOk Q (err e) = Unit {0}

-- A value is returned, and `Q` holds of it.
unfoldable pub Returned : {A : Type 0} → (A → Type 0) → Result A → Type 0
Returned Q (ok a) = Q a
Returned Q (err e) = ⊥

pub record Yields {A : Type 0} (Q : A → Type 0) (m : M A) : Type 0 where
  pub yielded : (w : World) → OfOk Q (m w).0

module _ {A : Type 0} {Q : A → Type 0} where
  pub Yields-pure : (a : A) → Q a → Yields Q (pure a)
  unfolding OfOk
  Yields-pure a q = record { yielded = λ w. q }

  pub Yields-if : (b : Bool) (m n : M A) → Yields Q m → Yields Q n → Yields Q (if b then m else n)
  Yields-if true m n h k = h
  Yields-if false m n h k = k

  pub Yields-if_known :
      (b : Bool) (m n : M A)
      → (b ≡ true → Yields Q m)
      → (b ≡ false → Yields Q n)
      → Yields Q (if b then m else n)
  Yields-if_known true m n h k = h refl
  Yields-if_known false m n h k = k refl

  pub Yields-transaction : (m : M A) → Yields Q m → Yields Q (transaction m)
  unfolding transaction
  Yields-transaction m k = record { yielded = λ w. k.yielded w }

module _ {A B : Type 0} {R : A → Type 0} {Q : B → Type 0} (f : A → M B) where
  resume-yielded :
      (r : Result A) (w : World)
      → OfOk R r
      → ((a : A) → R a → Yields Q (f a))
      → OfOk Q (resume r f w).0
  unfolding OfOk
  resume-yielded (ok a) w h k = (k a h).yielded w
  resume-yielded (err e) w h k = tt

  pub Yields-bind : (m : M A) → Yields R m → ((a : A) → R a → Yields Q (f a)) → Yields Q (m >>= f)
  Yields-bind m h k = record { yielded = λ w. resume-yielded (m w).0 (m w).1 (h.yielded w) k }

-- The value of the last call is what counts.
module _ {A B : Type 0} {Q : B → Type 0} (m : M A) (f : A → M B) where
  resume-last : (r : Result A) (w : World) → ((a : A) → Yields Q (f a)) → OfOk Q (resume r f w).0
  unfolding OfOk
  resume-last (ok a) w k = (k a).yielded w
  resume-last (err e) w k = tt

  pub Yields-last : ((a : A) → Yields Q (f a)) → Yields Q (m >>= f)
  Yields-last k = record { yielded = λ w. resume-last (m w).0 (m w).1 k }

module _ {A : Type 0} {Q R : A → Type 0} (imply : (a : A) → Q a → R a) where
  OfOk-weaken : (r : Result A) → OfOk Q r → OfOk R r
  unfolding OfOk
  OfOk-weaken (ok a) q = imply a q
  OfOk-weaken (err e) q = tt

  pub Yields-weaken : (m : M A) → Yields Q m → Yields R m
  Yields-weaken m k = record { yielded = λ w. OfOk-weaken (m w).0 (k.yielded w) }

module _ {A : Type 0} (Q : A → Type 0) where
  pub OfOk-Returned : (r : Result A) → OfOk Q r → is_ok r ≡ true → Returned Q r
  unfolding OfOk Returned
  OfOk-Returned (ok a) q h = q
  OfOk-Returned (err e) q h = cc

  pub OfOk-ok : (r : Result A) (a : A) → OfOk Q r → r ≡ ok a → Q a
  unfolding OfOk
  OfOk-ok r a q e = subst (OfOk Q) e q
