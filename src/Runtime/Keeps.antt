-- ===== src/Runtime/Keeps.antt =====
-- Predicates on the tables that calls keep, and calls that raise wherever a predicate holds.
use ai_document_ops_system.Prelude.{
  ◌≡◌, refl, Bool, true, false, if◌then◌else◌, Bool-cases, inl, inr,
}
use ai_document_ops_system.Core.Errors.{Error, Result, ok, err, is_ok}
use ai_document_ops_system.Runtime.{
  Tables, World, M, pure, raise, lift, resume, close_transaction, now, new_uuid, read, write,
  transaction, ◌>>=◌,
}
use ai_document_ops_system.Runtime.Yields.{OfOk, Yields}

-- `m` keeps `P`, whether it returns or raises.
pub record Keeps {A : Type 0} (P : Tables → Type 0) (m : M A) : Type 0 where
  pub kept : (w : World) → P w.tables → P (m w).1.tables

-- `m` raises wherever `P` holds.
pub record Fails {A : Type 0} (P : Tables → Type 0) (m : M A) : Type 0 where
  pub fails : (w : World) → P w.tables → is_ok (m w).0 ≡ false

module _ {A : Type 0} (P : Tables → Type 0) where
  rolled_back :
      (r : Result A) (before w : World)
      → P before.tables
      → P w.tables
      → P (close_transaction r before w).tables
  rolled_back (ok a) before w h k = k
  rolled_back (err e) before w h k = elim (Bool-cases before.rollback) [
    | inl undo ↦ rw undo h
    | inr keep ↦ rw keep k
  ]

module _ {A : Type 0} {P : Tables → Type 0} where
  pub Keeps-pure : (a : A) → Keeps P (pure a)
  Keeps-pure a = record { kept = λ w h. h }

  pub Keeps-lift : (r : Result A) → Keeps P (lift r)
  Keeps-lift r = record { kept = λ w h. h }

  pub Keeps-raise : (e : Error) → Keeps P (raise {A = A} e)
  Keeps-raise e = record { kept = λ w h. h }

  pub Keeps-read : (f : Tables → A) → Keeps P (read f)
  Keeps-read f = record { kept = λ w h. h }

  pub Keeps-if : (b : Bool) (m n : M A) → Keeps P m → Keeps P n → Keeps P (if b then m else n)
  Keeps-if true m n h k = h
  Keeps-if false m n h k = k

  pub Keeps-transaction : (m : M A) → Keeps P m → Keeps P (transaction m)
  unfolding transaction
  Keeps-transaction m k = record { kept = λ w h. rolled_back P (m w).0 w (m w).1 h (k.kept w h) }

  pub Fails-transaction : {m : M A} → Fails P m → Fails P (transaction m)
  unfolding transaction
  Fails-transaction f = record { fails = λ w h. f.fails w h }

module _ {P : Tables → Type 0} where
  pub Keeps-now : Keeps P now
  Keeps-now = record { kept = λ w h. h }

  pub Keeps-new_uuid : Keeps P new_uuid
  Keeps-new_uuid = record { kept = λ w h. h }

  pub Keeps-write : (f : Tables → Tables) → ((t : Tables) → P t → P (f t)) → Keeps P (write f)
  Keeps-write f k = record { kept = λ w h. k w.tables h }

module _ {A B : Type 0} {P : Tables → Type 0} (f : A → M B) where
  resume-kept :
      (r : Result A) (w : World)
      → ((a : A) → Keeps P (f a))
      → P w.tables
      → P (resume r f w).1.tables
  resume-kept (ok a) w k h = (k a).kept w h
  resume-kept (err e) w k h = h

  resume-Fails :
      (r : Result A) (w : World)
      → ((a : A) → Fails P (f a))
      → P w.tables
      → is_ok (resume r f w).0 ≡ false
  resume-Fails (ok a) w k h = (k a).fails w h
  resume-Fails (err e) w k h = refl

resume-failed :
    {A B : Type 0} (f : A → M B) (r : Result A) (w : World)
    → is_ok r ≡ false
    → is_ok (resume r f w).0 ≡ false
resume-failed f (ok a) w h = cc
resume-failed f (err e) w h = refl

module _ {A B : Type 0} {P : Tables → Type 0} (m : M A) (f : A → M B) where
  pub Keeps-bind : Keeps P m → ((a : A) → Keeps P (f a)) → Keeps P (m >>= f)
  Keeps-bind k l = record { kept = λ w h. resume-kept f (m w).0 (m w).1 l (k.kept w h) }

  pub Fails-bind : Keeps P m → ((a : A) → Fails P (f a)) → Fails P (m >>= f)
  Fails-bind k l = record { fails = λ w h. resume-Fails f (m w).0 (m w).1 l (k.kept w h) }

-- What the first call yields may be used of what follows it.
module _ {A B : Type 0} {P : Tables → Type 0} {Q : A → Type 0} (m : M A) (f : A → M B) where
  known-Fails :
      (r : Result A) (w : World)
      → OfOk Q r
      → ((a : A) → Q a → Fails P (f a))
      → P w.tables
      → is_ok (resume r f w).0 ≡ false
  unfolding OfOk
  known-Fails (ok a) w q k h = (k a q).fails w h
  known-Fails (err e) w q k h = refl

  pub Fails-bind_known :
      Keeps P m → Yields Q m → ((a : A) → Q a → Fails P (f a)) → Fails P (m >>= f)
  Fails-bind_known k y l = record {
    fails = λ w h. known-Fails (m w).0 (m w).1 (y.yielded w) l (k.kept w h);
  }

-- What fails first fails whatever follows.
pub Fails-first :
    {A B : Type 0} {P : Tables → Type 0} (m : M A) (f : A → M B) → Fails P m → Fails P (m >>= f)
Fails-first m f k = record { fails = λ w h. resume-failed f (m w).0 (m w).1 (k.fails w h) }

pub ruleset keeps_rules = (
  Keeps-pure, Keeps-lift, Keeps-raise, Keeps-read, Keeps-now, Keeps-new_uuid, Keeps-bind, Keeps-if,
  Keeps-transaction,
)
