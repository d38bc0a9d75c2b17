-- ===== src/Runtime/Effects.antt =====
-- What a call leaves alone: rules for calls that only read, and for calls that write everything or
-- nothing.
use ai_document_ops_system.Prelude.{◌≡◌, refl, ◌∙◌, Bool, true, false, arith, if◌then◌else◌}
use ai_document_ops_system.Core.Errors.{Error, Result, ok, err, is_ok}
use ai_document_ops_system.Runtime.{
  Tables, World, M, pure, raise, lift, resume, now, new_uuid, read, transaction, ◌>>=◌,
}

-- `m` writes to no table.
pub record Reads {A : Type 0} (m : M A) : Type 0 where
  pub tables_same : (w : World) → (m w).1.tables ≡ w.tables
  pub rollback_same : (w : World) → (m w).1.rollback ≡ w.rollback

-- Over a store that rolls back, `m` leaves the tables alone if it raises.
pub record Atomic {A : Type 0} (m : M A) : Type 0 where
  pub undone : (w : World) → w.rollback ≡ true → is_ok (m w).0 ≡ false → (m w).1.tables ≡ w.tables

-- `m` never raises.
pub record Total {A : Type 0} (m : M A) : Type 0 where
  pub returns : (w : World) → is_ok (m w).0 ≡ true

module _ {A : Type 0} where
  pub Reads-pure : (a : A) → Reads (pure a)
  Reads-pure a = record { tables_same = λ w. refl; rollback_same = λ w. refl }

  pub Reads-lift : (r : Result A) → Reads (lift r)
  Reads-lift r = record { tables_same = λ w. refl; rollback_same = λ w. refl }

  pub Reads-raise : (e : Error) → Reads (raise {A = A} e)
  Reads-raise e = record { tables_same = λ w. refl; rollback_same = λ w. refl }

  pub Reads-read : (f : Tables → A) → Reads (read f)
  Reads-read f = record { tables_same = λ w. refl; rollback_same = λ w. refl }

  pub Atomic-Reads : {m : M A} → Reads m → Atomic m
  Atomic-Reads r = record { undone = λ w b e. r.tables_same w }

  pub Atomic-transaction : (m : M A) → Atomic (transaction m)
  unfolding transaction
  Atomic-transaction m = record { undone = λ w b e. ground arith }

pub Total-pure : {A : Type 0} (a : A) → Total (pure a)
Total-pure a = record { returns = λ w. refl }

pub Reads-now : Reads now
Reads-now = record { tables_same = λ w. refl; rollback_same = λ w. refl }

pub Reads-new_uuid : Reads new_uuid
Reads-new_uuid = record { tables_same = λ w. refl; rollback_same = λ w. refl }

module _ {A B : Type 0} (f : A → M B) where
  resume-tables :
      (r : Result A) (w : World) → ((a : A) → Reads (f a)) → (resume r f w).1.tables ≡ w.tables
  resume-tables (ok a) w h = (h a).tables_same w
  resume-tables (err e) w h = refl

  resume-rollback :
      (r : Result A) (w : World) → ((a : A) → Reads (f a)) → (resume r f w).1.rollback ≡ w.rollback
  resume-rollback (ok a) w h = (h a).rollback_same w
  resume-rollback (err e) w h = refl

  resume-undone :
      (r : Result A) (w : World)
      → ((a : A) → Atomic (f a))
      → w.rollback ≡ true
      → is_ok (resume r f w).0 ≡ false
      → (resume r f w).1.tables ≡ w.tables
  resume-undone (ok a) w h b e = (h a).undone w b e
  resume-undone (err x) w h b e = refl

  resume-Total :
      (r : Result A) (w : World)
      → ((a : A) → Total (f a))
      → is_ok (resume r f w).0 ≡ false
      → is_ok r ≡ false
  resume-Total (ok a) w h e = cc ((h a).returns w)
  resume-Total (err x) w h e = refl

  resume_returns :
      (r : Result A) (w : World)
      → ((a : A) → Total (f a))
      → is_ok r ≡ true
      → is_ok (resume r f w).0 ≡ true
  resume_returns (ok a) w h e = (h a).returns w
  resume_returns (err x) w h e = cc

  resume_failed : (r : Result A) (w : World) → is_ok r ≡ false → (resume r f w).1.tables ≡ w.tables
  resume_failed (ok a) w e = cc
  resume_failed (err x) w e = refl

module _ {A B : Type 0} (m : M A) (f : A → M B) where
  pub Reads-bind : Reads m → ((a : A) → Reads (f a)) → Reads (m >>= f)
  Reads-bind r h = record {
    tables_same = λ w. resume-tables f (m w).0 (m w).1 h ∙ r.tables_same w;
    rollback_same = λ w. resume-rollback f (m w).0 (m w).1 h ∙ r.rollback_same w;
  }

  pub Atomic-bind : Reads m → ((a : A) → Atomic (f a)) → Atomic (m >>= f)
  Atomic-bind r h = record {
    undone = λ w b e. resume-undone f (m w).0 (m w).1 h (r.rollback_same w ∙ b) e ∙ r.tables_same w;
  }

  pub Total-bind : Total m → ((a : A) → Total (f a)) → Total (m >>= f)
  Total-bind t h = record { returns = λ w. resume_returns f (m w).0 (m w).1 h (t.returns w) }

  -- What cannot raise may follow.
  pub Atomic-bind-Total : Atomic m → ((a : A) → Total (f a)) → Atomic (m >>= f)
  Atomic-bind-Total k h = record {
    undone = λ w b e.
        let failed = resume-Total f (m w).0 (m w).1 h e in
        resume_failed f (m w).0 (m w).1 failed ∙ k.undone w b failed;
  }

pub Reads-if : {A : Type 0} (b : Bool) (m n : M A) → Reads m → Reads n → Reads (if b then m else n)
Reads-if true m n h k = h
Reads-if false m n h k = k

pub Atomic-if :
    {A : Type 0} (b : Bool) (m n : M A) → Atomic m → Atomic n → Atomic (if b then m else n)
Atomic-if true m n h k = h
Atomic-if false m n h k = k

pub ruleset reads_rules = (
  Reads-pure, Reads-lift, Reads-raise, Reads-read, Reads-now, Reads-new_uuid, Reads-bind, Reads-if,
)

pub ruleset atomic_rules = (Atomic-bind, Atomic-transaction, Atomic-if)

pub Total-now : Total now
Total-now = record { returns = λ w. refl }

pub Total-new_uuid : Total new_uuid
Total-new_uuid = record { returns = λ w. refl }

pub Total-if : {A : Type 0} (b : Bool) (m n : M A) → Total m → Total n → Total (if b then m else n)
Total-if true m n h k = h
Total-if false m n h k = k

pub ruleset total_rules = (Total-pure, Total-now, Total-new_uuid, Total-bind, Total-if)
