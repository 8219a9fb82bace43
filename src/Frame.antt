-- ===== src/Frame.antt =====
-- Properties of the descriptor table fd_tbl and its bitmap fd_bm that code keeps: a rule for each
-- shape of the code.
pub mod Disk
pub mod Dirs
pub mod Make
use cdnw_sh.Base.{ℕ, ◌≡◌, refl, ltb, Bool, true, false, if◌then◌else◌, Option, none, some, Bytes}
use cdnw_sh.Params.{bd_size_blocks}
use cdnw_sh.Sys.{
  Sys, FdEntry, M, Run, Inode, ok, stop, Stop, undefined, Code, success, failure, After, After-bind,
  and_then, defined,
}
use cdnw_sh.Blockdev.{blk_read, blk_write}
use cdnw_sh.Inode.{inode_read, inode_write}

abbrev pub Fds : Type 0
Fds = (ℕ → FdEntry) × Bytes

abbrev pub fds : Sys → Fds
fds s = (s.fd_tbl, s.fd_bm)

-- Wherever the action returns, the table and the bitmap have the property.
pub record Kept {A : Type 0} (P : Fds → Type 0) (r : Run A) : Type 0 where
  pub kept : After (λ _ t. P (fds t)) r

module _ {A : Type 0} {P : Fds → Type 0} where
  pub Kept-ok : (a : A) (s : Sys) → P (fds s) → Kept P (ok a s)
  Kept-ok a s h = record { kept = h }

  pub Kept-stop : (r : Stop) → Kept {A = A} P (stop r)
  Kept-stop r = record { kept = tt }

  pub Kept-defined :
      (b : Bool) (s : Sys) (k : Unit {0} → M A)
      → (b ≡ true → Kept P (k tt s))
      → Kept P (and_then (defined b s) k)
  Kept-defined true s k h = h refl
  Kept-defined false s k h = Kept-stop undefined

  pub Kept-if :
      (b : Bool) (m n : M A) (s : Sys)
      → Kept P (m s)
      → Kept P (n s)
      → Kept P ((if b then m else n) s)
  Kept-if true m n s h h' = h
  Kept-if false m n s h h' = h'

  pub Kept-elim :
      (b : Bool) (m n : M A) (s : Sys)
      → Kept P (m s)
      → Kept P (n s)
      → Kept P ((elim b as (λ _. M A) [ false ↦ m | true ↦ n ]) s)
  Kept-elim false m n s h h' = h
  Kept-elim true m n s h h' = h'

  pub Kept-code :
      (c : Code) (m n : M A) (s : Sys)
      → Kept P (m s)
      → Kept P (n s)
      → Kept P ((elim c as (λ _. M A) [ success ↦ m | failure ↦ n ]) s)
  Kept-code success m n s h h' = h
  Kept-code failure m n s h h' = h'

module _ {A B : Type 0} {P : Fds → Type 0} where
  pub Kept-bind :
      (r : Run B) (k : B → M A)
      → Kept P r
      → ((b : B) (t : Sys) → P (fds t) → Kept P (k b t))
      → Kept P (and_then r k)
  Kept-bind r k h next = record {
    kept = After-bind (λ _ t. P (fds t)) (λ _ t. P (fds t)) r k h.kept (λ b t p. (next b t p).kept);
  }

  pub Kept-option :
      (x : Option B) (m : M A) (k : B → M A) (s : Sys)
      → Kept P (m s)
      → ((b : B) → Kept P (k b s))
      → Kept P ((elim x as (λ _. M A) [ none ↦ m | some b ↦ k b ]) s)
  Kept-option none m k s h next = h
  Kept-option (some b) m k s h next = next b

pub ruleset keeps = (Kept-bind, Kept-defined, Kept-ok, Kept-stop, Kept-if, Kept-option, Kept-code)

-- The same, and a property of the result.
pub record Gives {A : Type 0} (P : Fds → Type 0) (Q : A → Type 0) (r : Run A) : Type 0 where
  pub given : After (λ a t. P (fds t) × Q a) r

module _ {A : Type 0} {P : Fds → Type 0} {Q : A → Type 0} where
  pub Gives-ok : (a : A) (s : Sys) → P (fds s) → Q a → Gives P Q (ok a s)
  Gives-ok a s h q = record { given = (h, q) }

  pub Gives-stop : (r : Stop) → Gives P Q (stop r)
  Gives-stop r = record { given = tt }

  pub Gives-defined :
      (b : Bool) (s : Sys) (k : Unit {0} → M A)
      → Gives P Q (k tt s)
      → Gives P Q (and_then (defined b s) k)
  Gives-defined true s k h = h
  Gives-defined false s k h = Gives-stop undefined

  pub Gives-if :
      (b : Bool) (m n : M A) (s : Sys)
      → Gives P Q (m s)
      → Gives P Q (n s)
      → Gives P Q ((if b then m else n) s)
  Gives-if true m n s h h' = h
  Gives-if false m n s h h' = h'

module _ {A B : Type 0} {P : Fds → Type 0} {Q : A → Type 0} where
  pub Gives-bind :
      (r : Run B) (k : B → M A)
      → Kept P r
      → ((b : B) (t : Sys) → P (fds t) → Gives P Q (k b t))
      → Gives P Q (and_then r k)
  Gives-bind r k h next = record {
    given =
        After-bind (λ _ t. P (fds t)) (λ a t. P (fds t) × Q a) r k h.kept
          (λ b t p. (next b t p).given);
  }

pub ruleset gives = (Gives-bind, Gives-defined, Gives-ok, Gives-stop, Gives-if)

-- Behind an action that keeps one property, another may be had.
pub Kept-through :
    {A B : Type 0} {P P' : Fds → Type 0} (r : Run B) (k : B → M A)
    → Kept P r
    → ((b : B) (t : Sys) → P (fds t) → Kept P' (k b t))
    → Kept P' (and_then r k)
Kept-through {P = P} {P' = P'} r k h next = record {
  kept = After-bind (λ _ t. P (fds t)) (λ _ t. P' (fds t)) r k h.kept (λ b t p. (next b t p).kept);
}

-- What is known behind one action, used for the next.
pub Kept-from :
    {A B : Type 0} {P P' : Fds → Type 0} {Q : B → Type 0} (r : Run B) (k : B → M A)
    → Gives P Q r
    → ((b : B) (t : Sys) → P (fds t) → Q b → Kept P' (k b t))
    → Kept P' (and_then r k)
Kept-from {P = P} {P' = P'} {Q = Q} r k h next = record {
  kept =
      After-bind (λ a t. P (fds t) × Q a) (λ _ t. P' (fds t)) r k h.given
        (λ b t p. (next b t p.0 p.1).kept);
}

pub After-from :
    {A B : Type 0} {P : Fds → Type 0} {Q : B → Type 0} (R : A → Sys → Type 0) (r : Run B)
    (k : B → M A)
    → Gives P Q r
    → ((b : B) (t : Sys) → P (fds t) → Q b → After R (k b t))
    → After R (and_then r k)
After-from {P = P} {Q = Q} R r k h next =
    After-bind (λ a t. P (fds t) × Q a) R r k h.given (λ b t p. next b t p.0 p.1)

pub After-Kept :
    {A B : Type 0} {P : Fds → Type 0} (R : A → Sys → Type 0) (r : Run B) (k : B → M A)
    → Kept P r
    → ((b : B) (t : Sys) → P (fds t) → After R (k b t))
    → After R (and_then r k)
After-Kept {P = P} R r k h next = After-bind (λ _ t. P (fds t)) R r k h.kept next
