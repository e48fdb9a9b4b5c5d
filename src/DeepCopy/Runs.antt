-- ===== src/DeepCopy/Runs.antt =====
-- Runs that only take new cells, and what they make of these cells alone.

use mwaa_controller.Common.{ℕ, ◌≤◌, ◌<◌, ◌≡◌, refl, ◌∙◌, some, arith}
use mwaa_controller.Common.{nat_eq}
use mwaa_controller.DeepCopy.Heap.{Foreign, Heap, Run, Box, pure, ◌>>=◌, load, store_new, alloc}
use mwaa_controller.DeepCopy.Means.{Holds}

module _ {F : Foreign} where
  -- The cells of `h` from `lo` on are as they were in `g`.
  pub record Same (lo : ℕ) (h g : Heap F) : Type 0 where
    pub bound : h.next ≤ g.next
    pub cells : (a : ℕ) → lo ≤ a → a < h.next → g.cell a ≡ h.cell a

  pub Same-refl : (lo : ℕ) (h : Heap F) → Same lo h h
  Same-refl lo h = record { bound = omega arith; cells = λ a l u. refl }

  pub Same-trans : {lo : ℕ} {h g k : Heap F} → Same lo h g → Same lo g k → Same lo h k
  Same-trans {h} {g} s t = record {
    bound = let a = s.bound in let b = t.bound in omega arith;
    cells = λ a l u. t.cells a l (let b = s.bound in omega arith) ∙ s.cells a l u;
  }

  pub Same-from : {lo hi : ℕ} {h g : Heap F} → lo ≤ hi → Same lo h g → Same hi h g
  Same-from le s = record { bound = s.bound; cells = λ a l u. s.cells a (omega arith) u }

  -- The run ends; what it makes depends on the cells that it took, and on no other one.
  pub record Makes {B : Type 0} (h : Heap F) (run : Run F B) (Q : Heap F → B → Type 0)
      : Type 0 where
    pub result : B
    pub after : Heap F
    pub runs : run h ≡ some (result, after)
    pub extends : Same 0 h after
    pub fresh : (g : Heap F) → Same h.next after g → Q g result

  pub Makes-pure :
      {B : Type 0} {h : Heap F} {Q : Heap F → B → Type 0} (x : B)
      → ((g : Heap F) → Q g x)
      → Makes h (pure x) Q
  Makes-pure {h} x q = record {
    result = x;
    after = h;
    runs = refl;
    extends = Same-refl 0 h;
    fresh = λ g s. q g;
  }

  -- What follows a run may use what that made.
  pub Makes-bind :
      {A B : Type 0} {h : Heap F} {first : Run F A} {next : A → Run F B} {P : Heap F → A → Type 0}
      {Q : Heap F → B → Type 0}
      → Makes h first P
      → ((x : A) (h1 : Heap F) → Same 0 h h1 → Makes h1 (next x) (λ g y. P g x → Q g y))
      → Makes h (first >>= next) Q
  unfolding ◌>>=◌
  Makes-bind {h} {next} p q =
      let rest = q p.result p.after p.extends in
      record {
        result = rest.result;
        after = rest.after;
        runs = rw (◌>>=◌, p.runs) rest.runs;
        extends = Same-trans p.extends rest.extends;
        fresh = λ g s.
            rest.fresh g (Same-from p.extends.bound s)
              (p.fresh g (Same-trans (Same-from (omega arith) rest.extends) s));
      }

  pub load-Makes :
      {A : Type 0} (box : Box F A) {h : Heap F} {a : ℕ} {x : A} {B : Type 0} (next : A → Run F B)
      {Q : Heap F → B → Type 0}
      → Holds box h a x
      → Makes h (next x) Q
      → Makes h (load box a >>= next) Q
  unfolding load ◌>>=◌
  load-Makes box {h} {a} {x} next at q = record {
    result = q.result;
    after = q.after;
    runs = rw (◌>>=◌, load, at.holds) (rw (box.get-put x) q.runs);
    extends = q.extends;
    fresh = q.fresh;
  }

  pub store_new-Makes :
      {A : Type 0} (box : Box F A) (h : Heap F) (x : A)
      → Makes h (store_new box x) (λ g b. Holds box g b x)
  unfolding store_new alloc
  store_new-Makes box h x = record {
    result = h.next;
    after = alloc h (box.put x);
    runs = refl;
    extends = record { bound = omega arith; cells = λ a l u. ground arith };
    fresh = λ g s. record {
      taken = let b = s.bound in omega arith;
      holds = s.cells h.next (omega arith) (omega arith) ∙ ground arith;
    };
  }
