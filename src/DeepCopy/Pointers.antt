-- ===== src/DeepCopy/Pointers.antt =====
-- Copies of what is behind a pointer, in a slice or in a map.
use mwaa_controller.Common.{ℕ, ◌∙◌, Option, none, some, List, [], ◌∷◌, arith}
use mwaa_controller.Common.Dict.{Dict}
use mwaa_controller.DeepCopy.Heap
use mwaa_controller.DeepCopy.Heap.{Foreign, Ptr, Heap, Run, Box, pure}
use mwaa_controller.DeepCopy.Into.{copy_ptr, copy_each, copy_entries, copy_given}
use mwaa_controller.DeepCopy.Means.{Means, Holds, Plain, PtrAt, EachAt, EntriesAt, Present, OrEmpty}
use mwaa_controller.DeepCopy.Runs.{
  Same, Same-refl, Same-trans, Makes, Makes-pure, Makes-bind, load-Makes, store_new-Makes,
}

module _ {F : Foreign} where
  -- A meaning that later cells do not change, and a function that makes the same of new cells.
  pub record Copied {A V : Type 0} (M : Means F A V) (copy : A → Run F A) : Type 0 where
    pub still : {h g : Heap F} (x : A) (v : V) → Same 0 h g → M h x v → M g x v
    pub copies : (h : Heap F) (x : A) (v : V) → M h x v → Makes h (copy x) (λ g y. M g y v)

  -- A field of a struct that stood in the memory `start`, before the copy of the struct began.
  pub record Field {A V : Type 0} (start : Heap F) (M : Means F A V) (copy : A → Run F A) (x : A)
      (v : V) : Type 0 where
    pub copied : Copied M copy
    pub means : M start x v

  abbrev pub field :
      {A V : Type 0} {start : Heap F} {M : Means F A V} {copy : A → Run F A} (x : A) (v : V)
      → Copied M copy
      → M start x v
      → Field start M copy x v
  field x v C m = record { copied = C; means = m }

  -- What a run makes at any later point of the copy.
  pub record Later {B : Type 0} (start : Heap F) (run : Run F B) (Q : Heap F → B → Type 0)
      : Type 0 where
    pub makes : (h : Heap F) → Same 0 start h → Makes h run Q

  pub pure_later :
      {B : Type 0} {start : Heap F} {Q : Heap F → B → Type 0} (x : B)
      → ((g : Heap F) → Q g x)
      → Later start (pure x) Q
  pure_later x q = record { makes = λ h s. Makes-pure x q }

  infixl 5 ◌>>=◌
  pub ◌>>=◌ :
      {A V B : Type 0} {M : Means F A V} {copy : A → Run F A} {start : Heap F} {x : A} {v : V}
      {next : A → Run F B} {Q : Heap F → B → Type 0}
      → Field start M copy x v
      → ((y : A) → Later start (next y) (λ g z. M g y v → Q g z))
      → Later start (Heap.◌>>=◌ (copy x) next) Q
  ◌>>=◌ {x} {v} f rest = record {
    makes = λ h s.
        Makes-bind (f.copied.copies h x v (f.copied.still x v s f.means))
          λ y h1 t. (rest y).makes h1 (Same-trans s t);
  }

  -- The copy of a struct, field by field.
  pub by_fields :
      {A V : Type 0} {M : Means F A V} {copy : A → Run F A}
      → ((h g : Heap F) (x : A) (v : V) → Same 0 h g → M h x v → M g x v)
      → ((h : Heap F) (x : A) (v : V) → M h x v → Later h (copy x) (λ g y. M g y v))
      → Copied M copy
  by_fields s c = record {
    still = λ x v. s _ _ x v;
    copies = λ h x v m. (c h x v m).makes h (Same-refl 0 h);
  }

  pub plain : {A : Type 0} → Copied (Plain {A = A}) pure
  plain = record { still = λ x v s m. m; copies = λ h x v m. Makes-pure x (λ g. m) }

  still-Holds :
      {A : Type 0} {box : Box F A} {h g : Heap F} {a : ℕ} {x : A}
      → Same 0 h g
      → Holds box h a x
      → Holds box g a x
  still-Holds {a} s m = record {
    taken = let t = m.taken in let b = s.bound in omega arith;
    holds = s.cells a (omega arith) m.taken ∙ m.holds;
  }

  module _ {A V : Type 0} (box : Box F A) {M : Means F A V} {copy : A → Run F A}
      (C : Copied M copy) where
    pub behind : Copied (PtrAt box M) (copy_ptr box copy)
    behind = record { still = ptr-still; copies = ptr-copies }
      where
        ptr-still :
            {h g : Heap F} (x : Ptr) (v : Option V)
            → Same 0 h g
            → PtrAt box M h x v
            → PtrAt box M g x v
        ptr-still none v s m = m
        ptr-still (some a) v s (x, w, at, m, e) = (x, w, still-Holds s at, C.still x w s m, e)

        ptr-copies :
            (h : Heap F) (x : Ptr) (v : Option V)
            → PtrAt box M h x v
            → Makes h (copy_ptr box copy x) (λ g y. PtrAt box M g y v)
        ptr-copies h none v m = Makes-pure none (λ g. m)
        ptr-copies h (some a) v (x, w, at, m, e) = load-Makes box _ at (
            Makes-bind (C.copies h x w m) λ y h1 s1.
              Makes-bind (store_new-Makes box h1 y)
                λ b h2 s2. Makes-pure (some b) λ g new meant. (y, w, new, meant, e))

  module _ {A V : Type 0} {M : Means F A V} {copy : A → Run F A} (C : Copied M copy) where
    each-still :
        {h g : Heap F} (ps : List A) (v : List V) → Same 0 h g → EachAt M h ps v → EachAt M g ps v
    each-still [] v s m = m
    each-still (p ∷ ps) v s (w, ws, m, ms, e) = (w, ws, C.still p w s m, each-still ps ws s ms, e)

    each-copies :
        (h : Heap F) (ps : List A) (v : List V)
        → EachAt M h ps v
        → Makes h (copy_each copy ps) (λ g qs. EachAt M g qs v)
    each-copies h [] v m = Makes-pure [] (λ g. m)
    each-copies h (p ∷ ps) v (w, ws, m, ms, e) = Makes-bind (C.copies h p w m) λ q h1 s1.
        Makes-bind (each-copies h1 ps ws (each-still ps ws s1 ms))
          λ qs h2 s2. Makes-pure (q ∷ qs) λ g all one. (w, ws, one, all, e)

    pub each : Copied (EachAt M) (copy_each copy)
    each = record { still = each-still; copies = each-copies }

  module _ {V : Type 0} {M : Means F Ptr V} {copy : Ptr → Run F Ptr} (C : Copied M copy) where
    entries-still :
        {h g : Heap F} (d : Dict Ptr) (v : Dict V)
        → Same 0 h g
        → EntriesAt M h d v
        → EntriesAt M g d v
    entries-still [] v s m = m
    entries-still ((key, p) ∷ d) v s (w, ws, m, ms, e) =
        (w, ws, C.still p w s m, entries-still d ws s ms, e)

    entries-copies :
        (h : Heap F) (d : Dict Ptr) (v : Dict V)
        → EntriesAt M h d v
        → Makes h (copy_entries copy d) (λ g d'. EntriesAt M g d' v)
    entries-copies h [] v m = Makes-pure [] (λ g. m)
    entries-copies h ((key, p) ∷ d) v (w, ws, m, ms, e) = Makes-bind (C.copies h p w m) λ q h1 s1.
        Makes-bind (entries-copies h1 d ws (entries-still d ws s1 ms))
          λ d' h2 s2. Makes-pure ((key, q) ∷ d') λ g all one. (w, ws, one, all, e)

    pub every_entry : Copied (EntriesAt M) (copy_entries copy)
    every_entry = record { still = entries-still; copies = entries-copies }

  -- A pointer is tested before the copy.
  pub if_given :
      {V : Type 0} {M : Means F Ptr (Option V)} {copy : Ptr → Run F Ptr}
      → ((h : Heap F) (v : Option V) → M h none v → (g : Heap F) → M g none v)
      → Copied M copy
      → Copied M (copy_given copy)
  if_given {M} {copy} nil C = record { still = λ x v. C.still x v; copies = given-copies }
    where
      given-copies :
          (h : Heap F) (x : Ptr) (v : Option _)
          → M h x v
          → Makes h (copy_given copy x) (λ g y. M g y v)
      given-copies h none v m = Makes-pure none (nil h v m)
      given-copies h (some a) v m = C.copies h (some a) v m

  pub present :
      {V : Type 0} {M : Means F Ptr (Option V)} {copy : Ptr → Run F Ptr}
      → Copied M copy
      → Copied (Present M) copy
  present C = record { still = λ x v. C.still x (some v); copies = λ h x v. C.copies h x (some v) }

  pub or_empty :
      {V : Type 0} {M : Means F Ptr (Option (List V))} {copy : Ptr → Run F Ptr}
      → Copied M copy
      → Copied (OrEmpty M) copy
  or_empty {M} {copy} C = record {
    still = λ x v s (o, m, e). (o, C.still x o s m, e);
    copies = λ h x v (o, m, e).
        let made = C.copies h x o m in
        record {
          result = made.result;
          after = made.after;
          runs = made.runs;
          extends = made.extends;
          fresh = λ g s. (o, made.fresh g s, e);
        };
  }
