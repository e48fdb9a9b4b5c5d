-- ===== src/Samples/Comparators.antt =====
-- An instance of `Compare`.
use mwaa_controller.Common.{
  String, ◌≡◌, ◌↔◌, refl, sym, ◌∙◌, ◌==◌, string_eq, ==_iff, ==_refl, Bool, true, false,
}
use mwaa_controller.Common.{
  Option, none, some, List, [], ◌∷◌, ◌&&◌, arith, is_some, inl, inr, Option-cases,
}
use mwaa_controller.Common.Dict.{Dict, lookup, NodupKeys, SameEntries}
use mwaa_controller.Ext.Compare.{Compare, CompareIsLawful}
use mwaa_controller.Api.{ResourceRef, RefFrom}
use mathlib.Core.Bool.{xor}

-- A Boolean test decides equality.
abbrev pub Decides : {A : Type 0} → (A → A → Bool) → Type 0
Decides {A} q = (a b : A) → (q a b ≡ true) ↔ (a ≡ b)

abbrev pub same_option : {A : Type 0} → (A → A → Bool) → Option A → Option A → Bool
same_option q none none = true
same_option q (some a) (some b) = q a b
same_option q _ _ = false

pub same_option-Decides : {A : Type 0} (q : A → A → Bool) → Decides q → Decides (same_option q)
same_option-Decides q h none none = ground arith
same_option-Decides q h none (some b) = ground arith
same_option-Decides q h (some a) none = ground arith
same_option-Decides q h (some a) (some b) = ground (arith, h a b)

abbrev pub same_from : RefFrom → RefFrom → Bool
same_from a b =
    same_option (λ s t. s == t) a.name b.name && same_option (λ s t. s == t) a.namespace b.namespace

same_text : Decides {A = Option String} (same_option (λ s t. s == t))
same_text = same_option-Decides (λ s t. s == t) (λ s t. ==_iff s t)

same_from-Decides : Decides same_from
same_from-Decides a b = ground (arith, same_text a.name b.name, same_text a.namespace b.namespace)

abbrev pub same_ref : ResourceRef → ResourceRef → Bool
same_ref a b = same_option same_from a.from b.from

same_ref-Decides : Decides same_ref
same_ref-Decides a b = ground (arith, same_option-Decides same_from same_from-Decides a.from b.from)

-- Every entry of the first map is in the second.
abbrev pub includes : {V : Type 0} → (V → V → Bool) → Dict V → Dict V → Bool
includes q e [] = true
includes q e ((k, v) ∷ d) = same_option q (lookup k e) (some v) && includes q e d

abbrev pub same_map : {V : Type 0} → (V → V → Bool) → Dict V → Dict V → Bool
same_map q d e = includes q e d && includes q d e

abbrev pub same_list : {A : Type 0} → (A → A → Bool) → List A → List A → Bool
same_list q [] [] = true
same_list q (x ∷ xs) (y ∷ ys) = q x y && same_list q xs ys
same_list q _ _ = false

module _ {V : Type 0} (q : V → V → Bool) (h : Decides q) where
  includes-lookup :
      (d e : Dict V)
      → includes q e d ≡ true
      → (k : String) (v : V) → lookup k d ≡ some v
      → lookup k e ≡ some v
  includes-lookup [] e t k v f = cc
  includes-lookup ((j, w) ∷ d) e t k v f =
      let later : includes q e d ≡ true → lookup k d ≡ some v → lookup k e ≡ some v =
        λ i g. includes-lookup d e i k v g in
      ground (arith, same_option-Decides q h (lookup j e) (some w), later)

  includes_of-lookup :
      (d e : Dict V)
      → NodupKeys d
      → ((k : String) (v : V) → lookup k d ≡ some v → lookup k e ≡ some v)
      → includes q e d ≡ true
  includes_of-lookup [] e u f = refl
  includes_of-lookup ((j, w) ∷ d) e (fresh, u) f =
      let here : lookup j e ≡ some w = f j w (rw (==_refl j) refl) in
      let there = includes_of-lookup d e u (λ k v found. f k v (ground arith)) in
      ground (arith, same_option-Decides q h (lookup j e) (some w), there)

  same_map_iff :
      (d e : Dict V) → NodupKeys d → NodupKeys e → (same_map q d e ≡ true) ↔ SameEntries d e
  same_map_iff d e u w = (
    λ t k. elim (Option-cases (lookup k d)) [
      | inr (v, found) ↦ found ∙ sym (includes-lookup d e (ground arith) k v found)
      | inl missing ↦ elim (Option-cases (lookup k e)) [
        | inl too ↦ missing ∙ sym too
        | inr (v, found) ↦ includes-lookup e d (ground arith) k v found ∙ sym found
      ]
    ],
    λ s. ground (
      arith,
      includes_of-lookup d e u (λ k v found. sym (s k) ∙ found),
      includes_of-lookup e d w (λ k v found. s k ∙ found),
    ),
  )

  same_list_refl : (xs : List V) → same_list q xs xs ≡ true
  same_list_refl [] = refl
  same_list_refl (x ∷ xs) = ground (arith, (h x x).1 refl, same_list_refl xs)

same_string : Decides {A = String} (λ s t. s == t)
same_string s t = ==_iff s t

abbrev pub comparators : Compare
comparators = record {
  has_nil_difference = λ a b. xor (is_some a) (is_some b);
  deep_equal = same_option same_ref;
  map_string_string_equal = same_map (λ s t. s == t);
  map_string_string_p_equal = same_map (same_option (λ s t. s == t));
  slice_string_p_equal = same_list (same_option (λ s t. s == t));
}

pub comparators-IsLawful : CompareIsLawful comparators
comparators-IsLawful = record {
  nil_difference = λ a b. refl;
  deep_equal_iff = same_option-Decides same_ref same_ref-Decides;
  map_equal_iff = same_map_iff (λ s t. s == t) same_string;
  map_p_equal_iff = same_map_iff (same_option (λ s t. s == t)) same_text;
  slice_p_equal_refl = same_list_refl (same_option (λ s t. s == t)) same_text;
}
