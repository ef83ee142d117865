-- ===== src/Btree/Find.antt =====
-- `Get` on a tree: the leaf that it comes to holds the key if any leaf does.
pub mod Get
pub mod Insert
mod Tests
use svacara_db.Prelude.{
  ℕ, zero, suc, ◌+◌, ◌-◌, ◌≤◌, ◌<◌, ◌≡◌, refl, sym, ap, ◌∙◌, arith, true, false, Option, none, some,
  List, [], ◌∷◌, ◌++◌, map, All, length, get_elem?, ltb, ◌==◌, if◌then◌else◌, Bool-cases, ◌⊎◌, inl,
  inr, Outcome, ok, ◌>>=◌, Ordering,
}
use mathlib.Core.Path.{subst}
use svacara_db.Bytes.{Bytes}
use svacara_db.Bytes.Compare.{cmp, cmp_flip, cmp_trans, eq_of_cmp}
use svacara_db.Btree.{Pager}
use svacara_db.Btree.Page.{Page}
use svacara_db.Btree.Node.{bnode_leaf, bnode_internal, is_le}
use svacara_db.Btree.Node.Layout.{Entry, IsNode}
use svacara_db.Btree.Node.Lookup.{IsAscending, count_le, greater}
use svacara_db.Btree.Insert.{is_eq, get_loop}
use svacara_db.Btree.Leaf.Put.{find}

abbrev IsAbove : Bytes → List Entry → Type 0
IsAbove key es = All (λ x. is_le (cmp x.key key) ≡ false) es

abbrev IsBelow : Bytes → List Entry → Type 0
IsBelow key es = All (λ x. cmp x.key key ≡ Ordering.lt) es

-- A part of the tree for each separator: the part of `a` is `part a`.
module _ {A : Type 0} (sep : A → Entry) (part : A → List Entry) where
  abbrev pub flat : List A → List Entry
  flat [] = []
  flat (a ∷ ks) = part a ++ flat ks

  -- The keys of a part are at least its separator, and below every later one.
  abbrev pub IsSeparated : List A → Type 0
  IsSeparated [] = Unit {0}
  IsSeparated (a ∷ ks) =
      All (λ x. is_le (cmp (sep a).key x.key) ≡ true) (part a)
      × All (λ b. IsBelow (sep b).key (part a)) ks
      × IsSeparated ks

module _ (key : Bytes) where
  find-append_none : (xs ys : List Entry) → find key xs ≡ none → find key (xs ++ ys) ≡ find key ys
  find-append_none [] ys h = refl
  find-append_none (x ∷ xs) ys h = ground (arith, find-append_none xs ys)

  find-append_rest : (xs ys : List Entry) → find key ys ≡ none → find key (xs ++ ys) ≡ find key xs
  find-append_rest [] ys h = h
  find-append_rest (x ∷ xs) ys h = ground (arith, find-append_rest xs ys h)

  find_above : (xs : List Entry) → IsAbove key xs → find key xs ≡ none
  find_above [] a = refl
  find_above (x ∷ xs) (h, a) = ground (arith, find_above xs a, cmp_flip x.key key)

  find_below : (xs : List Entry) → IsBelow key xs → find key xs ≡ none
  find_below [] a = refl
  find_below (x ∷ xs) (h, a) = ground (arith, find_below xs a, cmp_flip x.key key)

  All-map :
      {A : Type 0} (P Q : A → Type 0) (xs : List A) → ((x : A) → P x → Q x) → All P xs → All Q xs
  All-map P Q [] f a = tt
  All-map P Q (x ∷ xs) f (h, a) = (f x h, All-map P Q xs f a)

  module _ {A : Type 0} (sep : A → Entry) (part : A → List Entry) where
    part-IsAbove :
        (a : A)
        → All (λ x. is_le (cmp (sep a).key x.key) ≡ true) (part a)
        → is_le (cmp (sep a).key key) ≡ false
        → IsAbove key (part a)
    part-IsAbove a h l = All-map _ _ (part a) (λ x e. above x e) h
      where
        above : (x : Entry) → is_le (cmp (sep a).key x.key) ≡ true → is_le (cmp x.key key) ≡ false
        above x e = ground (
          arith,
          cmp_flip (sep a).key key,
          cmp_flip x.key key,
          cmp_trans key (sep a).key x.key,
          eq_of_cmp (sep a).key x.key,
        )

    part-IsBelow :
        (a b : A)
        → IsBelow (sep b).key (part a)
        → is_le (cmp (sep b).key key) ≡ true
        → IsBelow key (part a)
    part-IsBelow a b h l = All-map _ _ (part a) (λ x e. below x e) h
      where
        below : (x : Entry) → cmp x.key (sep b).key ≡ Ordering.lt → cmp x.key key ≡ Ordering.lt
        below x e = ground (arith, cmp_trans x.key (sep b).key key, eq_of_cmp (sep b).key key)

    find-flat_above :
        (ks : List A)
        → IsSeparated sep part ks
        → IsAbove key (map sep ks)
        → find key (flat sep part ks) ≡ none
    find-flat_above [] s h = refl
    find-flat_above (a ∷ ks) (low, high, s) (l, h) =
        find-append_none (part a) (flat sep part ks) (find_above (part a) (part-IsAbove a low l))
        ∙ find-flat_above ks s h

    sep-IsAbove :
        (ks : List A)
        → IsAscending (map sep ks)
        → count_le key (map sep ks) ≡ 0
        → IsAbove key (map sep ks)
    sep-IsAbove [] a h = tt
    sep-IsAbove (x ∷ ks) (b, a) h =
        let over : is_le (cmp (sep x).key key) ≡ false = ground arith in
        (over, All-map _ _ (map sep ks) (λ y l. greater (sep x).key y.key key over l) b)

    -- The part where the search goes on holds the key if any part does.
    find-flat :
        (ks : List A) (i : ℕ) (a : A)
        → IsAscending (map sep ks)
        → IsSeparated sep part ks
        → get_elem? ks i ≡ some a
        → count_le key (map sep ks) ≡ suc i
        → find key (flat sep part ks) ≡ find key (part a)
    find-flat [] i a asc s at c = absurd (ground arith)
    find-flat (x ∷ ks) zero a (b, asc) (low, high, s) at c =
        let same : x ≡ a = ground arith in
        let fewer : count_le key (map sep ks) ≡ 0 = ground arith in
        find-append_rest (part x) (flat sep part ks)
          (find-flat_above ks s (sep-IsAbove ks asc fewer))
        ∙ ap (λ y. find key (part y)) same
    find-flat (x ∷ []) (suc i) a (b, asc) (low, high, s) at c = absurd (ground arith)
    find-flat (x ∷ y ∷ ks) (suc i) a (b, asc) (low, (h, high), s) at c =
        let more : count_le key (map sep (y ∷ ks)) ≡ suc i = ground arith in
        let under : is_le (cmp (sep y).key key) ≡ true = ground arith in
        find-append_none (part x) (flat sep part (y ∷ ks))
          (find_below (part x) (part-IsBelow x y h under))
        ∙ find-flat (y ∷ ks) i a asc s at more

    find-flat_first :
        (ks : List A) (a : A)
        → IsAscending (map sep ks)
        → IsSeparated sep part ks
        → get_elem? ks 0 ≡ some a
        → count_le key (map sep ks) ≡ 0
        → find key (flat sep part ks) ≡ find key (part a)
    find-flat_first [] a asc s at c = absurd (ground arith)
    find-flat_first (x ∷ ks) a asc (low, high, s) at c =
        let same : x ≡ a = ground arith in
        let (over, rest) = sep-IsAbove (x ∷ ks) asc c in
        find-flat_above (x ∷ ks) (low, high, s) (over, rest)
        ∙ sym (find_above (part x) (part-IsAbove x low over))
        ∙ ap (λ y. find key (part y)) same
