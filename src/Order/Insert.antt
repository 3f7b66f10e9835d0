-- ===== src/Order/Insert.antt =====
-- list_insert_ordered, list_unique, list_max and list_min of src/lib/kernel/list.c.
use mathlib.Core.Logic.{◌∨₁◌}
use mathlib.Core.Logic.Or
use mathlib.Core.List.{Perm, perm_middle, Mem, mem-cons, mem-cons_self, mem-cons_of_mem}
use mathlib.Core.List.Perm
use csed.Common.{
  ◌≡◌, refl, ap, Bool, true, false, not, ◌&&◌, ◌||◌, List, [], ◌∷◌, ◌++◌, some, arith,
  if◌then◌else◌, Bool-cases, inl, inr,
}
use csed.Order.{
  is_sorted, sorted_from, list_insert_ordered, unique_from, list_unique, max_from, list_max,
  min_from, list_min,
}

module _ {ℓ} {A : Type ℓ} (less : A → A → Bool) where
  insert_perm : (l : List A) (elem : A) → Perm (list_insert_ordered less l elem) (elem ∷ l)
  unfolding list_insert_ordered
  insert_perm [] elem = Perm.refl (elem ∷ [])
  insert_perm (e ∷ rest) elem = elim (Bool-cases (less elem e)) [
    | inl h ↦ rw h (Perm.refl (elem ∷ e ∷ rest))
    | inr h ↦ rw h (Perm.trans (Perm.cons e (insert_perm rest elem)) (Perm.swap elem e rest))
  ]

  module _ (asym : (a b : A) → less a b ≡ true → less b a ≡ false) where
    insert_after :
        (z : A) (l : List A) (elem : A)
        → sorted_from less z l ≡ true
        → less elem z ≡ false
        → sorted_from less z (list_insert_ordered less l elem) ≡ true
    unfolding list_insert_ordered sorted_from
    insert_after z [] elem s h = ground arith
    insert_after z (e ∷ rest) elem s h = ground (arith, asym elem e, insert_after e rest elem)

    -- list_insert_ordered into a list in order, by an asymmetric order, adds the element and leaves
    -- the list in order.
    pub list_insert_ordered_lem :
        (l : List A) (elem : A)
        → is_sorted less l ≡ true
        → (is_sorted less (list_insert_ordered less l elem) ≡ true)
          × Perm (list_insert_ordered less l elem) (elem ∷ l)
    unfolding is_sorted sorted_from list_insert_ordered
    list_insert_ordered_lem l elem s = (order l s, insert_perm l elem)
      where
        order :
            (l : List A)
            → is_sorted less l ≡ true
            → is_sorted less (list_insert_ordered less l elem) ≡ true
        order [] s = refl
        order (e ∷ rest) s = ground (arith, asym elem e, insert_after e rest elem)

  -- Whether each element differs from the one before it.
  abbrev pub distinct_from : A → List A → Bool
  distinct_from x [] = true
  distinct_from x (y ∷ ys) = (less x y || less y x) && distinct_from y ys

  abbrev pub adjacent_distinct : List A → Bool
  adjacent_distinct [] = true
  adjacent_distinct (x ∷ xs) = distinct_from x xs

  record Unique (elem : A) (rest kept removed : List A) : Type ℓ where
    others : List A
    kept_eq : kept ≡ elem ∷ others
    distinct : distinct_from elem others ≡ true
    same : Perm (kept ++ removed) (elem ∷ rest)

  unique_from-Unique :
      (elem : A) (rest : List A)
      → let (kept, removed) = unique_from less elem rest in Unique elem rest kept removed
  unfolding unique_from
  unique_from-Unique elem [] = record {
    others = [];
    kept_eq = refl;
    distinct = refl;
    same = Perm.refl (elem ∷ []);
  }
  unique_from-Unique elem (next ∷ rest) =
      elim (Bool-cases (not (less elem next) && not (less next elem))) [
        | inl h ↦
            let ih = unique_from-Unique elem rest in
            rw (h, unique_from)
              (record {
                others = ih.others;
                kept_eq = ih.kept_eq;
                distinct = ih.distinct;
                same =
                    Perm.trans (perm_middle _ _)
                      (Perm.trans (Perm.cons next ih.same) (Perm.swap elem next rest));
              })
        | inr h ↦
            let ih = unique_from-Unique next rest in
            rw (h, unique_from)
              (record {
                others = next ∷ ih.others;
                kept_eq = ap (◌∷◌ elem) ih.kept_eq;
                distinct = ground (arith, ih.distinct);
                same = Perm.cons elem ih.same;
              })
      ]

  -- Whether no element of the list is greater than `m`.
  abbrev pub none_above : A → List A → Bool
  none_above m [] = true
  none_above m (e ∷ rest) = not (less m e) && none_above m rest

  module _ (asym : (a b : A) → less a b ≡ true → less b a ≡ false)
      (trans : (a b c : A) → less a b ≡ false → less b c ≡ false → less a c ≡ false) where
    max_from_above :
        (m : A) (l : List A)
        → (less (max_from less m l) m ≡ false) × (none_above (max_from less m l) l ≡ true)
    unfolding max_from
    max_from_above m [] = ground (arith, asym m m)
    max_from_above m (e ∷ rest) = ground (
      arith,
      asym m e,
      max_from_above m rest,
      max_from_above e rest,
      trans (max_from less e rest) e m,
      trans (max_from less m rest) m e,
    )

  max_from-mem : (m : A) (l : List A) → Mem (max_from less m l) (m ∷ l)
  unfolding max_from
  max_from-mem m [] = mem-cons_self
  max_from-mem m (e ∷ rest) =
      elim (less m e) as (λ b. Mem (max_from less (if b then e else m) rest) (m ∷ e ∷ rest)) [
        | true ↦ mem-cons_of_mem m (max_from-mem e rest)
        | false ↦ skip (mem-cons.0 (max_from-mem m rest))
      ]
    where
      skip : {a : A} → (a ≡ m) ∨₁ Mem a rest → Mem a (m ∷ e ∷ rest)
      skip o =
          Or.elim squash₁ o (λ q. rw q mem-cons_self) (λ q. mem-cons_of_mem m (mem-cons_of_mem e q))

  -- list_unique splits the list into the elements kept, no two neighbours of which are equal by
  -- the order, and the elements removed.
  pub list_unique_lem :
      (l : List A)
      → let (kept, removed) = list_unique less l in
        (adjacent_distinct kept ≡ true) × Perm (kept ++ removed) l
  unfolding list_unique
  list_unique_lem [] = (refl, Perm.refl [])
  list_unique_lem (x ∷ xs) = let u = unique_from-Unique x xs in (rw u.kept_eq u.distinct, u.same)

  module _ (asym : (a b : A) → less a b ≡ true → less b a ≡ false)
      (trans : (a b c : A) → less a b ≡ false → less b c ≡ false → less a c ≡ false) where
    -- list_max of a list that is not empty, by a weak order, is an element of it, and no element
    -- is greater.
    pub list_max_lem :
        (x : A) (xs : List A)
        → (m : A) × (list_max less (x ∷ xs) ≡ some m)
          × (none_above m (x ∷ xs) ≡ true)
          × Mem m (x ∷ xs)
    unfolding list_max
    list_max_lem x xs = (
      max_from less x xs,
      refl,
      ground (arith, max_from_above asym trans x xs),
      max_from-mem x xs,
    )

-- The least element by an order is the greatest by its converse.
min_from-eq {ℓ} :
    {A : Type ℓ} (less : A → A → Bool) (m : A) (l : List A)
    → min_from less m l ≡ max_from (λ a b. less b a) m l
unfolding min_from max_from
min_from-eq less m [] = refl
min_from-eq less m (e ∷ rest) = min_from-eq less (if less e m then e else m) rest

module _ {ℓ} {A : Type ℓ} (less : A → A → Bool)
    (asym : (a b : A) → less a b ≡ true → less b a ≡ false)
    (trans : (a b c : A) → less a b ≡ false → less b c ≡ false → less a c ≡ false) where
  -- list_min of a list that is not empty, by a weak order, is an element of it, and no element is
  -- less.
  pub list_min_lem :
      (x : A) (xs : List A)
      → (m : A) × (list_min less (x ∷ xs) ≡ some m)
        × (none_above (λ a b. less b a) m (x ∷ xs) ≡ true)
        × Mem m (x ∷ xs)
  unfolding list_min list_max
  list_min_lem x xs =
      rw (min_from-eq less x xs)
        (list_max_lem (λ a b. less b a) (λ a b. asym b a) (λ a b c p q. trans c b a q p) x xs)
