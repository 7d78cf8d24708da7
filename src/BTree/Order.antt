-- ===== src/BTree/Order.antt =====
-- The order of the keys in a leaf, through insertNonFull of src/Btree.cpp.
use mathlib.Core.List.{append_assoc}
use custom_database.Base.{
  ℕ, ◌≡◌, sym, ap, ◌∙◌, subst, inl, inr, true, false, List, [], ◌∷◌, ◌++◌, some, length, All,
  All-append, All-split,
}
use custom_database.Page.{KeyType, Page}
use custom_database.BTree.Nodes.{insert_leaf}
use custom_database.BTree.Leaf.{keys_of, bytes_of, Sized, Place}
use custom_database.BTree.Insertion.{insert_leaf-Place}

-- `operator<` of the keys is a strict weak order, as the containers of the standard library ask.
pub record StrictWeak {K : Type 0} (κ : KeyType K) : Type 0 where
  pub asym : (a b : K) → κ.less a b ≡ true → κ.less b a ≡ false
  pub trans : (a b c : K) → κ.less b a ≡ false → κ.less c b ≡ false → κ.less c a ≡ false

module _ {K : Type 0} (κ : KeyType K) (value_size : ℕ) where
  -- No entry has a smaller key than one before it.
  abbrev pub Sorted : List (K × List ℕ) → Type 0
  Sorted [] = Unit
  Sorted (x ∷ xs) = All (λ y. κ.less y.0 x.0 ≡ false) xs × Sorted xs

  Sorted-insert :
      (before after : List (K × List ℕ)) (e : K × List ℕ)
      → Sorted (before ++ after)
      → All (λ x. κ.less e.0 x.0 ≡ false) before
      → All (λ y. κ.less y.0 e.0 ≡ false) after
      → Sorted (before ++ e ∷ after)
  Sorted-insert [] after e s low high = (high, s)
  Sorted-insert (x ∷ before) after e s low high =
      let (a, b) = All-split _ before after s.0 in
      (All-append _ before (e ∷ after) a (low.0, b), Sorted-insert before after e s.1 low.1 high)

  All-smaller :
      (after : List (K × List ℕ)) (e : K × List ℕ)
      → StrictWeak κ
      → All (λ x. κ.less e.0 x.0 ≡ true) after
      → All (λ y. κ.less y.0 e.0 ≡ false) after
  All-smaller [] e w h = tt
  All-smaller (x ∷ after) e w h = (w.asym (e.0) (x.0) h.0, All-smaller after e w h.1)

  -- What is not below the last entry of a sorted list is not below any.
  All-last :
      (ys : List (K × List ℕ)) (x e : K × List ℕ) (rest : List (K × List ℕ))
      → StrictWeak κ
      → Sorted (ys ++ x ∷ rest)
      → κ.less (e.0) (x.0) ≡ false
      → All (λ y. κ.less e.0 y.0 ≡ false) (ys ++ x ∷ [])
  All-last [] x e rest w s h = (h, tt)
  All-last (y ∷ ys) x e rest w s h =
      let (_, b) = All-split _ ys (x ∷ rest) s.0 in
      (w.trans (y.0) (x.0) (e.0) b.0 h, All-last ys x e rest w s.1 h)

  All-before :
      (es : List (K × List ℕ)) (e : K × List ℕ) (p : Place κ value_size es e)
      → StrictWeak κ
      → Sorted es
      → All (λ x. κ.less e.0 x.0 ≡ false) p.before
  All-before es e p w s = elim (p.stops) [
    | inl none_before ↦ subst (All (λ x. κ.less e.0 x.0 ≡ false)) (sym none_before) tt
    | inr (ys, x, eq, h) ↦ subst (All (λ x. κ.less e.0 x.0 ≡ false)) (sym eq) (
        All-last ys x e p.after w
          (subst Sorted (p.split ∙ ap (λ l. l ++ p.after) eq ∙ append_assoc ys (x ∷ []) p.after) s)
          h)
  ]

  -- If the keys are strictly weakly ordered and the entries of the leaf are sorted, the vectors of
  -- the modified copy hold one entry more, sorted again, each with a value of the right size; the
  -- new entry is one of them.
  pub insert_leaf-Sorted :
      (p : Page K) (es : List (K × List ℕ)) (key : K) (value : List ℕ)
      → StrictWeak κ
      → p.keys ≡ keys_of es
      → p.bytes ≡ bytes_of es
      → Sized value_size es
      → length value ≡ value_size
      → Sorted es
      → (before after : List (K × List ℕ)) × (es ≡ before ++ after)
        × (insert_leaf κ value_size p key value
            ≡ some (record p {
              keys = keys_of (before ++ (key, value) ∷ after);
              bytes = bytes_of (before ++ (key, value) ∷ after);
            }))
        × Sorted (before ++ (key, value) ∷ after)
        × Sized value_size (before ++ (key, value) ∷ after)
  insert_leaf-Sorted p es key value w hk hb sized hv sorted =
      let e : K × List ℕ = (key, value) in
      let (place, inserted) = insert_leaf-Place κ value_size p es key value hk hb sized hv in
      let (sb, sa) =
        All-split _ place.before place.after (subst (Sized value_size) place.split sized) in
      (
        place.before,
        place.after,
        place.split,
        inserted,
        Sorted-insert place.before place.after e (subst Sorted place.split sorted)
            (All-before es e place w sorted) (All-smaller place.after e w place.greater),
        All-append _ place.before (e ∷ place.after) sb (hv, sa),
      )
