-- ===== src/BTree/Balance.antt =====
-- borrowFromLeft and borrowFromRight of src/Btree.cpp, on the vectors of two pages.
use mathlib.Core.Path.{ap₂}
use custom_database.Base.{
  ℕ, ◌+◌, ◌-◌, ◌*◌, ◌≡◌, refl, sym, ap, ◌∙◌, true, List, [], ◌∷◌, ◌++◌, Option, none, some, arith,
  leb, if◌then◌else◌, length, length-append, length-drop, take, drop, take-append, take_all,
  take-append-drop, drop-append_length,
}
use custom_database.Page.{Page, slice}
use custom_database.BTree.Rebalance.{
  pop_last, split_back, split_front, borrow_leaf_left, borrow_leaf_right, borrow_inner_left,
  borrow_inner_right,
}

append-pop_last :
    {A : Type 0} (x : A) (xs : List A) → (pop_last x xs).0 ++ (pop_last x xs).1 ∷ [] ≡ x ∷ xs
unfolding pop_last
append-pop_last x [] = refl
append-pop_last x (y ∷ ys) = ap (λ r. x ∷ r) (append-pop_last y ys)

-- What an inner page borrows from the left it can give back to the right: the pages and the parent's
-- key are then what they were.
pub borrow_inner_right-borrow_inner_left :
    {K : Type 0} (s c : Page K) (key : K) (k : K) (ks : List K) (i : ℕ) (ids : List ℕ)
    → s.keys ≡ k ∷ ks
    → s.children ≡ i ∷ ids
    → (s' c' : Page K) × (key' : K) × (borrow_inner_left s c key ≡ some (s', c', key'))
      × (borrow_inner_right s' c' key' ≡ some (s, c, key))
unfolding borrow_inner_left borrow_inner_right split_back split_front
borrow_inner_right-borrow_inner_left {K = K} s c key k ks i ids hk hc =
    let r = pop_last k ks in
    let q = pop_last i ids in
    let s' = record s { keys = r.0; children = q.0 } in
    let c' = record c { keys = key ∷ c.keys; children = q.1 ∷ c.children } in
    (
      s',
      c',
      r.1,
      ap₂
          (λ (o : Option (List K × K)) (p : Option (List ℕ × ℕ)).
            elim o as (λ _. Option (Page K × Page K × K)) [
              | none ↦ none
              | some r ↦ elim p as (λ _. Option (Page K × Page K × K)) [
                | none ↦ none
                | some q ↦ some (
                  record s { keys = r.0; children = q.0 },
                  record c { keys = key ∷ c.keys; children = q.1 ∷ c.children },
                  r.1,
                )
              ]
            ])
          (ap split_back hk) (ap split_back hc),
      ap₂ (λ x y. some (record s { keys = x; children = y }, c, key))
          (append-pop_last k ks ∙ sym hk) (append-pop_last i ids ∙ sym hc),
    )

length-pop_last : {A : Type 0} (x : A) (xs : List A) → length (pop_last x xs).0 ≡ length xs
unfolding pop_last
length-pop_last x [] = refl
length-pop_last x (y ∷ ys) = omega (arith, length-pop_last y ys)

module _ (value_size : ℕ) where
  -- The value at the end of a page with `suc n` of them.
  slice-last :
      (bytes : List ℕ) (n : ℕ)
      → length bytes ≡ n * value_size + value_size
      → slice bytes (n * value_size) value_size ≡ some (drop (n * value_size) bytes)
  unfolding slice
  slice-last bytes n h =
      let m = n * value_size in
      let enough : leb (m + value_size) (length bytes) ≡ true = ground arith in
      ap (λ b. if b then some (take value_size (drop m bytes)) else none) enough
      ∙ ap some (take_all value_size (drop m bytes) (omega (arith, length-drop m bytes)))

  slice-first :
      (value rest : List ℕ)
      → length value ≡ value_size
      → slice (value ++ rest) 0 value_size ≡ some value
  unfolding slice
  slice-first value rest h =
      let enough : leb (0 + value_size) (length (value ++ rest)) ≡ true =
        ground (arith, length-append value rest) in
      ap (λ b. if b then some (take value_size (value ++ rest)) else none) enough
      ∙ ap some (take-append value_size value rest (omega arith) ∙ take_all value_size value h)

module _ {K : Type 0} (value_size : ℕ) where
  borrow_leaf_left-run :
      (s c : Page K) (k : K) (ks : List K)
      → s.keys ≡ k ∷ ks
      → length s.bytes ≡ length ks * value_size + value_size
      → borrow_leaf_left value_size s c
        ≡ some (
          record s { keys = (pop_last k ks).0; bytes = take (length s.bytes - value_size) s.bytes },
          record c {
            keys = (pop_last k ks).1 ∷ c.keys;
            bytes = drop (length ks * value_size) s.bytes ++ c.bytes;
          },
          (pop_last k ks).1,
        )
  unfolding borrow_leaf_left split_back
  borrow_leaf_left-run s c k ks hk hs =
      let kept = take (length s.bytes - value_size) s.bytes in
      let move = λ (r : List K × K) (o : Option (List ℕ)).
        elim o as (λ _. Option (Page K × Page K × K)) [
          | none ↦ none
          | some v ↦ some (
            record s { keys = r.0; bytes = kept },
            record c { keys = r.1 ∷ c.keys; bytes = v ++ c.bytes },
            r.1,
          )
        ] in
      ap
        (λ (o : Option (List K × K)). elim o as (λ _. Option (Page K × Page K × K)) [
          | none ↦ none
          | some r ↦ move r (slice s.bytes (length (r.0) * value_size) value_size)
        ])
        (ap split_back hk)
      ∙ ap (move (pop_last k ks)) (
          ap (λ n. slice s.bytes (n * value_size) value_size) (length-pop_last k ks)
          ∙ slice-last value_size s.bytes (length ks) hs)

  borrow_leaf_right-run :
      (c s : Page K) (x y : K) (ys : List K) (v rest : List ℕ)
      → s.keys ≡ x ∷ y ∷ ys
      → s.bytes ≡ v ++ rest
      → length v ≡ value_size
      → borrow_leaf_right value_size c s
        ≡ some (
          record c { keys = c.keys ++ x ∷ []; bytes = c.bytes ++ v },
          record s { keys = y ∷ ys; bytes = rest },
          y,
        )
  unfolding borrow_leaf_right split_front
  borrow_leaf_right-run c s x y ys v rest hk hb hv =
      let move = λ (b : List ℕ) (o : Option (List ℕ)).
        elim o as (λ _. Option (Page K × Page K × K)) [
          | none ↦ none
          | some v ↦ some (
            record c { keys = c.keys ++ x ∷ []; bytes = c.bytes ++ v },
            record s { keys = y ∷ ys; bytes = drop value_size b },
            y,
          )
        ] in
      ap
        (λ (o : Option (K × List K)). elim o as (λ _. Option (Page K × Page K × K)) [
          | none ↦ none
          | some r ↦ elim (split_front (r.1)) as (λ _. Option (Page K × Page K × K)) [
            | none ↦ none
            | some next ↦ elim (slice s.bytes 0 value_size) as (λ _. Option (Page K × Page K × K)) [
              | none ↦ none
              | some v ↦ some (
                record c { keys = c.keys ++ r.0 ∷ []; bytes = c.bytes ++ v },
                record s { keys = r.1; bytes = drop value_size s.bytes },
                next.0,
              )
            ]
          ]
        ])
        (ap split_front hk)
      ∙ ap (λ b. move b (slice b 0 value_size)) hb
      ∙ ap (move (v ++ rest)) (slice-first value_size v rest hv)
      ∙ ap
          (λ b. some (
            record c { keys = c.keys ++ x ∷ []; bytes = c.bytes ++ v },
            record s { keys = y ∷ ys; bytes = b },
            y,
          ))
          (drop-append_length value_size v rest hv)

  -- What a leaf borrows from the left it can give back to the right, if the sibling has one value
  -- for each key: the two pages are then what they were, and the parent's key is the child's first.
  pub borrow_leaf_right-borrow_leaf_left :
      (s c : Page K) (k j : K) (ks js : List K)
      → s.keys ≡ k ∷ ks
      → c.keys ≡ j ∷ js
      → length s.bytes ≡ length ks * value_size + value_size
      → (s' c' : Page K) × (key' : K) × (borrow_leaf_left value_size s c ≡ some (s', c', key'))
        × (borrow_leaf_right value_size s' c' ≡ some (s, c, j))
  borrow_leaf_right-borrow_leaf_left s c k j ks js hk hc hs =
      let r = pop_last k ks in
      let m = length ks * value_size in
      let value = drop m s.bytes in
      let kept = take (length s.bytes - value_size) s.bytes in
      let s' = record s { keys = r.0; bytes = kept } in
      let c' = record c { keys = r.1 ∷ c.keys; bytes = value ++ c.bytes } in
      let cut : length s.bytes - value_size ≡ m = omega arith in
      (
        s',
        c',
        r.1,
        borrow_leaf_left-run s c k ks hk hs,
        borrow_leaf_right-run s' c' (r.1) j js value c.bytes (ap (λ l. r.1 ∷ l) hc) refl
              (omega (arith, length-drop m s.bytes))
            ∙ ap₂ (λ x y. some (record s { keys = x; bytes = y }, record c { keys = j ∷ js }, j))
                (append-pop_last k ks ∙ sym hk)
                (ap (λ n. take n s.bytes ++ value) cut ∙ take-append-drop m s.bytes)
            ∙ ap (λ x. some (s, record c { keys = x }, j)) (sym hc),
      )
