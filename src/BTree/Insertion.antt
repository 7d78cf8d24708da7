-- ===== src/BTree/Insertion.antt =====
-- insertNonFull of src/Btree.cpp at a leaf: where the new entry goes.
use mathlib.Core.Path.{ap₂}
use mathlib.Core.List.{append-nil, append_assoc, map-append}
use custom_database.Base.{
  ℕ, zero, suc, ◌≡◌, refl, sym, ap, ◌∙◌, subst, inl, inr, Bool, true, false, List, [], ◌∷◌, ◌++◌,
  Option, none, some, arith, length, All-append, All-split, last-cases, Bool-cases, if◌then◌else◌,
}
use custom_database.Page.{KeyType, Page}
use custom_database.BTree.Nodes.{swap_entries, sift, insert_leaf}
use custom_database.BTree.Leaf.{
  keys_of, bytes_of, Sized, Place, bytes_of-append, length-keys_of, less_at-last, swap_entries-last,
}

module _ {K : Type 0} (κ : KeyType K) (value_size : ℕ) where
  -- What the sort does to the entry `e` behind `xs`, with `gs` behind it.
  record Sifted (j : ℕ) (xs : List (K × List ℕ)) (e : K × List ℕ) (gs : List (K × List ℕ))
      : Type 0 where
    place : Place κ value_size xs e
    sift_is :
        sift κ value_size j (keys_of (xs ++ e ∷ gs)) (bytes_of (xs ++ e ∷ gs))
        ≡ some (
          keys_of (place.before ++ e ∷ (place.after ++ gs)),
          bytes_of (place.before ++ e ∷ (place.after ++ gs)),
        )

  -- One round of the sort, by what the comparison gives.
  round : Bool → ℕ → List (K × List ℕ) → Option (List K × List ℕ)
  round smaller j es =
      if smaller
      then elim (swap_entries κ value_size (suc j) j (keys_of es) (bytes_of es)) [
        | none ↦ none
        | some r ↦ sift κ value_size j r.0 r.1
      ]
      else some (keys_of es, bytes_of es)

  sift-round :
      (j : ℕ) (ys : List (K × List ℕ)) (x e : K × List ℕ) (gs : List (K × List ℕ))
      → length ys ≡ j
      → sift κ value_size
          (suc j)
          (keys_of ((ys ++ x ∷ []) ++ e ∷ gs))
          (bytes_of ((ys ++ x ∷ []) ++ e ∷ gs))
        ≡ round (κ.less (e.0) (x.0)) j (ys ++ x ∷ e ∷ gs)
  unfolding sift round
  sift-round j ys x e gs h =
      let es = ys ++ x ∷ e ∷ gs in
      ap (λ l. sift κ value_size (suc j) (keys_of l) (bytes_of l))
        (append_assoc ys (x ∷ []) (e ∷ gs))
      ∙ ap
          (λ o. elim o as (λ _. Option (List K × List ℕ)) [
            | none ↦ none
            | some smaller ↦ round smaller j es
          ])
          (less_at-last κ value_size ys x e gs j h)

  -- The entry before is greater, and the sort goes on below it.
  sift-over :
      (j : ℕ) (ys : List (K × List ℕ)) (x e : K × List ℕ) (gs : List (K × List ℕ))
      → length ys ≡ j
      → Sized value_size ys
      → length (x.1) ≡ value_size
      → length (e.1) ≡ value_size
      → κ.less (e.0) (x.0) ≡ true
      → Sifted j ys e (x ∷ gs)
      → Sifted (suc j) (ys ++ x ∷ []) e gs
  unfolding round
  sift-over j ys x e gs h sized hx he smaller r =
      let p = r.place in
      record {
        place = record {
          before = p.before;
          after = p.after ++ x ∷ [];
          split = ap (λ l. l ++ x ∷ []) p.split ∙ append_assoc p.before p.after (x ∷ []);
          greater = All-append _ p.after (x ∷ []) p.greater (smaller, tt);
          stops = p.stops;
        };
        sift_is =
            sift-round j ys x e gs h
            ∙ ap (λ b. round b j (ys ++ x ∷ e ∷ gs)) smaller
            ∙ ap
                (λ o. elim o as (λ _. Option (List K × List ℕ)) [
                  | none ↦ none
                  | some r ↦ sift κ value_size j r.0 r.1
                ])
                (swap_entries-last κ value_size ys x e gs j h sized hx he)
            ∙ r.sift_is
            ∙ ap (λ t. some (keys_of (p.before ++ e ∷ t), bytes_of (p.before ++ e ∷ t)))
                (sym (append_assoc p.after (x ∷ []) gs));
      }

  -- The entry before is not greater, and the sort ends.
  sift-stop :
      (j : ℕ) (ys : List (K × List ℕ)) (x e : K × List ℕ) (gs : List (K × List ℕ))
      → length ys ≡ j
      → κ.less (e.0) (x.0) ≡ false
      → Sifted (suc j) (ys ++ x ∷ []) e gs
  unfolding round
  sift-stop j ys x e gs h smaller = record {
    place = record {
      before = ys ++ x ∷ [];
      after = [];
      split = sym (append-nil (ys ++ x ∷ []));
      greater = tt;
      stops = inr (ys, x, refl, smaller);
    };
    sift_is =
        sift-round j ys x e gs h
        ∙ ap (λ b. round b j (ys ++ x ∷ e ∷ gs)) smaller
        ∙ ap (λ l. some (keys_of l, bytes_of l)) (sym (append_assoc ys (x ∷ []) (e ∷ gs)));
  }

  sift-Sifted :
      (j : ℕ) (xs : List (K × List ℕ)) (e : K × List ℕ) (gs : List (K × List ℕ))
      → length xs ≡ j
      → Sized value_size xs
      → length (e.1) ≡ value_size
      → Sifted j xs e gs
  unfolding sift
  sift-Sifted zero [] e gs h sized he = record {
    place = record { before = []; after = []; split = refl; greater = tt; stops = inl refl };
    sift_is = refl;
  }
  sift-Sifted zero (x ∷ xs) e gs h sized he = absurd (omega arith)
  sift-Sifted (suc j) xs e gs h sized he =
      let (ys, x, eq, l) = last-cases j xs h in
      let (sized', hx) = All-split _ ys (x ∷ []) (subst (Sized value_size) eq sized) in
      subst (λ l. Sifted (suc j) l e gs) (sym eq)
        (elim (Bool-cases (κ.less (e.0) (x.0))) [
          | inl smaller ↦
              sift-over j ys x e gs l sized' hx.0 he smaller
                (sift-Sifted j ys e (x ∷ gs) l sized' he)
          | inr smaller ↦ sift-stop j ys x e gs l smaller
        ])

  insert_leaf-Sifted :
      (p : Page K) (es : List (K × List ℕ)) (key : K) (value : List ℕ)
      → p.keys ≡ keys_of es
      → p.bytes ≡ bytes_of es
      → (r : Sifted (length p.keys) es (key, value) [])
      → insert_leaf κ value_size p key value
        ≡ some (record p {
          keys = keys_of (r.place.before ++ (key, value) ∷ r.place.after);
          bytes = bytes_of (r.place.before ++ (key, value) ∷ r.place.after);
        })
  unfolding insert_leaf
  insert_leaf-Sifted p es key value hk hb r =
      let e : K × List ℕ = (key, value) in
      let keys_are : p.keys ++ key ∷ [] ≡ keys_of (es ++ e ∷ []) =
        ap (λ l. l ++ key ∷ []) hk ∙ sym (map-append (λ (x : K × List ℕ). x.0) es (e ∷ [])) in
      let bytes_are : p.bytes ++ value ≡ bytes_of (es ++ e ∷ []) =
        ap (λ l. l ++ value) hb
        ∙ ap (λ l. bytes_of es ++ l) (sym (append-nil value))
        ∙ sym (bytes_of-append es (e ∷ [])) in
      let put = λ (o : Option (List K × List ℕ)). elim o as (λ _. Option (Page K)) [
        | none ↦ none
        | some q ↦ some (record p { keys = q.0; bytes = q.1 })
      ] in
      ap put (
        ap₂ (sift κ value_size (length p.keys)) keys_are bytes_are
        ∙ r.sift_is
        ∙ ap (λ t. some (keys_of (r.place.before ++ e ∷ t), bytes_of (r.place.before ++ e ∷ t)))
            (append-nil r.place.after))

  -- The modified copy that insertNonFull makes of a leaf, whose vectors hold entries with values of
  -- the right size: the new entry is in its place, with greater keys behind it and none right before
  -- it, and all the other entries keep their order and their values.
  pub insert_leaf-Place :
      (p : Page K) (es : List (K × List ℕ)) (key : K) (value : List ℕ)
      → p.keys ≡ keys_of es
      → p.bytes ≡ bytes_of es
      → Sized value_size es
      → length value ≡ value_size
      → (place : Place κ value_size es (key, value)) × (insert_leaf κ value_size p key value
          ≡ some (record p {
            keys = keys_of (place.before ++ (key, value) ∷ place.after);
            bytes = bytes_of (place.before ++ (key, value) ∷ place.after);
          }))
  insert_leaf-Place p es key value hk hb sized hv =
      let r =
        sift-Sifted (length p.keys) es (key, value) []
          (omega (arith, ap length hk, length-keys_of es)) sized hv in
      (r.place, insert_leaf-Sifted p es key value hk hb r)
