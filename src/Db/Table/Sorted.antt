-- ===== src/Db/Table/Sorted.antt =====
-- ORDER BY over a strict order that tells all rows apart: it sorts, and a condition may be put
-- before or behind it.
use diarion_core.Prelude.{
  ◌≡◌, refl, sym, ap, ◌⊎◌, inl, inr, Bool, true, false, List, [], ◌∷◌, ◌++◌, arith, if◌then◌else◌,
  All, All-map, Bool-cases,
}
use diarion_core.Db.Table.{select_where, insert_by, order_by}

pub record IsStrict {A : Type 0} (before : A → A → Bool) : Type 0 where
  pub trans : (x y z : A) → before x y ≡ true → before y z ≡ true → before x z ≡ true
  pub asym : (x y : A) → before x y ≡ true → before y x ≡ false

module _ {A : Type 0} (before : A → A → Bool) where
  -- Each row stands before all that follow it.
  abbrev pub IsSorted : List A → Type 0
  IsSorted [] = Unit
  IsSorted (x ∷ xs) = All (λ y. before x y ≡ true) xs × IsSorted xs

  abbrev pub Apart : A → A → Type 0
  Apart x y = (before x y ≡ true) ⊎ (before y x ≡ true)

  abbrev pub AllApart : List A → Type 0
  AllApart [] = Unit
  AllApart (x ∷ xs) = All (Apart x) xs × AllApart xs

  insert_by-All :
      (P : A → Type 0) (x : A) (ys : List A) → P x → All P ys → All P (insert_by before x ys)
  unfolding insert_by
  insert_by-All P x [] px h = (px, tt)
  insert_by-All P x (y ∷ ys) px (py, h) = elim (Bool-cases (before y x)) [
    | inl e ↦ rw e (py, insert_by-All P x ys px h)
    | inr e ↦ rw e (px, (py, h))
  ]

  pub order_by-All : (P : A → Type 0) (xs : List A) → All P xs → All P (order_by before xs)
  unfolding order_by
  order_by-All P [] h = tt
  order_by-All P (x ∷ xs) (px, h) = insert_by-All P x _ px (order_by-All P xs h)

  pub select_where-All :
      (P : A → Type 0) (p : A → Bool) (xs : List A) → All P xs → All P (select_where p xs)
  unfolding select_where
  select_where-All P p [] h = tt
  select_where-All P p (x ∷ xs) (px, h) = elim (Bool-cases (p x)) [
    | inl e ↦ rw e (px, select_where-All P p xs h)
    | inr e ↦ rw e (select_where-All P p xs h)
  ]

  pub AllApart-select_where :
      (p : A → Bool) (xs : List A) → AllApart xs → AllApart (select_where p xs)
  unfolding select_where
  AllApart-select_where p [] h = tt
  AllApart-select_where p (x ∷ xs) (a, h) = elim (Bool-cases (p x)) [
    | inl e ↦ rw e (select_where-All (Apart x) p xs a, AllApart-select_where p xs h)
    | inr e ↦ rw e (AllApart-select_where p xs h)
  ]

  before_of_Apart : (x y : A) → before y x ≡ false → Apart x y → before x y ≡ true
  before_of_Apart x y e (inl f) = f
  before_of_Apart x y e (inr f) = cc

  pub select_where-eq_self :
      (p : A → Bool) (xs : List A) → All (λ x. p x ≡ true) xs → select_where p xs ≡ xs
  unfolding select_where
  select_where-eq_self p [] h = refl
  select_where-eq_self p (x ∷ xs) (px, h) = rw px (ap (◌∷◌ x) (select_where-eq_self p xs h))

  pub All-at :
      (P : A → Type 0) (pre : List A) (z : A) (post : List A) → All P (pre ++ z ∷ post) → P z
  All-at P [] z post (pz, h) = pz
  All-at P (x ∷ pre) z post (px, h) = All-at P pre z post h

  module _ (strict : IsStrict before) where
    irrefl : (x : A) → before x x ≡ false
    irrefl x = elim (Bool-cases (before x x)) [ inl t ↦ strict.asym x x t | inr f ↦ f ]

    comes_first :
        (x y : A) (ys : List A)
        → before x y ≡ true
        → All (λ z. before y z ≡ true) ys
        → All (λ z. before x z ≡ true) ys
    comes_first x y ys e h =
        All-map {P = λ z. before y z ≡ true} {Q = λ z. before x z ≡ true}
          (λ z f. strict.trans x y z e f) ys h

    insert_by-IsSorted :
        (x : A) (ys : List A) → All (Apart x) ys → IsSorted ys → IsSorted (insert_by before x ys)
    unfolding insert_by
    insert_by-IsSorted x [] a h = (tt, tt)
    insert_by-IsSorted x (y ∷ ys) (axy, a) (hy, h) = elim (Bool-cases (before y x)) [
      | inl e ↦ rw e (insert_by-All (λ z. before y z ≡ true) x ys e hy, insert_by-IsSorted x ys a h)
      | inr e ↦
          let first : before x y ≡ true = before_of_Apart x y e axy in
          rw e ((first, comes_first x y ys first hy), (hy, h))
    ]

    pub order_by-IsSorted : (xs : List A) → AllApart xs → IsSorted (order_by before xs)
    unfolding order_by
    order_by-IsSorted [] h = tt
    order_by-IsSorted (x ∷ xs) (a, h) =
        insert_by-IsSorted x _ (order_by-All (Apart x) xs a) (order_by-IsSorted xs h)

    insert_by-first :
        (x : A) (ys : List A) → All (λ y. before x y ≡ true) ys → insert_by before x ys ≡ x ∷ ys
    unfolding insert_by
    insert_by-first x [] h = refl
    insert_by-first x (y ∷ ys) (e, h) = rw (strict.asym x y e) refl

    select_where-insert_by :
        (p : A → Bool) (x : A) (ys : List A)
        → All (Apart x) ys
        → IsSorted ys
        → select_where p (insert_by before x ys)
          ≡ (if p x then insert_by before x (select_where p ys) else select_where p ys)
    unfolding insert_by select_where
    select_where-insert_by p x [] a h = refl
    select_where-insert_by p x (y ∷ ys) (axy, a) (hy, h) = elim (Bool-cases (before y x)) [
      | inl e ↦ ground (arith, select_where-insert_by p x ys a h)
      | inr e ↦
          let first : before x y ≡ true = before_of_Apart x y e axy in
          let alone =
            insert_by-first x (select_where p ys)
              (select_where-All (λ z. before x z ≡ true) p ys (comes_first x y ys first hy)) in
          ground (arith, alone)
    ]

    -- The condition may come first.
    pub order_by-select_where :
        (p : A → Bool) (xs : List A)
        → AllApart xs
        → order_by before (select_where p xs) ≡ select_where p (order_by before xs)
    unfolding order_by select_where
    order_by-select_where p [] h = refl
    order_by-select_where p (x ∷ xs) (a, h) =
        let ih = order_by-select_where p xs h in
        let step =
          select_where-insert_by p x (order_by before xs) (order_by-All (Apart x) xs a)
            (order_by-IsSorted xs h) in
        elim (Bool-cases (p x)) [
          | inl e ↦ rw (e, ih) (sym (rw e at step))
          | inr e ↦ rw (e, ih) (sym (rw e at step))
        ]

    -- The rows behind one of them.
    pub select_where-behind :
        (pre : List A) (z : A) (post : List A)
        → IsSorted (pre ++ z ∷ post)
        → select_where (before z) (pre ++ z ∷ post) ≡ post
    unfolding select_where
    select_where-behind [] z post (a, h) =
        let self : before z z ≡ false = irrefl z in rw self (select_where-eq_self (before z) post a)
    select_where-behind (x ∷ pre) z post (a, h) =
        let passed : before z x ≡ false =
          strict.asym x z (All-at (λ y. before x y ≡ true) pre z post a) in
        rw passed (select_where-behind pre z post h)
