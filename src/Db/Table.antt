-- ===== src/Db/Table.antt =====
-- Rows selected, changed and deleted by a condition, and ordered by one.
pub mod Page
pub mod Sorted
use diarion_core.Prelude.{
  ℕ, suc, ◌≡◌, refl, ap, Bool, true, false, ◌&&◌, ◌||◌, Option, none, some, List, [], ◌∷◌, ◌++◌,
  arith, if◌then◌else◌, any, All, All-map, Bool-cases, inl, inr, subst,
}

module _ {ℓ} {A : Type ℓ} where
  -- WHERE of a SELECT.
  unfoldable pub select_where : (A → Bool) → List A → List A
  select_where p [] = []
  select_where p (x ∷ xs) = if p x then x ∷ select_where p xs else select_where p xs

  -- The first row, for a statement that reads one.
  unfoldable pub first_where : (A → Bool) → List A → Option A
  first_where p [] = none
  first_where p (x ∷ xs) = if p x then some x else first_where p xs

  unfoldable pub update_where : (A → Bool) → (A → A) → List A → List A
  update_where p f [] = []
  update_where p f (x ∷ xs) = (if p x then f x else x) ∷ update_where p f xs

  unfoldable pub delete_where : (A → Bool) → List A → List A
  delete_where p [] = []
  delete_where p (x ∷ xs) = if p x then delete_where p xs else x ∷ delete_where p xs

  unfoldable pub count_where : (A → Bool) → List A → ℕ
  count_where p [] = 0
  count_where p (x ∷ xs) = if p x then suc (count_where p xs) else count_where p xs

  -- ORDER BY with the rows that compare equal left in the table's order.
  unfoldable pub insert_by : (A → A → Bool) → A → List A → List A
  insert_by before x [] = x ∷ []
  insert_by before x (y ∷ ys) = if before y x then y ∷ insert_by before x ys else x ∷ y ∷ ys

  unfoldable pub order_by : (A → A → Bool) → List A → List A
  unfolding insert_by
  order_by before [] = []
  order_by before (x ∷ xs) = insert_by before x (order_by before xs)

  -- What is left behind a DELETE fails its condition.
  pub delete_where-All : (p : A → Bool) (xs : List A) → All (λ x. p x ≡ false) (delete_where p xs)
  unfolding delete_where
  delete_where-All p [] = tt
  delete_where-All p (x ∷ xs) = ground (arith, delete_where-All p xs)

  pub All-delete_where {κ} :
      (P : A → Type κ) (p : A → Bool) (xs : List A) → All P xs → All P (delete_where p xs)
  unfolding delete_where
  All-delete_where P p [] h = tt
  All-delete_where P p (x ∷ xs) (px, h) = ground (arith, All-delete_where P p xs h)

  pub any-delete_where :
      (p q : A → Bool) (xs : List A) → any p xs ≡ false → any p (delete_where q xs) ≡ false
  unfolding delete_where
  any-delete_where p q [] h = refl
  any-delete_where p q (x ∷ xs) h = ground (arith, any-delete_where p q xs)

  pub first_where-holds :
      (p : A → Bool) (xs : List A) (x : A) → first_where p xs ≡ some x → p x ≡ true
  unfolding first_where
  first_where-holds p [] x h = cc
  first_where-holds p (y ∷ ys) x h = elim (Bool-cases (p y)) [
    | inl e ↦ ground arith
    | inr e ↦ first_where-holds p ys x (ground arith)
  ]

  pub first_where-All {κ} :
      (P : A → Type κ) (p : A → Bool) (xs : List A) (x : A)
      → All P xs
      → first_where p xs ≡ some x
      → P x
  unfolding first_where
  first_where-All P p [] x h e = cc
  first_where-All P p (y ∷ ys) x (py, h) e = elim (Bool-cases (p y)) [
    | inl t ↦ subst P (ground arith) py
    | inr t ↦ first_where-All P p ys x h (ground arith)
  ]

  -- Two deletions in a row are one, by either condition.
  pub delete_where-delete_where :
      (p q : A → Bool) (xs : List A)
      → delete_where q (delete_where p xs) ≡ delete_where (λ x. p x || q x) xs
  unfolding delete_where
  delete_where-delete_where p q [] = refl
  delete_where-delete_where p q (x ∷ xs) = ground (arith, delete_where-delete_where p q xs)

  pub any-eq-false : (p : A → Bool) (xs : List A) → All (λ x. p x ≡ false) xs → any p xs ≡ false
  any-eq-false p [] h = refl
  any-eq-false p (x ∷ xs) (px, h) = ground (arith, any-eq-false p xs h)

  pub All-any : (p : A → Bool) (xs : List A) → any p xs ≡ false → All (λ x. p x ≡ false) xs
  All-any p [] h = tt
  All-any p (x ∷ xs) h = (ground arith, All-any p xs (ground arith))

  pub select_where-append :
      (p : A → Bool) (xs ys : List A)
      → select_where p (xs ++ ys) ≡ select_where p xs ++ select_where p ys
  unfolding select_where
  select_where-append p [] ys = refl
  select_where-append p (x ∷ xs) ys = ground (arith, select_where-append p xs ys)

  -- An UPDATE after which no row meets a condition that it takes in.
  pub select_where-update_where_none :
      (p : A → Bool) (f : A → A) (xs : List A)
      → ((x : A) → p (f x) ≡ false)
      → select_where p (update_where p f xs) ≡ []
  unfolding select_where update_where
  select_where-update_where_none p f [] h = refl
  select_where-update_where_none p f (x ∷ xs) h =
      ground (arith, h x, select_where-update_where_none p f xs h)

  -- An UPDATE of rows that a condition leaves out, before and after.
  pub select_where-update_where_other :
      (p q : A → Bool) (f : A → A) (xs : List A)
      → ((x : A) → q x ≡ true → (p x ≡ false) × (p (f x) ≡ false))
      → select_where p (update_where q f xs) ≡ select_where p xs
  unfolding select_where update_where
  select_where-update_where_other p q f [] h = refl
  select_where-update_where_other p q f (x ∷ xs) h =
      ground (arith, h x, select_where-update_where_other p q f xs h)

  pub select_where-eq-nil :
      (p : A → Bool) (xs : List A) → select_where p xs ≡ [] → All (λ x. p x ≡ false) xs
  unfolding select_where
  select_where-eq-nil p [] h = tt
  select_where-eq-nil p (x ∷ xs) h = elim (Bool-cases (p x)) [
    | inl e ↦ let k = rw e at h in cc
    | inr e ↦ (e, select_where-eq-nil p xs (rw e at h))
  ]

  -- Where a SELECT finds one row, every row that meets its condition is that one.
  pub select_where-eq-one :
      (p : A → Bool) (xs : List A) (k : A)
      → select_where p xs ≡ k ∷ []
      → All (λ x. p x ≡ true → x ≡ k) xs
  unfolding select_where
  select_where-eq-one p [] k h = tt
  select_where-eq-one p (x ∷ xs) k h = elim (Bool-cases (p x)) [
    | inl e ↦
        let m : x ∷ select_where p xs ≡ k ∷ [] = rw e at h in
        (
          λ t. cc,
          All-map {P = λ y. p y ≡ false} {Q = λ y. p y ≡ true → y ≡ k} (λ y f t. cc) xs
              (select_where-eq-nil p xs cc),
        )
    | inr e ↦ (λ t. cc, select_where-eq-one p xs k (rw e at h))
  ]

  -- A row that an UPDATE returns is what it made of an old one.
  pub first_where-update_where :
      (p : A → Bool) (f : A → A) (xs : List A) (y : A)
      → first_where p (update_where p f xs) ≡ some y
      → (x : A) × (y ≡ f x)
  unfolding first_where update_where
  first_where-update_where p f [] y h = cc
  first_where-update_where p f (x ∷ xs) y h = elim (Bool-cases (p x)) [
    | inr e ↦ first_where-update_where p f xs y (rw (e, e) at h)
    | inl e ↦ elim (Bool-cases (p (f x))) [
      | inl g ↦ let k = rw (e, g) at h in (x, cc)
      | inr g ↦ first_where-update_where p f xs y (rw (e, g) at h)
    ]
  ]

  -- The one row that meets a condition stands last.
  pub first_where-last :
      (p : A → Bool) (xs : List A) (y : A)
      → All (λ x. p x ≡ false) xs
      → p y ≡ true
      → first_where p (xs ++ y ∷ []) ≡ some y
  unfolding first_where
  first_where-last p [] y h e = rw e refl
  first_where-last p (x ∷ xs) y (px, h) e = rw px (first_where-last p xs y h e)

  pub first_where-none :
      (p : A → Bool) (xs : List A) → All (λ x. p x ≡ false) xs → first_where p xs ≡ none
  unfolding first_where
  first_where-none p [] h = refl
  first_where-none p (x ∷ xs) (px, h) = rw px (first_where-none p xs h)

  pub update_where-append :
      (p : A → Bool) (f : A → A) (xs ys : List A)
      → update_where p f (xs ++ ys) ≡ update_where p f xs ++ update_where p f ys
  unfolding update_where
  update_where-append p f [] ys = refl
  update_where-append p f (x ∷ xs) ys =
      ap (◌∷◌ (if p x then f x else x)) (update_where-append p f xs ys)

  pub All-update_where {κ} :
      (P : A → Type κ) (p : A → Bool) (f : A → A) (xs : List A)
      → ((x : A) → P x → P (f x))
      → All P xs
      → All P (update_where p f xs)
  unfolding update_where
  All-update_where P p f [] k h = tt
  All-update_where P p f (x ∷ xs) k (px, h) = (
    elim (Bool-cases (p x)) [ inl e ↦ rw e (k x px) | inr e ↦ rw e px ],
    All-update_where P p f xs k h,
  )

  -- What holds of the rows that an UPDATE makes and of those that it passes over.
  pub update_where-All {κ} :
      (P : A → Type κ) (p : A → Bool) (f : A → A) (xs : List A)
      → ((x : A) → p x ≡ true → P (f x))
      → ((x : A) → p x ≡ false → P x)
      → All P (update_where p f xs)
  unfolding update_where
  update_where-All P p f [] k h = tt
  update_where-All P p f (x ∷ xs) k h = (
    elim (Bool-cases (p x)) [ inl e ↦ rw e (k x e) | inr e ↦ rw e (h x e) ],
    update_where-All P p f xs k h,
  )

  -- Two conditions in a row are one.
  pub select_where-select_where :
      (p q : A → Bool) (xs : List A)
      → select_where q (select_where p xs) ≡ select_where (λ x. p x && q x) xs
  unfolding select_where
  select_where-select_where p q [] = refl
  select_where-select_where p q (x ∷ xs) = ground (arith, select_where-select_where p q xs)
