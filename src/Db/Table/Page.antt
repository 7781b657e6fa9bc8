-- ===== src/Db/Table/Page.antt =====
-- `LIMIT` and `OFFSET`: what holds of the rows of a page.
use diarion_core.Prelude.{
  ℕ, zero, suc, ◌≤◌, ◌≡◌, Bool, true, List, [], ◌∷◌, arith, length, take, drop, All, Bool-cases,
  inl, inr,
}
use diarion_core.Db.Table.{select_where, order_by}
use diarion_core.Db.Table.Sorted.{order_by-All}

module _ {A : Type 0} where
  All-take : (P : A → Type 0) (n : ℕ) (xs : List A) → All P xs → All P (take n xs)
  All-take P zero xs h = tt
  All-take P (suc n) [] h = tt
  All-take P (suc n) (x ∷ xs) (px, h) = (px, All-take P n xs h)

  All-drop : (P : A → Type 0) (n : ℕ) (xs : List A) → All P xs → All P (drop n xs)
  All-drop P zero xs h = h
  All-drop P (suc n) [] h = tt
  All-drop P (suc n) (x ∷ xs) (px, h) = All-drop P n xs h

  pub take-len : (n : ℕ) (xs : List A) → length (take n xs) ≤ n
  take-len zero xs = omega arith
  take-len (suc n) [] = omega arith
  take-len (suc n) (x ∷ xs) = omega (arith, take-len n xs)

  pub select_where-holds : (p : A → Bool) (xs : List A) → All (λ x. p x ≡ true) (select_where p xs)
  unfolding select_where
  select_where-holds p [] = tt
  select_where-holds p (x ∷ xs) = elim (Bool-cases (p x)) [
    | inl e ↦ rw e (e, select_where-holds p xs)
    | inr e ↦ rw e (select_where-holds p xs)
  ]

  -- What holds of the rows selected holds of those on a page.
  pub page-holds :
      (before : A → A → Bool) (p : A → Bool) (limit offset : ℕ) (xs : List A)
      → All (λ x. p x ≡ true) (take limit (drop offset (order_by before (select_where p xs))))
  page-holds before p limit offset xs =
      let P = λ (x : A). p x ≡ true in
      All-take P limit _
        (All-drop P offset _ (order_by-All before P (select_where p xs) (select_where-holds p xs)))
