-- ===== src/Db/World.antt =====
-- How a request meets the database: one statement after another, each in a transaction of its
-- own, with the clock and the other requests moving on in between.
pub mod Ran
use diarion_core.Prelude.{
  List, [], ◌∷◌, ℕ, ◌+◌, ◌≡◌, refl, Bool, true, false, Option, none, some, String, if◌then◌else◌,
  Bool-cases, inl, inr,
}
use diarion_core.Prelude.Result.{Result, ok, err, or_err}
use diarion_core.Db.Models.{Db, Time}

-- The unique constraints and indexes of the schema, by what they cover.
pub data Constraint : Type 0 where
  users_google_sub users_email session_token_key handle_lower key_public_key : Constraint
  key_fingerprint slug_per_agent pat_token_hash : Constraint

-- What a statement can return as its error: pgx.ErrNoRows, a PgError, or any other failure.
pub data DbError : Type 0 where
  no_rows fk_violation check_violation connection : DbError
  unique_violation : Constraint → DbError

-- A statement reads NOW() and the tables.
abbrev pub Query : Type 0 → Type 0
Query A = Time → Db → Result DbError A × Db

-- What happens between two statements of a request: time passes, other requests change the
-- tables, and the connection may fail the statement that comes next.
pub record Tick : Type 0 where
  pub delay : ℕ
  pub others : Db → Db
  pub fails : Bool

-- When `schedule` is used up, statements follow one another at once and succeed.
pub record World : Type 0 where
  pub db : Db
  pub now : Time
  pub schedule : List Tick

-- http.Error with its status and text, an answer without a body, or JSON.
pub data Reply (R : Type 0) : Type 0 where
  http_error : ℕ → String → Reply R
  no_body : ℕ → Reply R
  json : ℕ → R → Reply R

-- The JSON of a handler that never writes any.
pub data Nothing : Type 0 where

-- A function goes on with a value, or has returned early: an HTTP handler with its reply, another
-- function with its error.
pub data Flow (X A : Type 0) : Type 0 where
  go : A → Flow X A
  stop : X → Flow X A

abbrev pub Handler : Type 0 → Type 0 → Type 0
Handler X A = World → Flow X A × World

abbrev seen_at : List Tick → Db → Db
seen_at [] db = db
seen_at (t ∷ ts) db = t.others db

-- The tables that the next statement runs on.
unfoldable pub seen : World → Db
seen w = seen_at w.schedule w.db

module _ {X A : Type 0} where
  abbrev pub pure : A → Handler X A
  pure a w = (go a, w)

  abbrev pub return : X → Handler X A
  return x w = (stop x, w)

  abbrev finish : World → Result DbError A × Db → Flow X (Result DbError A) × World
  finish w (r, db') = (go r, record w { db = db' })

  -- One statement, with what the schedule puts in front of it.
  call_at : List Tick → Query A → Handler X (Result DbError A)
  call_at [] q w = finish w (q w.now w.db)
  call_at (t ∷ ts) q w =
      let before : World = record { db = t.others w.db; now = w.now + t.delay; schedule = ts } in
      if t.fails then (go (err connection), before) else finish before (q before.now before.db)

  unfoldable pub call : Query A → Handler X (Result DbError A)
  unfolding call_at
  call q w = call_at w.schedule q w

  call_at-goes :
      (ts : List Tick) (q : Query A) (w : World)
      → (r : Result DbError A) × (w' : World) × (call_at ts q w ≡ (go r, w'))
  unfolding call_at
  call_at-goes [] q w = (_, _, refl)
  call_at-goes (t ∷ ts) q w = elim (Bool-cases t.fails) [
    | inl f ↦ rw f (_, _, refl)
    | inr f ↦ rw f (_, _, refl)
  ]

  -- A statement does not end its handler.
  pub call-goes :
      (q : Query A) (w : World) → (r : Result DbError A) × (w' : World) × (call q w ≡ (go r, w'))
  unfolding call
  call-goes q w = call_at-goes w.schedule q w

  finish-eq-ok :
      (w : World) (r : Result DbError A × Db) {a : A} {w' : World}
      → finish w r ≡ (go (ok a), w')
      → (r ≡ (ok a, w'.db)) × (w'.now ≡ w.now)
  finish-eq-ok w (ok b, db) h = (cc, cc)
  finish-eq-ok w (err e, db) h = cc

  call_at-eq-ok :
      (ts : List Tick) (q : Query A) (w : World) {a : A} {w' : World}
      → call_at ts q w ≡ (go (ok a), w')
      → (db : Db) × (q w'.now db ≡ (ok a, w'.db))
  unfolding call_at
  call_at-eq-ok [] q w h = let (e, n) = finish-eq-ok w (q w.now w.db) h in (w.db, rw n e)
  call_at-eq-ok (t ∷ ts) q w h = elim (Bool-cases t.fails) [
    | inl f ↦ let k = rw f at h in cc
    | inr f ↦
        let before : World = record { db = t.others w.db; now = w.now + t.delay; schedule = ts } in
        let (e, n) = finish-eq-ok before (q before.now before.db) (rw f at h) in
        (t.others w.db, rw n e)
  ]

  call_at-seen :
      (ts : List Tick) (q : Query A) (w : World) {a : A} {w' : World}
      → call_at ts q w ≡ (go (ok a), w')
      → q w'.now (seen_at ts w.db) ≡ (ok a, w'.db)
  unfolding call_at
  call_at-seen [] q w h = let (e, n) = finish-eq-ok w (q w.now w.db) h in rw n e
  call_at-seen (t ∷ ts) q w h = elim (Bool-cases t.fails) [
    | inl f ↦ let k = rw f at h in cc
    | inr f ↦
        let before : World = record { db = t.others w.db; now = w.now + t.delay; schedule = ts } in
        let (e, n) = finish-eq-ok before (q before.now before.db) (rw f at h) in rw n e
  ]

  -- A statement that gave a value ran on the tables that it saw, and what it left is there now.
  pub call-seen :
      (q : Query A) (w : World) {a : A} {w' : World}
      → call q w ≡ (go (ok a), w')
      → q w'.now (seen w) ≡ (ok a, w'.db)
  unfolding call seen
  call-seen q w h = call_at-seen w.schedule q w h

  -- A statement that gave a value ran on some tables, and what it left is there now.
  pub call-eq-ok :
      (q : Query A) (w : World) {a : A} {w' : World}
      → call q w ≡ (go (ok a), w')
      → (db : Db) × (q w'.now db ≡ (ok a, w'.db))
  unfolding call
  call-eq-ok q w h = call_at-eq-ok w.schedule q w h

  finish_lem :
      (w : World) (s : Result DbError A × Db) {r : Result DbError A} {w' : World}
      → finish w s ≡ (go r, w')
      → (s ≡ (r, w'.db)) × (w'.now ≡ w.now) × (w'.schedule ≡ w.schedule)
  finish_lem w (s, db) h = (cc, cc, cc)

  call_at-alone :
      (ts : List Tick) (q : Query A) (w : World) {r : Result DbError A} {w' : World}
      → ts ≡ []
      → call_at ts q w ≡ (go r, w')
      → (q w.now w.db ≡ (r, w'.db)) × (w'.now ≡ w.now) × (w'.schedule ≡ w.schedule)
  unfolding call_at
  call_at-alone [] q w e h = finish_lem w (q w.now w.db) h
  call_at-alone (t ∷ ts) q w e h = cc

  -- With nobody else active a statement runs on the tables as they are.
  pub call-alone :
      (q : Query A) (w : World) {r : Result DbError A} {w' : World}
      → w.schedule ≡ []
      → call q w ≡ (go r, w')
      → (q w.now w.db ≡ (r, w'.db)) × (w'.now ≡ w.now) × (w'.schedule ≡ w.schedule)
  unfolding call
  call-alone q w alone h = call_at-alone w.schedule q w alone h

  call_at-runs :
      (ts : List Tick) (q : Query A) (w : World) (r : Result DbError A) (db' : Db)
      → ts ≡ []
      → q w.now w.db ≡ (r, db')
      → call_at ts q w ≡ (go r, record w { db = db' })
  unfolding call_at
  call_at-runs [] q w r db' e h = rw h refl
  call_at-runs (t ∷ ts) q w r db' e h = cc

  pub call-runs :
      (q : Query A) (w : World) (r : Result DbError A) (db' : Db)
      → w.schedule ≡ []
      → q w.now w.db ≡ (r, db')
      → call q w ≡ (go r, record w { db = db' })
  unfolding call
  call-runs q w r db' alone h = call_at-runs w.schedule q w r db' alone h

  abbrev pub require : Option A → X → Handler X A
  require (some a) x w = (go a, w)
  require none x w = (stop x, w)

  -- Passes a value on, and returns early with what the error is turned into.
  abbrev pub or_return : (DbError → X) → Result DbError A → Handler X A
  or_return f (ok a) w = (go a, w)
  or_return f (err e) w = (stop (f e), w)

module _ (X Y : Type 0) {A : Type 0} where
  call_at-any :
      (ts : List Tick) (q : Query A) (w : World) {r : Result DbError A} {w' : World}
      → call_at {X = X} ts q w ≡ (go r, w')
      → call_at {X = Y} ts q w ≡ (go r, w')
  unfolding call_at
  call_at-any [] q w h = cc
  call_at-any (t ∷ ts) q w h = elim (Bool-cases t.fails) [
    | inl f ↦ let k = rw f at h in rw f cc
    | inr f ↦ let k = rw f at h in rw f cc
  ]

  -- A statement does the same in every handler.
  pub call-any :
      (q : Query A) (w : World) {r : Result DbError A} {w' : World}
      → call {X = X} q w ≡ (go r, w')
      → call {X = Y} q w ≡ (go r, w')
  unfolding call
  call-any q w h = call_at-any w.schedule q w h

-- time.Now of the process.
abbrev pub clock : {X : Type 0} → Handler X Time
clock w = (go w.now, w)

-- Nobody else is active and no time passes.
abbrev pub quiet : Time → Db → World
quiet now db = record { db = db; now = now; schedule = [] }

module _ {X : Type 0} where
  abbrev pub guard : Bool → X → Handler X (Unit {0})
  guard true x w = (go tt, w)
  guard false x w = (stop x, w)

module _ {X A B : Type 0} where
  abbrev continue : Flow X A × World → (A → Handler X B) → Flow X B × World
  continue (go a, w) f = f a w
  continue (stop x, w) f = (stop x, w)

  infixl 5 ◌>>=◌ ◌>>◌
  abbrev pub ◌>>=◌ : Handler X A → (A → Handler X B) → Handler X B
  ◌>>=◌ m f w = continue (m w) f

  abbrev pub ◌>>◌ : Handler X A → Handler X B → Handler X B
  m >> k = m >>= λ _. k

  continue-eq-go :
      (r : Flow X A × World) (f : A → Handler X B) {b : B} {w' : World}
      → continue r f ≡ (go b, w')
      → (a : A) × (w1 : World) × (r ≡ (go a, w1)) × (f a w1 ≡ (go b, w'))
  continue-eq-go (go a, w) f h = (a, w, refl, h)
  continue-eq-go (stop x, w) f h = cc

  -- What a function that went on went through.
  pub bind-eq-go :
      (m : Handler X A) (f : A → Handler X B) (w : World) {b : B} {w' : World}
      → (m >>= f) w ≡ (go b, w')
      → (a : A) × (w1 : World) × (m w ≡ (go a, w1)) × (f a w1 ≡ (go b, w'))
  bind-eq-go m f w h = continue-eq-go (m w) f h

-- The reply of a handler, whether it returned early or went through.
abbrev pub serve : {R : Type 0} → Flow R R × World → R × World
serve (go r, w) = (r, w)
serve (stop r, w) = (r, w)

module _ {A B : Type 0} where
  abbrev after : Result DbError A × Db → (A → Query B) → Time → Result DbError B × Db
  after (ok a, db) f now = f a now db
  after (err e, db) f now = (err e, db)

  -- A statement behind another in one transaction.
  abbrev pub then_query : Query A → (A → Query B) → Query B
  then_query q f now db = after (q now db) f now

module _ {A : Type 0} where
  abbrev commit : Db → Result DbError A × Db → Result DbError A × Db
  commit db (ok a, db') = (ok a, db')
  commit db (err e, db') = (err e, db)

  -- Begin, the statements, Commit, and Rollback where one of them fails. NOW() is the same for all.
  abbrev pub transaction : Query A → Query A
  transaction q now db = commit db (q now db)

  -- A statement that only reads one row, and the row it found.
  pub read-eq-ok :
      (o : Option A) (db : Db) {a : A} {db' : Db}
      → ◌≡◌ {A = Result DbError A × Db} (or_err o no_rows, db) (ok a, db')
      → (o ≡ some a) × (db ≡ db')
  read-eq-ok none db h = cc
  read-eq-ok (some b) db h = (cc, cc)
