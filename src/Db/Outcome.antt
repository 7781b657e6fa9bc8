-- ===== src/Db/Outcome.antt =====
-- How a handler of `World` ends: one predicate on what it goes on with, one on what it returns
-- early, and a rule for each kind of step.
use diarion_core.Prelude.{◌≡◌, refl, subst, Bool, true, false, Option, none, some}
use diarion_core.Prelude.Result.{Result, ok, err}
use diarion_core.Db.World.{
  World, Query, DbError, Flow, go, stop, Handler, call, call-goes, require, guard, or_return, ◌>>=◌,
  serve,
}

module _ {X A : Type 0} where
  abbrev pub Outcome : (A → World → Type 0) → (X → World → Type 0) → Flow X A × World → Type 0
  Outcome Q S (go a, w) = Q a w
  Outcome Q S (stop x, w) = S x w

  pub Outcome-map :
      (Q R : A → World → Type 0) (S : X → World → Type 0) (r : Flow X A × World)
      → ((a : A) (w : World) → Q a w → R a w)
      → Outcome Q S r
      → Outcome R S r
  Outcome-map Q R S (go a, w) k o = k a w o
  Outcome-map Q R S (stop x, w) k o = o

  pub or_return_last :
      (Q : A → World → Type 0) (S : X → World → Type 0) (g : DbError → X) (r : Result DbError A)
      (w : World)
      → ((e : DbError) → S (g e) w)
      → ((a : A) → r ≡ ok a → Q a w)
      → Outcome Q S (or_return g r w)
  or_return_last Q S g (ok a) w s k = k a refl
  or_return_last Q S g (err e) w s k = s e

module _ {X A B : Type 0} (R : B → World → Type 0) (S : X → World → Type 0) where
  -- A step that goes on or stops.
  pub bind_step :
      (Q : A → World → Type 0) (m : Handler X A) (f : A → Handler X B) (w : World)
      → Outcome Q S (m w)
      → ((a : A) (w' : World) → Q a w' → Outcome R S (f a w'))
      → Outcome R S ((m >>= f) w)
  bind_step Q m f w o k = from (m w) refl o
    where
      from : (r : Flow X A × World) → m w ≡ r → Outcome Q S r → Outcome R S ((m >>= f) w)
      from (go a, w') e o = rw e (k a w' o)
      from (stop x, w') e o = rw e o

  -- A step that always goes on.
  pub goes_step :
      (m : Handler X A) (f : A → Handler X B) (w : World)
      → (a : A) × (w' : World) × (m w ≡ (go a, w'))
      → ((a : A) (w' : World) → m w ≡ (go a, w') → Outcome R S (f a w'))
      → Outcome R S ((m >>= f) w)
  goes_step m f w (a, w', e) k = rw e (k a w' e)

  pub require_step :
      (o : Option A) (x : X) (f : A → Handler X B) (w : World)
      → S x w
      → ((a : A) → o ≡ some a → Outcome R S (f a w))
      → Outcome R S ((require o x >>= f) w)
  require_step (some a) x f w s k = k a refl
  require_step none x f w s k = s

  pub or_return_step :
      (g : DbError → X) (r : Result DbError A) (f : A → Handler X B) (w : World)
      → ((e : DbError) → S (g e) w)
      → ((a : A) → r ≡ ok a → Outcome R S (f a w))
      → Outcome R S ((or_return g r >>= f) w)
  or_return_step g (ok a) f w s k = k a refl
  or_return_step g (err e) f w s k = s e

  pub call_step :
      (q : Query A) (f : Result DbError A → Handler X B) (w : World)
      → ((r : Result DbError A) (w' : World) → call {X = X} q w ≡ (go r, w') → Outcome R S (f r w'))
      → Outcome R S ((call {X = X} q >>= f) w)
  call_step q f w k = let (r, w', e) = call-goes {X = X} q w in rw e (k r w' e)

module _ {X B : Type 0} (R : B → World → Type 0) (S : X → World → Type 0) where
  pub guard_step :
      (b : Bool) (x : X) (f : Unit {0} → Handler X B) (w : World)
      → S x w
      → (b ≡ true → Outcome R S (f tt w))
      → Outcome R S ((guard b x >>= f) w)
  guard_step true x f w s k = k refl
  guard_step false x f w s k = s

module _ {X A : Type 0} where
  -- A statement at the end.
  pub call_last :
      (Q : Result DbError A → World → Type 0) (S : X → World → Type 0) (q : Query A) (w : World)
      → ((r : Result DbError A) (w' : World) → call {X = X} q w ≡ (go r, w') → Q r w')
      → Outcome Q S (call {X = X} q w)
  call_last Q S q w k = let (r, w', e) = call-goes {X = X} q w in rw e (k r w' e)

module _ {R : Type 0} (Q : R → World → Type 0) where
  -- The reply of a handler, whether it returned early or not.
  pub Outcome-serve :
      (r : Flow R R × World) {reply : R} {w' : World}
      → Outcome Q Q r
      → serve r ≡ (reply, w')
      → Q reply w'
  Outcome-serve (go a, w) o h = subst (λ p. Q p.0 p.1) h o
  Outcome-serve (stop x, w) o h = subst (λ p. Q p.0 p.1) h o
