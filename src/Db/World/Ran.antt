-- ===== src/Db/World/Ran.antt =====
-- One statement of a request: that it was run in one world and led to another, and the tables that
-- it ran on.
use diarion_core.Prelude.{◌≡◌, [], ◌∙◌}
use diarion_core.Prelude.Result.{Result, ok}
use diarion_core.Db.World.{
  World, Query, DbError, Nothing, go, call, call-seen, call-alone, call-any, seen,
}

-- The statement, run in `w`, gives `r` and leaves `w'`.
abbrev pub Runs : {A : Type 0} → Query A → World → Result DbError A → World → Type 0
Runs q w r w' = call {X = Nothing} q w ≡ (go r, w')

-- The statement, run in `w`, gives `a` and leaves `w'`.
pub record Ran {A : Type 0} (q : Query A) (w : World) (a : A) (w' : World) : Type 0 where
  pub runs : Runs q w (ok a) w'
  pub ran : q w'.now (seen w) ≡ (ok a, w'.db)
  pub alone :
      w.schedule ≡ [] → (q w.now w.db ≡ (ok a, w'.db)) × (w'.now ≡ w.now) × (w'.schedule ≡ [])

module _ {X A : Type 0} (q : Query A) (w : World) {w' : World} where
  pub call-Runs : {r : Result DbError A} → call {X = X} q w ≡ (go r, w') → Runs q w r w'
  call-Runs h = call-any X Nothing q w h

  pub call-Ran : {a : A} → call {X = X} q w ≡ (go (ok a), w') → Ran q w a w'
  call-Ran h = record {
    runs = call-any X Nothing q w h;
    ran = call-seen q w h;
    alone = λ s. let (r, n, t) = call-alone q w s h in (r, n, t ∙ s);
  }
