-- ===== src/Db/Tokens/Inserted.antt =====
-- A new access token, and how it is found by its hash, before and after it is revoked.
use diarion_core.Prelude.{
  ◌≡◌, refl, sym, ap, Bool, true, false, not, ◌&&◌, none, some, List, [], ◌∷◌, ◌++◌, ◌==◌, ==_refl,
  any, All, All-map, All-append, Bytes, bytes_eq, bytes_eq_refl, Bool-cases, inl, inr,
}
use diarion_core.Prelude.Result.{ok, err}
use diarion_core.Db.Models.{Db, Time, PersonalAccessToken}
use diarion_core.Db.Table.{
  update_where, All-any, first_where-last, first_where-none, All-update_where, update_where-append,
}
use diarion_core.Db.Agents.{is_some}
use diarion_core.Db.World.{no_rows}
use diarion_core.Db.Tokens.{InsertPatParams, insert_pat, not_over, get_pat_by_hash, revoke_pat}

pub record Inserted (arg : InsertPatParams) (db : Db) (row : PersonalAccessToken) (db' : Db)
    : Type 0 where
  pub appended : db'.tokens ≡ db.tokens ++ row ∷ []
  pub users_same : db'.users ≡ db.users
  pub of_user : row.user_id ≡ arg.user_id
  pub hash : row.token_hash ≡ arg.token_hash
  pub expires : row.expires_at ≡ arg.expires_at
  pub fresh : row.revoked_at ≡ none
  pub new_hash : All (λ t. bytes_eq t.token_hash arg.token_hash ≡ false) db.tokens

pub insert_pat-Inserted :
    (arg : InsertPatParams) (now : Time) (db : Db) {row : PersonalAccessToken} {db' : Db}
    → insert_pat arg now db ≡ (ok row, db')
    → Inserted arg db row db'
unfolding insert_pat
insert_pat-Inserted arg now db h =
    elim (Bool-cases (any (λ t. bytes_eq t.token_hash arg.token_hash) db.tokens)) [
      | inl t ↦ let k = rw t at h in cc
      | inr t ↦ elim (Bool-cases (any (λ u. u.id == arg.user_id) db.users)) [
        | inr u ↦ let k = rw (t, u) at h in cc
        | inl u ↦
            let k = rw (t, u) at h in
            record {
              appended = cc;
              users_same = cc;
              of_user = cc;
              hash = cc;
              expires = cc;
              fresh = cc;
              new_hash = All-any _ db.tokens t;
            }
      ]
    ]

-- The condition of the SELECT by hash.
abbrev pub valid : Time → Bytes → PersonalAccessToken → Bool
valid now hash t =
    bytes_eq t.token_hash hash && not (is_some t.revoked_at) && not_over now t.expires_at

others_invalid :
    (now : Time) (hash : Bytes) (ts : List PersonalAccessToken)
    → All (λ t. bytes_eq t.token_hash hash ≡ false) ts
    → All (λ t. valid now hash t ≡ false) ts
others_invalid now hash ts h =
    All-map {P = λ t. bytes_eq t.token_hash hash ≡ false} {Q = λ t. valid now hash t ≡ false}
      (λ t e. rw e refl) ts h

module _ {arg : InsertPatParams} {db : Db} {row : PersonalAccessToken} {db' : Db}
    (i : Inserted arg db row db') where
  pub Inserted-found :
      (later : Time) (db2 : Db)
      → db2.tokens ≡ db'.tokens
      → not_over later arg.expires_at ≡ true
      → get_pat_by_hash arg.token_hash later db2 ≡ (ok row, db2)
  unfolding get_pat_by_hash
  Inserted-found later db2 same live =
      let mine : valid later arg.token_hash row ≡ true =
        rw (i.hash, i.fresh, i.expires, live, bytes_eq_refl arg.token_hash) refl in
      rw
        (
          same,
          i.appended,
          first_where-last (valid later arg.token_hash) db.tokens row
              (others_invalid later arg.token_hash db.tokens i.new_hash) mine,
        )
        refl

  -- Its user revokes it.
  pub Inserted-revoked :
      (later : Time) (db2 db3 : Db) {u : Unit {0}} (even_later : Time) (db4 : Db)
      → db2.tokens ≡ db'.tokens
      → revoke_pat row.id arg.user_id later db2 ≡ (ok u, db3)
      → db4.tokens ≡ db3.tokens
      → get_pat_by_hash arg.token_hash even_later db4 ≡ (err no_rows, db4)
  unfolding get_pat_by_hash revoke_pat update_where
  Inserted-revoked later db2 db3 even_later db4 same revoked same' =
      let own : PersonalAccessToken → Bool = λ t. t.id == row.id && t.user_id == arg.user_id in
      let dead : PersonalAccessToken → PersonalAccessToken =
        λ t. record t { revoked_at = some later } in
      let left : db3.tokens ≡ update_where own dead db2.tokens =
        ap (λ p. p.1.tokens) (sym revoked) in
      let old : All (λ t. bytes_eq t.token_hash arg.token_hash ≡ false)
          (update_where own dead db.tokens) =
        All-update_where _ own dead db.tokens (λ t e. e) i.new_hash in
      let hit : own row ≡ true = rw (i.of_user, ==_refl row.id, ==_refl arg.user_id) refl in
      let none_left : All (λ t. valid even_later arg.token_hash t ≡ false)
          (update_where own dead db.tokens ++ dead row ∷ []) =
        All-append _ _ (dead row ∷ []) (others_invalid even_later arg.token_hash _ old)
          (rw (i.hash, bytes_eq_refl arg.token_hash) refl, tt) in
      rw
        (
          same',
          left,
          same,
          i.appended,
          update_where-append own dead db.tokens (row ∷ []),
          hit,
          first_where-none _ _ none_left,
        )
        refl
