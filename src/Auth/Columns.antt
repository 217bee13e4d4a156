-- ===== src/Auth/Columns.antt =====
-- Which columns the updates write.
use sfpg_go.Base.{
  ◌≡◌, ◌⊎◌, inl, inr, refl, sym, ◌∙◌, subst, Bool, true, false, [], Option, none, some, if_split,
}
use sfpg_go.Base.Text.{Str, same}
use sfpg_go.Auth.State.{Db, Env, Result, ok, err, M, tick, then_access_rule, Quiet}
use sfpg_go.Auth.Store.{get_user, update_username, update_password}
use sfpg_go.Auth.Login.{get_user-Reads}
use sfpg_go.Auth.Credentials.{
  Problem, admin, name_or, effective_username, perform, after_username, apply_password, store_hash,
  password_reply,
}

-- The two columns of a state after an update, and which of them may have changed.
abbrev pub Written : Db → Db → Bool → Str → Bool → Option Str → Type 0
Written s t u name p hash =
    ((t.user ≡ s.user) ⊎ ((u ≡ true) × (t.user ≡ some name)))
    × ((t.password ≡ s.password) ⊎ ((p ≡ true) × (t.password ≡ hash)))
    × (t.attempts ≡ s.attempts)

update_username_lem :
    (env : Env) (name : Str) (s : Db)
    → let t = (update_username env name s).1 in
      ((t.user ≡ s.user) ⊎ (t.user ≡ some name))
      × (t.password ≡ s.password)
      × (t.attempts ≡ s.attempts)
unfolding update_username
update_username_lem env name s =
    let Q = λ (r : Result (Unit {0}) × Db).
      ((r.1.user ≡ s.user) ⊎ (r.1.user ≡ some name))
      × (r.1.password ≡ s.password)
      × (r.1.attempts ≡ s.attempts) in
    then_access_rule Q env s _
      (λ e.
        then_access_rule Q env (tick s) _ (λ e'. (inr refl, refl, refl))
          (λ e'. (inl refl, refl, refl)))
      (λ e. (inl refl, refl, refl))

update_password_lem :
    (env : Env) (hash : Str) (s : Db)
    → let t = (update_password env hash s).1 in
      (t.user ≡ s.user)
      × ((t.password ≡ s.password) ⊎ (t.password ≡ some hash))
      × (t.attempts ≡ s.attempts)
unfolding update_password
update_password_lem env hash s =
    let Q = λ (r : Result (Unit {0}) × Db).
      (r.1.user ≡ s.user)
      × ((r.1.password ≡ s.password) ⊎ (r.1.password ≡ some hash))
      × (r.1.attempts ≡ s.attempts) in
    then_access_rule Q env s _
      (λ e.
        then_access_rule Q env (tick s) _ (λ e'. (refl, inr refl, refl))
          (λ e'. (refl, inl refl, refl)))
      (λ e. (refl, inl refl, refl))

password_reply_lem : (u p : Bool) (r : Result (Unit {0})) (s : Db) → (password_reply u p r s).1 ≡ s
password_reply_lem u p (ok x) s = refl
password_reply_lem u p (err e) s = refl

store_hash-Written :
    (env : Env) (u : Bool) (hash : Option Str) (s : Db)
    → let t = (store_hash env u true hash s).1 in
      (t.user ≡ s.user)
      × ((t.password ≡ s.password) ⊎ (t.password ≡ hash))
      × (t.attempts ≡ s.attempts)
unfolding store_hash
store_hash-Written env u none s = (refl, inl refl, refl)
store_hash-Written env u (some hash) s =
    subst
      (λ (t : Db).
        (t.user ≡ s.user)
        × ((t.password ≡ s.password) ⊎ (t.password ≡ some hash))
        × (t.attempts ≡ s.attempts))
      (sym
        (password_reply_lem u true (update_password env hash s).0 (update_password env hash s).1))
      (update_password_lem env hash s)

apply_password-Written :
    (env : Env) (u p : Bool) (new : Str) (s : Db)
    → let t = (apply_password env u p new s).1 in
      (t.user ≡ s.user)
      × ((t.password ≡ s.password) ⊎ ((p ≡ true) × (t.password ≡ env.generate new)))
      × (t.attempts ≡ s.attempts)
unfolding apply_password
apply_password-Written env u true new s =
    let (a, b, c) = store_hash-Written env u (env.generate new) s in
    (a, elim b [ inl x ↦ inl x | inr x ↦ inr (refl, x) ], c)
apply_password-Written env u false new s = (refl, inl refl, refl)

after_username-Written :
    (env : Env) (u p : Bool) (new : Str) (r : Result (Unit {0})) (s : Db)
    → let t = (after_username env u p new r s).1 in
      (t.user ≡ s.user)
      × ((t.password ≡ s.password) ⊎ ((p ≡ true) × (t.password ≡ env.generate new)))
      × (t.attempts ≡ s.attempts)
unfolding after_username
after_username-Written env u p new (ok x) s = apply_password-Written env u p new s
after_username-Written env u p new (err e) s = (refl, inl refl, refl)

pub perform-Written :
    (env : Env) (u p : Bool) (name new : Str) (s : Db)
    → Written s (perform env u p name new none s).1 u name p (env.generate new)
unfolding perform
perform-Written env false p name new s =
    let (a, b, c) = apply_password-Written env false p new s in (inl a, b, c)
perform-Written env true p name new s =
    let (x, y, z) = update_username_lem env name s in
    let r = update_username env name s in
    let (a, b, c) = after_username-Written env true p new r.0 r.1 in
    (
      elim x [ inl h ↦ inl (a ∙ h) | inr h ↦ inr (refl, a ∙ h) ],
      elim b [ inl h ↦ inl (h ∙ y) | inr h ↦ inr h ],
      c ∙ z,
    )

pub perform_refused :
    (env : Env) (u p : Bool) (name new : Str) (x : Problem) (s : Db)
    → (perform env u p name new (some x) s).1 ≡ s
unfolding perform
perform_refused env u p name new x s = refl

pub effective_username_lem :
    (env : Env) (name : Str) (s : Db)
    → (r : Str) × (t : Db) × (effective_username env name s ≡ (ok r, t)) × Quiet s t
unfolding effective_username
effective_username_lem env name s =
    if_split (λ (m : M Str). (r : Str) × (t : Db) × (m s ≡ (ok r, t)) × Quiet s t) (same name [])
      (λ e. (
        name_or name (get_user env admin s).0,
        (get_user env admin s).1,
        refl,
        (get_user-Reads env admin s).0,
      ))
      (λ e. (name, s, refl, refl))
