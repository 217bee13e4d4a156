-- ===== src/Auth/Update.antt =====
-- What an update of the credentials needs.
use sfpg_go.Base.{
  ◌≡◌, ◌⊎◌, inl, inr, sym, ap, ◌∙◌, subst, Bool, true, ◌&&◌, ◌||◌, [], none, some, if◌then◌else◌,
  if_split, not, Option-cases,
}
use sfpg_go.Base.Text.{Str, same, trim_space}
use sfpg_go.Auth.Validation.{valid, validate_username, validate_password}
use sfpg_go.Auth.State.{Db, Env, Result, M, bound, ◌>>=◌, return, attempt, Quiet, Quiet-trans}
use sfpg_go.Auth.Store.{User, get_user}
use sfpg_go.Auth.Login.{get_user-Reads}
use sfpg_go.Auth.Credentials.{
  CredentialUpdateOptions, Reply, verified, username_problem, password_problem, reply, perform,
  update_credentials, current_required,
}
use sfpg_go.Auth.Checks.{verified-none, username_problem-none, password_problem-none}
use sfpg_go.Auth.Columns.{perform-Written, perform_refused, effective_username_lem}

-- The request, as `UpdateCredentials` reads it.
abbrev pub IsAuthorised : Env → CredentialUpdateOptions → Db → User → Type 0
IsAuthorised env o s u =
    (s.user ≡ some u.username)
    × (s.password ≡ some u.password)
    × (env.verify u.password (trim_space o.current_password) ≡ true)

-- An update leaves both columns, or the current password was verified against the stored hash, and
-- each column that changed has a new value that passed its validation.
abbrev pub Outcome : Env → CredentialUpdateOptions → Db → Db → Type 0
Outcome env o s t =
    ((t.user ≡ s.user) × (t.password ≡ s.password) × (t.attempts ≡ s.attempts))
    ⊎ ((user : User) × IsAuthorised env o s user
        × ((t.user ≡ s.user)
            ⊎ ((t.user ≡ some (trim_space o.new_username))
                × (validate_username (trim_space o.new_username) ≡ valid)))
        × ((t.password ≡ s.password)
            ⊎ ((t.password ≡ env.generate (trim_space o.new_password))
                × (same (trim_space o.new_password) (trim_space o.confirm_password) ≡ true)
                × (validate_password (trim_space o.new_password) ≡ valid)))
        × (t.attempts ≡ s.attempts))

Quiet-Outcome : (env : Env) (o : CredentialUpdateOptions) (s t : Db) → Quiet s t → Outcome env o s t
Quiet-Outcome env o s t q =
    inl (ap (λ (x : Db). x.user) q, ap (λ (x : Db). x.password) q, ap (λ (x : Db). x.attempts) q)

performed :
    (env : Env) (o : CredentialUpdateOptions) (s t : Db) (current : Str) (u p : Bool)
    → Quiet s t
    → let name = trim_space o.new_username in
      let new = trim_space o.new_password in
      let r = get_user env current t in
      Outcome env o s
        (perform env u p name new
          (password_problem p new
            (trim_space o.confirm_password)
            (username_problem u name (verified env (trim_space o.current_password) r.0)))
          r.1).1
performed env o s t current u p q =
    let name = trim_space o.new_username in
    let new = trim_space o.new_password in
    let confirm = trim_space o.confirm_password in
    let old = trim_space o.current_password in
    let r = get_user env current t in
    let v = verified env old r.0 in
    let x = username_problem u name v in
    let y = password_problem p new confirm x in
    let (quiet, reads) = get_user-Reads env current t in
    let all_quiet = Quiet-trans s t r.1 q quiet in
    elim (Option-cases y) [
      | inl e ↦
          let (ex, good_password) = password_problem-none p new confirm x e in
          let (ev, good_name) = username_problem-none u name v ex in
          let (user, found, good) = verified-none env old r.0 ev in
          let (su, sp, sn) = reads user found in
          let (a, b, c) = perform-Written env u p name new r.1 in
          subst (λ z. Outcome env o s (perform env u p name new z r.1).1) (sym e)
            (inr (
              user,
              (
                sym (ap (λ (d : Db). d.user) q) ∙ su ∙ ap some (sym sn),
                sym (ap (λ (d : Db). d.password) q) ∙ sp,
                good,
              ),
              elim a [
                | inl h ↦ inl (h ∙ ap (λ (d : Db). d.user) all_quiet)
                | inr h ↦ inr (h.1, good_name h.0)
              ],
              elim b [
                | inl h ↦ inl (h ∙ ap (λ (d : Db). d.password) all_quiet)
                | inr h ↦ inr (h.1, (good_password h.0).0, (good_password h.0).1)
              ],
              c ∙ ap (λ (d : Db). d.attempts) all_quiet,
            ))
      | inr (z, e) ↦
          subst (λ w. Outcome env o s (perform env u p name new w r.1).1) (sym e)
            (subst (Outcome env o s) (sym (perform_refused env u p name new z r.1))
              (Quiet-Outcome env o s r.1 all_quiet))
    ]

-- Whatever the request and the answers of the database, an update leaves both columns as they were,
-- or the current password was verified against the stored hash and each column is as it was or holds
-- a new value that passed its validation; the login attempts are never touched.
pub update_credentials-Outcome :
    (env : Env) (o : CredentialUpdateOptions) (s : Db)
    → Outcome env o s (update_credentials env o s).1
unfolding update_credentials
update_credentials-Outcome env o s =
    let (r, t, path, q) = effective_username_lem env o.current_username s in
    let name = trim_space o.new_username in
    let new = trim_space o.new_password in
    let confirm = trim_space o.confirm_password in
    let old = trim_space o.current_password in
    let u = not (same name []) && not (same name r) in
    let p = not (same new []) || not (same confirm []) in
    let rest = λ (current : Str).
      let u' = not (same name []) && not (same name current) in
      if not u' && not p
      then return (reply u' p none none)
      else if same old []
      then return (reply u' p (some current_required) none)
      else (do
        found ← attempt (get_user env current)
        perform env u' p name new
            (password_problem p new confirm (username_problem u' name (verified env old found)))) in
    subst (λ (x : Result Str × Db). Outcome env o s (bound x rest).1) (sym path)
      (if_split (λ (m : M Reply). Outcome env o s (m t).1) (not u && not p)
        (λ e. Quiet-Outcome env o s t q)
        (λ e.
          if_split (λ (m : M Reply). Outcome env o s (m t).1) (same old [])
            (λ e'. Quiet-Outcome env o s t q) (λ e'. performed env o s t r u p q)))
