-- ===== src/Auth/Credentials.antt =====
-- `UpdateCredentials` of internal/server/auth/service.go.
use sfpg_go.Base.{Bool, ◌&&◌, ◌||◌, [], ◌∷◌, Option, none, some, if◌then◌else◌, not}
use sfpg_go.Base.Text.{Str, same, trim_space}
use sfpg_go.Auth.Validation.{Invalid, Verdict, valid, invalid, validate_username, validate_password}
use sfpg_go.Auth.State.{Env, Error, hash_failed, Result, ok, err, M, ◌>>=◌, return, attempt}
use sfpg_go.Auth.Store.{User, get_user, update_username, update_password}

pub record CredentialUpdateOptions : Type 0 where
  pub current_username : Str
  pub new_username : Str
  pub current_password : Str
  pub new_password : Str
  pub confirm_password : Str

-- The entries of `ValidationErrors`, of which there is never more than one.
pub data Problem : Type 0 where
  current_required current_incorrect new_required confirm_required mismatch : Problem
  bad_username bad_password : Invalid → Problem
  username_not_updated password_not_hashed password_not_updated : Problem

pub record CredentialUpdateResult : Type 0 where
  pub changing_username : Bool
  pub changing_password : Bool
  pub problem : Option Problem

-- The result and the error that Go returns beside it.
abbrev pub Reply : Type 0
Reply = CredentialUpdateResult × Option Error

abbrev pub admin : Str
admin = 97 ∷ 100 ∷ 109 ∷ 105 ∷ 110 ∷ []

abbrev pub name_or : Str → Result User → Str
name_or d (ok u) = u.username
name_or d (err e) = d

unfoldable pub effective_username : Env → Str → M Str
unfolding get_user
effective_username env name =
    if same name []
    then (do r ← attempt (get_user env admin); return (name_or name r))
    else return name

abbrev pub verified : Env → Str → Result User → Option Problem
verified env password (ok u) =
    if not (env.verify u.password password) then some current_incorrect else none
verified env password (err e) = some current_incorrect

abbrev pub refusal : (Invalid → Problem) → Verdict → Option Problem
refusal f valid = none
refusal f (invalid i) = some (f i)

unfoldable pub username_problem : Bool → Str → Option Problem → Option Problem
username_problem changing name (some p) = some p
username_problem changing name none =
    if changing then refusal bad_username (validate_username name) else none

unfoldable pub password_problem : Bool → Str → Str → Option Problem → Option Problem
password_problem changing new confirm (some p) = some p
password_problem changing new confirm none =
    if not changing
    then none
    else if same new []
    then some new_required
    else if same confirm []
    then some confirm_required
    else if not (same new confirm)
    then some mismatch
    else refusal bad_password (validate_password new)

abbrev pub reply : Bool → Bool → Option Problem → Option Error → Reply
reply u p problem e =
    (record { changing_username = u; changing_password = p; problem = problem }, e)

abbrev pub password_reply : Bool → Bool → Result (Unit {0}) → M Reply
password_reply u p (ok _) = return (reply u p none none)
password_reply u p (err e) = return (reply u p (some password_not_updated) (some e))

unfoldable pub store_hash : Env → Bool → Bool → Option Str → M Reply
unfolding update_password
store_hash env u p none = return (reply u p (some password_not_hashed) (some hash_failed))
store_hash env u p (some hash) = do r ← attempt (update_password env hash); password_reply u p r

unfoldable pub apply_password : Env → Bool → Bool → Str → M Reply
unfolding store_hash
apply_password env u p new =
    if p then store_hash env u p (env.generate new) else return (reply u p none none)

unfoldable pub after_username : Env → Bool → Bool → Str → Result (Unit {0}) → M Reply
unfolding apply_password
after_username env u p new (ok _) = apply_password env u p new
after_username env u p new (err e) = return (reply u p (some username_not_updated) (some e))

-- The updates, the name first.
unfoldable pub perform : Env → Bool → Bool → Str → Str → Option Problem → M Reply
unfolding after_username update_username
perform env u p name new (some problem) = return (reply u p (some problem) none)
perform env u p name new none =
    if u
    then (do r ← attempt (update_username env name); after_username env u p new r)
    else apply_password env u p new

unfoldable pub update_credentials : Env → CredentialUpdateOptions → M Reply
unfolding effective_username perform username_problem password_problem get_user
update_credentials env o = do
  let name = trim_space o.new_username
  let old = trim_space o.current_password
  let new = trim_space o.new_password
  let confirm = trim_space o.confirm_password
  current ← effective_username env o.current_username
  let u = not (same name []) && not (same name current)
  let p = not (same new []) || not (same confirm [])
  if not u && not p
      then return (reply u p none none)
      else if same old []
      then return (reply u p (some current_required) none)
      else (do
        found ← attempt (get_user env current)
        perform env u p name new
            (password_problem p new confirm (username_problem u name (verified env old found))))
