-- ===== src/Preload/Tracker.antt =====
-- internal/server/cachepreload/deduplication.go and session_tracker.go: the claims of keys, and the folders
-- that sessions have open.
use sfpg_go.Base.{ℕ, Bool, true, false, ◌||◌, List, [], ◌∷◌, Option, none, some, if◌then◌else◌}
use sfpg_go.Base.Int.{ℤ, pos, ◌-ℤ◌, ltb_ℤ}
use sfpg_go.Base.Text.{Str, same}

-- A claim; the task of a claim is `none` for the empty identifier.
pub record TaskInfo : Type 0 where
  pub session_id : Str
  pub task_id : Option ℕ

abbrev pub TaskTracker : Type 0
TaskTracker = List (Str × TaskInfo)

unfoldable pub is_task_pending : Str → TaskTracker → Bool
is_task_pending key [] = false
is_task_pending key ((k, i) ∷ t) = same k key || is_task_pending key t

-- LoadOrStore.
unfoldable pub register_task : Str → Str → Option ℕ → TaskTracker → Bool × TaskTracker
unfolding is_task_pending
register_task key session id t =
    if is_task_pending key t
    then (false, t)
    else (true, (key, record { session_id = session; task_id = id }) ∷ t)

unfoldable pub unregister_task : Str → TaskTracker → TaskTracker
unregister_task key [] = []
unregister_task key ((k, i) ∷ t) =
    let rest = unregister_task key t in if same k key then rest else (k, i) ∷ rest

abbrev pub and_id : Option ℕ → List ℕ × TaskTracker → List ℕ × TaskTracker
and_id none (ids, t) = (ids, t)
and_id (some n) (ids, t) = (n ∷ ids, t)

abbrev pub and_claim : Str × TaskInfo → List ℕ × TaskTracker → List ℕ × TaskTracker
and_claim c (ids, t) = (ids, c ∷ t)

-- The identifiers of the session's tasks, and the other claims. RemoveTask of the empty identifier does
-- nothing but log an error.
unfoldable pub cancel_session_tasks : Str → TaskTracker → List ℕ × TaskTracker
cancel_session_tasks session [] = ([], [])
cancel_session_tasks session ((k, i) ∷ t) =
    let rest = cancel_session_tasks session t in
    if same i.session_id session then and_id i.task_id rest else and_claim (k, i) rest

unfoldable pub try_claim_task : Str → TaskTracker → Bool × TaskTracker
unfolding register_task
try_claim_task key t = register_task key [] none t

pub record SessionState : Type 0 where
  pub current_folder_id : ℤ
  pub last_activity : ℤ

abbrev pub SessionTracker : Type 0
SessionTracker = List (Str × SessionState)

-- The folder that a session had open, 0 if none, and the sessions afterwards.
unfoldable pub on_folder_open : ℤ → Str → ℤ → SessionTracker → ℤ × SessionTracker
on_folder_open now session folder [] =
    (pos 0, (session, record { current_folder_id = folder; last_activity = now }) ∷ [])
on_folder_open now session folder ((k, s) ∷ t) =
    let (previous, rest) = on_folder_open now session folder t in
    if same k session
    then (s.current_folder_id, (k, record { current_folder_id = folder; last_activity = now }) ∷ t)
    else (previous, (k, s) ∷ rest)

unfoldable pub cleanup : ℤ → ℤ → SessionTracker → SessionTracker
cleanup now max_age [] = []
cleanup now max_age ((k, s) ∷ t) =
    let rest = cleanup now max_age t in
    if ltb_ℤ s.last_activity (now -ℤ max_age) then rest else (k, s) ∷ rest
