-- ===== src/CacheBatch/Tests.antt =====
-- internal/server/cachebatch on two calls of Run and two targets.
use sfpg_go.Base.{ℕ, ◌+◌, ◌≡◌, ◌<◌, ◌⊎◌, refl, true, false, List, [], ◌∷◌, none, some, arith}
use sfpg_go.Base.Int.{pos}
use sfpg_go.Base.Text.{codes, same, has_prefix}
use sfpg_go.HttpCache.Key.{new_cache_key, new_cache_key_for_preload}
use sfpg_go.CacheBatch.Load.{
  scheduling, sending, returned, Answers, Act, proceeds, takes, advance, proceed, World, run,
}
use sfpg_go.CacheBatch.State.{already_running, Target, new_manager}
use sfpg_go.CacheBatch.Count.{num, done}
use sfpg_go.CacheBatch.Runs.{holders, all_in_hand, all_start, loads_balance, send_has_room}
use sfpg_go.CacheBatch.Ends.{left, is_returned, next_act, Falls, load_ends}

abbrev gallery : Target
gallery = record { path = codes "/gallery/1"; variant = codes "gallery-content" }

abbrev image : Target
image = record { path = codes "/info/image/1"; variant = codes "box_info" }

abbrev calm : Answers
calm = record {
  is_active = some false;
  now = pos 5;
  has_queries = true;
  targets = some (gallery ∷ image ∷ []);
  has_handler = true;
  etag_version = codes "1";
  exists = λ k. some (same k (codes "GET:/gallery/1?v=1|Variant=gallery-content"));
  cancelled = false;
  first = true;
}

abbrev quit : Answers
quit = record calm { cancelled = true; first = false }

abbrev world : World
world = record { manager = new_manager true 4; calls = all_start 2 }

-- The first call has skipped the gallery, which is in the cache, and is about to send the image; the
-- second call has been refused.
abbrev to_send : List (ℕ × Act)
to_send =
    (0, proceeds calm)
    ∷ (0, proceeds calm)
    ∷ (1, proceeds calm)
    ∷ (1, proceeds calm)
    ∷ (0, proceeds calm)
    ∷ (0, proceeds calm)
    ∷ (0, proceeds calm)
    ∷ []

abbrev sent : World
sent = run to_send world

calls_at_send :
    sent.calls ≡ sending (codes "1") image [] [] [] ∷ returned (some already_running) ∷ []
unfolding run all_start new_manager new_cache_key new_cache_key_for_preload same has_prefix
calls_at_send = refl

-- A cancelled context drops the target, and Run returns no error.
cancelled_run :
    (run
      ((0, proceeds quit) ∷ (0, proceeds quit) ∷ (0, proceeds quit) ∷ (0, proceeds quit) ∷ [])
      sent).calls
    ≡ returned none ∷ returned (some already_running) ∷ []
unfolding run all_start new_manager new_cache_key new_cache_key_for_preload same has_prefix
cancelled_run = refl

loads_balance_example :
    (holders sent.calls ≡ num sent.manager.running)
    × (sent.manager.metrics.in_flight ≡ pos (all_in_hand sent.calls))
    × (sent.manager.metrics.targets_scheduled
        ≡ pos (done sent.manager.metrics + all_in_hand sent.calls))
loads_balance_example = loads_balance true 4 2 to_send sent refl

send_has_room_example :
    proceed calm sent.manager (sending (codes "1") image [] [] [])
    ≡ (sent.manager, scheduling (codes "1") [] (image ∷ []) [])
unfolding run all_start new_manager new_cache_key new_cache_key_for_preload same has_prefix
send_has_room_example =
    send_has_room true 4 2 to_send sent 0 calm (codes "1") image [] [] [] refl refl refl

load_ends_example :
    Falls sent.manager
      (sending (codes "1") image [] [] [])
      (advance takes sent.manager (sending (codes "1") image [] [] []))
    × ((is_returned (sending (codes "1") image [] [] []) ≡ true)
        ⊎ (left
              (advance
                (next_act calm (sending (codes "1") image [] [] []))
                sent.manager
                (sending (codes "1") image [] [] [])).1
            < left (sending (codes "1") image [] [] [])))
unfolding run all_start new_manager new_cache_key new_cache_key_for_preload same has_prefix
load_ends_example =
    load_ends true 4 2 to_send sent 0 (sending (codes "1") image [] [] []) takes calm (omega arith)
      refl refl refl
