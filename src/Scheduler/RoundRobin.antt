-- ===== src/Scheduler/RoundRobin.antt =====
-- xpyd/scheduler/round_robin.py, with `itertools.cycle` as the list of the items in the order in
-- which they come next.
pub mod Order
use micro_pdproxy.Base.{
  ℕ, zero, suc, ◌+◌, String, Bool, true, false, Option, none, some, List, [], ◌∷◌, ◌++◌, length,
  is_empty, contains, if◌then◌else◌, Result, ok, raise, stop_iteration, ◌>>=◌,
}

-- next(cycler): the item, and the cycler behind it
unfoldable pub next : List String → Result (String × List String)
next [] = raise stop_iteration
next (x ∷ xs) = ok (x, xs ++ (x ∷ []))

unfoldable pub safe_next : List String → Result (String × List String)
unfolding next
safe_next cycler = next cycler

-- The `while True` loop on fuel; `none` means that the fuel ran out.
unfoldable pub search_from :
    ℕ → List String → List String → List String → Option (Result (Option String × List String))
search_from zero available seen_addrs cycler = none
search_from (suc fuel) available seen_addrs [] = some (raise stop_iteration)
search_from (suc fuel) available seen_addrs (instance ∷ items) =
    let cycler = items ++ (instance ∷ []) in
    let rest = search_from fuel available (instance ∷ seen_addrs) cycler in
    if contains available instance
    then some (ok (some instance, cycler))
    else if contains seen_addrs instance
    then some (ok (none, cycler))
    else rest

-- `schedule` with the registry's answer `available`, if there is a registry. The loop has a round
-- for each item, and one that meets the first again.
unfoldable pub schedule :
    Option (List String) → List String → Option (Result (Option String × List String))
unfolding search_from safe_next
schedule none cycler = some (safe_next cycler >>= λ r. ok (some r.0, r.1))
schedule (some available) cycler =
    if is_empty available
    then some (ok (none, cycler))
    else search_from (length cycler + 1) available [] cycler
