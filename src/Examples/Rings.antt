-- ===== src/Examples/Rings.antt =====
-- Concrete runs of the consistent hash rings: of xpyd/scheduler/cache_aware.py with two points for
-- each of two workers, and of xpyd/scheduler/consistent_hash.py with points that collide.
use micro_pdproxy.Base.{
  ℕ, ◌+◌, ◌*◌, ◌≡◌, ◌⊎◌, refl, String, some, [], ◌∷◌, ◌==◌, if◌then◌else◌, ok, string_discrete,
  differs,
}
use micro_pdproxy.Base.{List, none, length}
use micro_pdproxy.Scheduler.Ring.{bisect_left, bisect_right}
use micro_pdproxy.Scheduler.CacheAware.{
  ConsistentHashRing, empty, add_worker, add_vnodes, add_vnode, remove_worker, get,
}
use micro_pdproxy.Scheduler.CacheAware.Points.{IsValid}
use micro_pdproxy.Scheduler.CacheAware.Changes.{
  empty-IsValid, add_worker-IsValid, get-add_worker, get-remove_worker,
}
use micro_pdproxy.Scheduler.CacheAware.Policy.{CacheAwarePolicy}
use micro_pdproxy.Scheduler.ConsistentHash as Policy
use micro_pdproxy.Scheduler.ConsistentHash.{ConsistentHashPolicy, Context, select, select_from}
use micro_pdproxy.Scheduler.ConsistentHash.Ring as Policies
use micro_pdproxy.Scheduler.ConsistentHash.Ring.{
  Call, add, remove, run, Owner, Candidate, ring_run-IsValid, ring_select_lem, ring_select_from_lem,
}

-- The points of "a" are at 10 and 20, those of any other worker at 15 and 25.
abbrev hash : String → ℕ → ℕ
hash worker i = (if worker == "a" then 10 else 15) + i * 10

abbrev one : ConsistentHashRing
one = add_worker hash "a" (empty 2)

abbrev two : ConsistentHashRing
two = add_worker hash "b" one

one-IsValid : IsValid one
one-IsValid = add_worker-IsValid "a" hash (empty 2) (empty-IsValid 2)

two-IsValid : IsValid two
two-IsValid = add_worker-IsValid "b" hash one one-IsValid

get_12 : get 12 two ≡ ok (some "b")
unfolding get add_worker add_vnodes empty add_vnode string_discrete bisect_left bisect_right
get_12 = refl

get_17 : get 17 two ≡ ok (some "a")
unfolding get add_worker add_vnodes empty add_vnode string_discrete bisect_left bisect_right
get_17 = refl

get-add_worker_example : (◌≡◌ {A = String} "a" "b") ⊎ (get 17 one ≡ ok (some "a"))
get-add_worker_example = get-add_worker "b" hash one 17 "a" one-IsValid get_17

get-remove_worker_example : get 12 (remove_worker "a" two) ≡ ok (some "b")
unfolding string_discrete
get-remove_worker_example =
    get-remove_worker "a" two 12 "b" two-IsValid (differs "b" "a" refl) get_12

-- A hash that does not depend on the worker.
abbrev colliding : String → ℕ → ℕ
colliding worker i = i * 10

abbrev key_hash : String → ℕ
key_hash key = 5

abbrev context : Context
context = record { header = none; session_id = some "s"; user = some ""; client_ip = none }

abbrev changes : List Call
changes = add "a" ∷ add "b" ∷ remove "b" ∷ []

nobody-IsValid : Policies.IsValid (Policy.empty 2)
unfolding Policy.has_at
nobody-IsValid = record { ascending = tt; agree = λ h. refl; once = tt }

ring_run-IsValid_example : Policies.IsValid (run colliding changes (Policy.empty 2))
ring_run-IsValid_example = ring_run-IsValid colliding changes (Policy.empty 2) nobody-IsValid

-- One token for a prompt, and a hash of the number of tokens.
abbrev tokenize : String → List String
tokenize prompt = prompt ∷ []

abbrev hash_of : List String → ℕ
hash_of tokens = length tokens * 12

abbrev policy : CacheAwarePolicy
policy = record { prefix_length = 256; ring = two }
