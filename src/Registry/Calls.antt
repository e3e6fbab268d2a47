-- ===== src/Registry/Calls.antt =====
-- xpyd/registry.py: the calls of the registry's methods as data, to speak of any sequence of them.
-- A method that raises leaves the registry as it was.
use micro_pdproxy.Base.{
  Bool, false, ◌≡◌, ◌==◌, ℕ, String, List, [], ◌∷◌, Result, ok, or_unchanged, ◌>>=◌,
}
use micro_pdproxy.Registry
use micro_pdproxy.Registry.{InstanceRegistry}

pub data Call : Type 0 where
  add : String → String → String → Call
  remove : String → Call
  begin_draining : String → String → Call
  update_model : String → String → Call
  mark_healthy : ℕ → String → Call
  mark_unhealthy : ℕ → String → Call
  record_success : ℕ → String → Call
  record_failure : ℕ → ℕ → String → Call
  increment_active_requests : String → Call
  decrement_active_requests : String → Call
  get_available_instances : (String → ℕ) → String → String → Call
  get_aggregated_instances : (String → ℕ) → String → Call
  get_instance_info : ℕ → String → Call
  get_all_instances : (String → ℕ) → Call

-- The registry that a call leaves, if it does not raise.
unfoldable pub effect : InstanceRegistry → Call → Result InstanceRegistry
effect r (add role address model) = Registry.add role address model r
effect r (remove address) = Registry.remove address r
effect r (begin_draining role address) = Registry.begin_draining role address r
effect r (update_model address model) = Registry.update_model address model r
effect r (mark_healthy now address) = Registry.mark_healthy now address r
effect r (mark_unhealthy now address) = Registry.mark_unhealthy now address r
effect r (record_success now address) = Registry.record_success now address r
effect r (record_failure now later address) = Registry.record_failure now later address r
effect r (increment_active_requests address) = Registry.increment_active_requests address r
effect r (decrement_active_requests address) = Registry.decrement_active_requests address r
effect r (get_available_instances clock role model) =
    ok (Registry.get_available_instances clock role model r).0
effect r (get_aggregated_instances clock model) =
    ok (Registry.get_aggregated_instances clock model r).0
effect r (get_instance_info now address) = do
  (r', info) ← Registry.get_instance_info now address r
  ok r'
effect r (get_all_instances clock) = do (r', infos) ← Registry.get_all_instances clock r; ok r'

abbrev pub step : InstanceRegistry → Call → InstanceRegistry
step r c = or_unchanged r (effect r c)

unfoldable pub run : InstanceRegistry → List Call → InstanceRegistry
run r [] = r
run r (c ∷ calls) = run (step r c) calls

-- The call may remove the address.
abbrev pub removes : Call → String → Bool
removes (remove a) k = a == k
removes c k = false

-- The call may record a success of the address.
abbrev pub succeeds : Call → String → Bool
succeeds (record_success now a) k = a == k
succeeds c k = false

abbrev pub None : (Call → Bool) → List Call → Type 0
None test [] = Unit
None test (c ∷ calls) = (test c ≡ false) × None test calls
