-- ===== src/HealthMonitor/Probes.antt =====
-- xpyd/health_monitor.py: what health probes do to the registry.
use micro_pdproxy.Registry
use micro_pdproxy.Base.{
  ◌==◌, Option, none, Option-cases, ap, ◌∙◌, ℕ, ◌≡◌, refl, String, some, List, [], ◌∷◌, eqb,
  if◌then◌else◌, Bool-cases, inl, inr, Option, none, or_unchanged, arith, if-elim,
}
use micro_pdproxy.Base.Dict
use micro_pdproxy.Registry.{
  InstanceRegistry, InstanceRecord, get_available_instances, InstanceStatus, draining, healthy,
  unhealthy, unknown,
}
use micro_pdproxy.HealthMonitor.{Answer, status, unreachable, probe_node}

-- A probe's time, address and answer.
abbrev pub Probe : Type 0
Probe = ℕ × String × Answer

unfoldable pub probe_all : List Probe → InstanceRegistry → InstanceRegistry
probe_all [] r = r
probe_all ((now, addr, answer) ∷ ps) r = probe_all ps (probe_node now addr answer r)

-- The time and the answer of the last probe of an instance.
abbrev pub last_probe : String → List Probe → Option (ℕ × Answer)
last_probe k [] = none
last_probe k ((now, addr, answer) ∷ ps) = elim (last_probe k ps) [
  | none ↦ if addr == k then some (now, answer) else none
  | some later ↦ some later
]

-- Only the answer 200 is good.
abbrev pub status_for : Answer → InstanceStatus
status_for (status code) = if eqb code 200 then healthy else unhealthy
status_for unreachable = unhealthy

abbrev pub reported : InstanceStatus → Answer → InstanceStatus
reported draining answer = draining
reported healthy answer = status_for answer
reported unhealthy answer = status_for answer
reported unknown answer = status_for answer

-- A record after the last probe of its instance, if there was one.
abbrev pub probed : Option (ℕ × Answer) → InstanceRecord → InstanceRecord
probed none i = i
probed (some (now, answer)) i = record i {
  status = reported i.status answer;
  last_health_check = some now;
}

marked_healthy :
    (now : ℕ) (addr k : String) (r : InstanceRegistry) (i : InstanceRecord)
    → Dict.get r.instances k ≡ some i
    → Dict.get (or_unchanged r (Registry.mark_healthy now addr r)).instances k
      ≡ some (if addr == k then probed (some (now, status 200)) i else i)
unfolding Registry.mark_healthy Registry.get_instance
marked_healthy now addr k r i h = elim (Option-cases (Dict.get r.instances addr)) [
  | inl missing ↦ ground (arith, missing, h)
  | inr (j, found) ↦ ground (
    arith,
    found,
    h,
    Dict.get-set r.instances addr k
        (record j { status = reported j.status (status 200); last_health_check = some now }),
  )
]

marked_unhealthy :
    (now : ℕ) (addr k : String) (answer : Answer) (r : InstanceRegistry) (i : InstanceRecord)
    → status_for answer ≡ unhealthy
    → Dict.get r.instances k ≡ some i
    → Dict.get (or_unchanged r (Registry.mark_unhealthy now addr r)).instances k
      ≡ some (if addr == k then probed (some (now, answer)) i else i)
unfolding Registry.mark_unhealthy Registry.get_instance
marked_unhealthy now addr k answer r i bad h = elim (Option-cases (Dict.get r.instances addr)) [
  | inl missing ↦ ground (arith, missing, h)
  | inr (j, found) ↦ ground (
    arith,
    found,
    h,
    bad,
    Dict.get-set r.instances addr k
        (record j { status = reported j.status unreachable; last_health_check = some now }),
  )
]

probe_node-get :
    (now : ℕ) (addr k : String) (answer : Answer) (r : InstanceRegistry) (i : InstanceRecord)
    → Dict.get r.instances k ≡ some i
    → Dict.get (probe_node now addr answer r).instances k
      ≡ some (if addr == k then probed (some (now, answer)) i else i)
unfolding probe_node
probe_node-get now addr k unreachable r i h = marked_unhealthy now addr k unreachable r i refl h
probe_node-get now addr k (status code) r i h =
    if-elim
      (λ (q : InstanceRegistry).
        Dict.get q.instances k ≡ some (if addr == k then probed (some (now, status code)) i else i))
      (eqb code 200) (λ good. ground (arith, good, marked_healthy now addr k r i h))
      (λ bad. marked_unhealthy now addr k (status code) r i (rw bad refl) h)

settled : (answer later : Answer) → reported (status_for answer) later ≡ status_for later
settled unreachable later = refl
settled (status code) later =
    if-elim (λ (s : InstanceStatus). reported s later ≡ status_for later) (eqb code 200)
      (λ good. refl) (λ bad. refl)

reported-last :
    (s : InstanceStatus) (answer later : Answer)
    → reported (reported s answer) later ≡ reported s later
reported-last draining answer later = refl
reported-last healthy answer later = settled answer later
reported-last unhealthy answer later = settled answer later
reported-last unknown answer later = settled answer later

-- An earlier probe does not show behind a later one.
probed-last :
    (now : ℕ) (addr k : String) (answer : Answer) (later : Option (ℕ × Answer)) (i : InstanceRecord)
    → probed later (if addr == k then probed (some (now, answer)) i else i)
      ≡ probed
          (elim later [ none ↦ if addr == k then some (now, answer) else none | some l ↦ some l ])
          i
probed-last now addr k answer none i = elim (Bool-cases (addr == k)) [
  | inl same ↦ rw same refl
  | inr differ ↦ rw differ refl
]
probed-last now addr k answer (some (t, a)) i = elim (Bool-cases (addr == k)) [
  | inl same ↦ rw same (
      ap (λ s. record i { status = s; last_health_check = some t })
        (reported-last i.status answer a))
  | inr differ ↦ rw differ refl
]

-- After any sequence of probes, with the answers of any instances in any order, the record of a
-- registered instance is what the last probe of it makes of the record of before: healthy exactly if
-- that answered 200, unless the instance is draining, checked at that time, and with the breaker and
-- the count of requests of before; without a probe of it, the record has not changed.
pub probe_all-get :
    (ps : List Probe) (r : InstanceRegistry) (k : String) (i : InstanceRecord)
    → Dict.get r.instances k ≡ some i
    → Dict.get (probe_all ps r).instances k ≡ some (probed (last_probe k ps) i)
unfolding probe_all
probe_all-get [] r k i h = h
probe_all-get ((now, addr, answer) ∷ ps) r k i h =
    probe_all-get ps (probe_node now addr answer r) k
      (if addr == k then probed (some (now, answer)) i else i)
      (probe_node-get now addr k answer r i h)
    ∙ ap some (probed-last now addr k answer (last_probe k ps) i)
