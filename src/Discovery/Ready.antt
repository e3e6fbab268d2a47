-- ===== src/Discovery/Ready.antt =====
-- xpyd/discovery.py: which instances are known to be healthy, and when the proxy is ready.
use micro_pdproxy.Base.{
  ◌≡◌, refl, String, Bool, true, false, not, ◌&&◌, ◌||◌, List, [], ◌∷◌, ◌++◌, is_empty, contains,
  if◌then◌else◌, if-intro, ◌==◌, arith,
}
use micro_pdproxy.Discovery.{
  NodeDiscovery, init, is_ready, meets, remove_first, discard, add, append_new, remove_instance,
  add_instance, Health, status, unreachable, settled, probe_node,
}

-- What changes the healthy sets, in the order in which the event loop runs it.
pub data Event : Type 0 where
  added : String → String → Event
  removed : String → String → Event
  answered : String → String → Health → Event

unfoldable pub step : Event → NodeDiscovery → NodeDiscovery
step (added role address) s = add_instance role address s
step (removed role address) s = remove_instance role address s
step (answered instance role answer) s = probe_node instance role answer s

unfoldable pub run : List Event → NodeDiscovery → NodeDiscovery
run [] s = s
run (e ∷ es) s = run es (step e s)

-- One role's lists, and what an event does to them.
pub data Role : Type 0 where
  prefill decode aggregated : Role

-- The role of a text: any but two stands for the aggregated one.
abbrev pub role_of : String → Role
role_of role =
    if role == "prefill" then prefill else if role == "decode" then decode else aggregated

abbrev pub configured : Role → NodeDiscovery → List String
configured prefill s = s.prefill_instances
configured decode s = s.decode_instances
configured aggregated s = s.aggregated_instances

abbrev pub healthy : Role → NodeDiscovery → List String
healthy prefill s = s.healthy_prefill
healthy decode s = s.healthy_decode
healthy aggregated s = s.healthy_aggregated

-- Every instance known to be healthy is configured.
abbrev pub Within : List String → List String → Type 0
Within healthy configured = (k : String) → contains healthy k ≡ true → contains configured k ≡ true

abbrev pub IsValid : NodeDiscovery → Type 0
IsValid s = (r : Role) → Within (healthy r s) (configured r s)

contains-discard :
    (a k : String) (xs : List String)
    → contains (discard a xs) k ≡ (if a == k then false else contains xs k)
contains-discard a k [] = ground arith
contains-discard a k (x ∷ xs) = ground (arith, contains-discard a k xs)

contains-add :
    (a k : String) (xs : List String)
    → contains (add a xs) k ≡ (if a == k then true else contains xs k)
contains-add a k xs = ground arith

contains-++ :
    (a k : String) (xs : List String)
    → contains (xs ++ (a ∷ [])) k ≡ (if a == k then true else contains xs k)
contains-++ a k [] = refl
contains-++ a k (x ∷ xs) = ground (arith, contains-++ a k xs)

contains-append_new :
    (a k : String) (xs : List String)
    → contains (append_new a xs) k ≡ (if a == k then true else contains xs k)
contains-append_new a k xs = ground (arith, contains-++ a k xs)

contains-remove_first :
    (a k : String) (xs : List String)
    → contains xs k ≡ true
    → (a == k) ≡ false
    → contains (remove_first a xs) k ≡ true
contains-remove_first a k [] h other = ground arith
contains-remove_first a k (x ∷ xs) h other = ground (arith, contains-remove_first a k xs)

removed-Within :
    (a : String) (h c : List String) → Within h c → Within (discard a h) (remove_first a c)
removed-Within a h c within k is_in =
    ground (arith, contains-discard a k h, within k, contains-remove_first a k c)

added-Within : (a : String) (h c : List String) → Within h c → Within (add a h) (append_new a c)
added-Within a h c within k is_in =
    ground (arith, contains-add a k h, within k, contains-append_new a k c)

settled-Within :
    (answer : Health) (a : String) (h c : List String)
    → Within h c
    → Within (settled answer a c h) c
settled-Within (status code) a h c within k is_in =
    ground (arith, contains-add a k h, within k, contains-discard a k h)
settled-Within unreachable a h c within k is_in = ground (arith, within k, contains-discard a k h)

abbrev same_role : Role → Role → Bool
same_role prefill prefill = true
same_role prefill decode = false
same_role prefill aggregated = false
same_role decode prefill = false
same_role decode decode = true
same_role decode aggregated = false
same_role aggregated prefill = false
same_role aggregated decode = false
same_role aggregated aggregated = true

-- What an event does to the lists of its role.
abbrev changed : Event → List String × List String → List String × List String
changed (added role a) (h, c) = (add a h, append_new a c)
changed (removed role a) (h, c) = (discard a h, remove_first a c)
changed (answered a role answer) (h, c) = (settled answer a c h, c)

abbrev concerns : Event → Role → Bool
concerns (added role a) r = same_role (role_of role) r
concerns (removed role a) r = same_role (role_of role) r
concerns (answered a role answer) r = same_role (role_of role) r

step-changed :
    (e : Event) (r : Role) (s : NodeDiscovery)
    → (healthy r (step e s), configured r (step e s)) ≡ (
        if concerns e r
        then changed e (healthy r s, configured r s)
        else (healthy r s, configured r s))
unfolding step add_instance remove_instance probe_node
step-changed (added role a) prefill s = ground arith
step-changed (added role a) decode s = ground arith
step-changed (added role a) aggregated s = ground arith
step-changed (removed role a) prefill s = ground arith
step-changed (removed role a) decode s = ground arith
step-changed (removed role a) aggregated s = ground arith
step-changed (answered a role answer) prefill s = ground arith
step-changed (answered a role answer) decode s = ground arith
step-changed (answered a role answer) aggregated s = ground arith

changed-Within :
    (e : Event) (h c : List String) → Within h c → Within (changed e (h, c)).0 (changed e (h, c)).1
changed-Within (added role a) h c within = added-Within a h c within
changed-Within (removed role a) h c within = removed-Within a h c within
changed-Within (answered a role answer) h c within = settled-Within answer a h c within

transport_Within : (p q : List String × List String) → p ≡ q → Within q.0 q.1 → Within p.0 p.1
transport_Within p q h within = rw (h) within

step-IsValid : (e : Event) (s : NodeDiscovery) → IsValid s → IsValid (step e s)
step-IsValid e s valid r =
    transport_Within (healthy r (step e s), configured r (step e s)) _ (step-changed e r s)
      (if-intro (λ (p : List String × List String). Within p.0 p.1) (concerns e r)
        (changed-Within e (healthy r s) (configured r s) (valid r)) (valid r))

run-IsValid : (es : List Event) (s : NodeDiscovery) → IsValid s → IsValid (run es s)
unfolding run
run-IsValid [] s valid = valid
run-IsValid (e ∷ es) s valid = run-IsValid es (step e s) (step-IsValid e s valid)

init-IsValid : (prefill decode aggregated : List String) → IsValid (init prefill decode aggregated)
unfolding init
init-IsValid p d a prefill k h = ground arith
init-IsValid p d a decode k h = ground arith
init-IsValid p d a aggregated k h = ground arith

-- The proxy is ready exactly if a decode instance is known to be healthy and, where prefill instances are configured, one of them is, or an
-- aggregated instance is known to be healthy.
abbrev pub is_ready? : NodeDiscovery → Bool
is_ready? s =
    (not (is_empty s.healthy_decode)
      && (is_empty s.prefill_instances || not (is_empty s.healthy_prefill)))
    || not (is_empty s.healthy_aggregated)

contains_some : (xs : List String) → is_empty xs ≡ false → (k : String) × (contains xs k ≡ true)
contains_some [] h = ground arith
contains_some (x ∷ xs) h = (x, ground arith)

meets_of :
    (c h : List String) (k : String) → contains c k ≡ true → contains h k ≡ true → meets c h ≡ true
meets_of [] h k in_c in_h = ground arith
meets_of (x ∷ c) h k in_c in_h = ground (arith, meets_of c h k)

meets_nil : (c : List String) → meets c [] ≡ false
meets_nil [] = refl
meets_nil (x ∷ c) = meets_nil c

meets-Within : (h c : List String) → Within h c → meets c h ≡ not (is_empty h)
meets-Within [] c within = meets_nil c
meets-Within (x ∷ h) c within = meets_of c (x ∷ h) x (within x (ground arith)) (ground arith)

nil-Within : (h : List String) → Within h [] → is_empty h ≡ true
nil-Within [] within = refl
nil-Within (x ∷ h) within = ground (arith, within x)

is_ready-eq : (s : NodeDiscovery) → IsValid s → is_ready s ≡ is_ready? s
unfolding is_ready
is_ready-eq s valid = ground (
  arith,
  meets-Within s.healthy_decode s.decode_instances (valid decode),
  meets-Within s.healthy_prefill s.prefill_instances (valid prefill),
  meets-Within s.healthy_aggregated s.aggregated_instances (valid aggregated),
  nil-Within s.healthy_decode,
)

-- After any sequence of additions, removals and answers to probes, late answers of removed
-- instances included, every instance known to be healthy is configured in its role, and the proxy
-- is ready exactly if some aggregated instance is healthy, or some decode instance is and, where
-- prefill instances are configured, also some prefill instance.
pub run-is_ready :
    (es : List Event) (prefill decode aggregated : List String)
    → IsValid (run es (init prefill decode aggregated))
      × (is_ready (run es (init prefill decode aggregated))
          ≡ is_ready? (run es (init prefill decode aggregated)))
run-is_ready es p d a =
    let valid = run-IsValid es (init p d a) (init-IsValid p d a) in
    (valid, is_ready-eq (run es (init p d a)) valid)
