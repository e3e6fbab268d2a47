-- ===== src/Proxy/Members/Waits.antt =====
-- xpyd/proxy.py: an instance leaves the proxy only when it has no request left.
use micro_pdproxy.Registry.{InstanceInfo, InstanceRegistry}
use micro_pdproxy.Base.{
  ◌<◌, if-elim, String, ◌≡◌, ◌⊎◌, some, List, [], ◌∷◌, Result, raise, runtime_error, if-elim, Error,
  timeout_error, none, ok,
}
use micro_pdproxy.Registry as Registry
use micro_pdproxy.Registry.{InstanceRegistry, get_active_requests, is_role}
use micro_pdproxy.Proxy.Members.{leave}
use micro_pdproxy.Proxy.Members.View.{view}
use micro_pdproxy.Proxy.Members.{active_requests}
use micro_pdproxy.Proxy.Members.Restored.{Steady}
use micro_pdproxy.Proxy.{Proxy}
use micro_pdproxy.Proxy.Policies.{World}

-- What happens in the sleeps keeps the lists free of duplicates and the scheduler in step.
abbrev pub AllKeep : List (Proxy → Proxy) → Type 0
AllKeep [] = Unit
AllKeep (sleep ∷ sleeps) =
    ((p : Proxy) → Steady (view p) → Steady (view (sleep p))) × AllKeep sleeps

-- How the waiting goes from a state on: the instance is taken out in the first state in which it has
-- no active request, and in no other; if it has one in every state up to the deadline, the last of
-- them is left as it is, with a TimeoutError.
pub data Waited (w : World) (role address model : String)
    : Proxy → List (Proxy → Proxy) → Proxy × Result {0} Unit → Type 0 where
  taken_out :
      {p : Proxy} {sleeps : List (Proxy → Proxy)}
      → active_requests address p ≡ 0
      → Waited w role address model p sleeps (leave w role address model p)
  timed_out :
      {p : Proxy}
      → 0 < active_requests address p
      → Waited w role address model p [] (p, raise timeout_error)
  slept :
      {p : Proxy} {sleep : Proxy → Proxy} {sleeps : List (Proxy → Proxy)}
      {out : Proxy × Result {0} Unit}
      → 0 < active_requests address p
      → Waited w role address model (sleep p) sleeps out
      → Waited w role address model p (sleep ∷ sleeps) out

-- The whole call. Without a registry, for an address or a role that the registry does not know the
-- instance by, it raises at once; otherwise it waits from the state on in which the registry has the
-- instance as draining.
abbrev pub Course :
    World → String → String → List (Proxy → Proxy) → Proxy → Proxy × Result {0} Unit → Type 0
Course w role address sleeps p out =
    ((p.registry ≡ none) × (out.1 ≡ raise runtime_error))
    ⊎ ((r : InstanceRegistry) × (p.registry ≡ some r)
        × (((e : Error) × (Registry.get_instance_info (w.clock address) address r ≡ raise e)
              × (out.1 ≡ raise e))
            ⊎ ((found : InstanceRegistry × InstanceInfo) × (Registry.get_instance_info
                    (w.clock address) address r
                  ≡ ok found)
                × (((e : Error) × (Registry.begin_draining role address found.0 ≡ raise e)
                      × (out.1 ≡ raise e))
                    ⊎ ((r' : InstanceRegistry) × (Registry.begin_draining role address found.0
                          ≡ ok r')
                        × Waited w role address found.1.model (record p { registry = some r' })
                            sleeps out)))))
