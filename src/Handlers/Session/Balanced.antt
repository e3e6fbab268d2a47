-- ===== src/Handlers/Session/Balanced.antt =====
-- xpyd/routes/completions.py: whatever a handler calls on its reservation, what is counted for the
-- request is what is still to be released.
use micro_pdproxy.Base.{
  ℕ, ◌+◌, ◌-◌, String, ◌≡◌, refl, sym, ap, ◌∙◌, Bool, true, false, not, ◌&&◌, ◌||◌, Option, none,
  some, List, [], ◌∷◌, ◌++◌, arith, if◌then◌else◌, ◌==◌, Result, ok, is_empty, if-elim,
}
use micro_pdproxy.Registry.{InstanceRegistry}
use micro_pdproxy.Reservation.{RequestReservation}
use micro_pdproxy.Proxy as Server
use micro_pdproxy.Proxy.{Proxy, named, truthy}
use micro_pdproxy.Proxy.Policies.{World}
use micro_pdproxy.Proxy.Bookings.{known_in}
use micro_pdproxy.Proxy.Releases.{
  Counted, released, all_known, exception_handler-Counted, released_none,
}
use micro_pdproxy.Handlers.Session.{Session}
use micro_pdproxy.Registry.Counts.{one_if}

-- A known instance is found.
known_some :
    (i : String) (o : Option InstanceRegistry)
    → known_in i o ≡ true
    → (r : InstanceRegistry) × (o ≡ some r)
known_some i none h = absurd (ground arith)
known_some i (some r) h = (r, refl)

nothing_named :
    (w : World) (prefill decode : Option String) (len : ℕ) (p : Proxy)
    → is_empty (named prefill decode) ≡ true
    → Server.exception_handler w prefill decode len p ≡ (p, ok tt)
unfolding Server.exception_handler
nothing_named w prefill decode len p h =
    if-elim (λ (m : Proxy × Result Unit). m ≡ (p, ok tt)) (is_empty (named prefill decode))
      (λ e. refl) (λ e. absurd (ground arith))

-- The end of a request, also where it is on no instance.
handler_lem :
    (w : World) (prefill decode : Option String) (len : ℕ) (p : Proxy) (a : String) (n : ℕ)
    (ks : List String)
    → all_known (named prefill decode) p.registry ≡ true
    → Counted a n ks p
    → Counted a
        (released (named prefill decode) a n)
        ks
        (Server.exception_handler w prefill decode len p).0
handler_lem w prefill decode len p a n ks h c = go (named prefill decode) refl
  where
    go :
        (names : List String)
        → names ≡ named prefill decode
        → Counted a
            (released (named prefill decode) a n)
            ks
            (Server.exception_handler w prefill decode len p).0
    go [] e =
        rw
          (
            nothing_named w prefill decode len p (ap is_empty (sym e)),
            released_none (named prefill decode) a n (ap is_empty (sym e)),
          )
          c
    go (x ∷ xs) e =
        let (r, there) =
          known_some x p.registry
            (ground (arith, ap (λ names. all_known names p.registry) e ∙ h)) in
        exception_handler-Counted w prefill decode len p r a n ks there h c

-- The instance of a side counts until its flag is set.
abbrev pub due_side : Bool → Option String → String → ℕ
due_side true instance a = 0
due_side false none a = 0
due_side false (some x) a = one_if x a

abbrev pub due_of : String → RequestReservation → ℕ
due_of a s =
    due_side s.prefill_released s.prefill_instance a
    + due_side s.decode_released s.decode_instance a

abbrev pub blank : Option String → Bool
blank none = false
blank (some x) = x == ""

-- What is counted for the address, beside the `n` requests of others, is what is still due; the
-- reservation's instances are known and have a name.
abbrev pub Balanced : String → ℕ → Session → Type 0
Balanced a n s =
    Counted a (n + due_of a s.reservation)
      (named s.reservation.prefill_instance s.reservation.decode_instance) s.proxy
    × (blank s.reservation.prefill_instance ≡ false)
    × (blank s.reservation.decode_instance ≡ false)

-- The release of one side counts it off, if it was due.
side_lem :
    (given flag : Bool) (o : Option String) (a : String) (k : ℕ)
    → blank o ≡ false
    → released (truthy (if given && not flag then o else none)) a (k + due_side flag o a)
      ≡ k + due_side (flag || given && not flag) o a
side_lem true true o a k h = refl
side_lem false true o a k h = refl
side_lem false false o a k h = refl
side_lem true false none a k h = refl
side_lem true false (some x) a k h = ground arith

released-++ :
    (xs ys : List String) (a : String) (n : ℕ)
    → released (xs ++ ys) a n ≡ released ys a (released xs a n)
released-++ [] ys a n = refl
released-++ (x ∷ xs) ys a n = released-++ xs ys a (n - one_if x a)

pub all_known-++ :
    (xs ys : List String) (o : Option InstanceRegistry)
    → all_known (xs ++ ys) o ≡ (all_known xs o && all_known ys o)
all_known-++ [] ys o = refl
all_known-++ (x ∷ xs) ys o = ground (arith, all_known-++ xs ys o)

part_known :
    (b : Bool) (o : Option String) (r : Option InstanceRegistry)
    → all_known (truthy o) r ≡ true
    → all_known (truthy (if b then o else none)) r ≡ true
part_known true o r h = h
part_known false o r h = refl

-- A release of either side, or of both, with the flags that it sets.
module _ (w : World) (gp gd fp fd : Bool) (prefill decode : Option String) (len : ℕ) (p : Proxy)
    (a : String) (n : ℕ) (bp : blank prefill ≡ false) (bd : blank decode ≡ false) where
  abbrev to_prefill : Option String
  to_prefill = if gp && not fp then prefill else none

  abbrev to_decode : Option String
  to_decode = if gd && not fd then decode else none

  both_released :
      released (named to_prefill to_decode) a (n + (due_side fp prefill a + due_side fd decode a))
      ≡ n + (due_side (fp || gp && not fp) prefill a + due_side (fd || gd && not fd) decode a)
  both_released =
      let dp = due_side fp prefill a in
      let dd = due_side fd decode a in
      let dp' = due_side (fp || gp && not fp) prefill a in
      let reorder : n + (dp + dd) ≡ n + dd + dp = omega arith in
      let swap : n + dd + dp' ≡ n + dp' + dd = omega arith in
      let join : n + dp' + due_side (fd || gd && not fd) decode a
          ≡ n + (dp' + due_side (fd || gd && not fd) decode a) =
        omega arith in
      released-++ (truthy to_prefill) (truthy to_decode) a (n + (dp + dd))
      ∙ (ap (λ k. released (truthy to_decode) a (released (truthy to_prefill) a k)) reorder
          ∙ (ap (released (truthy to_decode) a) (side_lem gp fp prefill a (n + dd) bp ∙ swap)
              ∙ (side_lem gd fd decode a (n + dp') bd ∙ join)))

  pub pass_one :
      Counted a (n + (due_side fp prefill a + due_side fd decode a)) (named prefill decode) p
      → Counted a
          (n + (due_side (fp || gp && not fp) prefill a + due_side (fd || gd && not fd) decode a))
          (named prefill decode)
          (Server.exception_handler w to_prefill to_decode len p).0
  pass_one (c, k) =
      let each = sym (all_known-++ (truthy prefill) (truthy decode) p.registry) ∙ k in
      let known : all_known (named to_prefill to_decode) p.registry ≡ true =
        all_known-++ (truthy to_prefill) (truthy to_decode) p.registry
        ∙ ground (
          arith,
          part_known (gp && not fp) prefill p.registry,
          part_known (gd && not fd) decode p.registry,
          each,
        ) in
      rw (sym both_released) (
        handler_lem w to_prefill to_decode len p a
          (n + (due_side fp prefill a + due_side fd decode a)) (named prefill decode) known (c, k))
