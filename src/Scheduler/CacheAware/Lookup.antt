-- ===== src/Scheduler/CacheAware/Lookup.antt =====
-- xpyd/scheduler/cache_aware.py: the walk of `lookup_from` around the ring.
use micro_pdproxy.Base.{
  ℕ, zero, suc, ◌+◌, ◌-◌, ◌%◌, ◌≤◌, ◌<◌, ◌≡◌, inl, inr, refl, ◌∙◌, ap, String, true, false, Option,
  some, none, List, [], ◌∷◌, length, contains, ok, arith, Bool-cases, get_elem?, get_elem?_lt,
  lt_of_get_elem?, ◌>>=◌, or_raise, if◌then◌else◌, eqb, string_discrete,
}
use native.Mathlib.Nat.{mod-lt, mod-eq_of_lt, add-mod_right, mod_self}
use native.Mathlib.Decide.{dec_le, ℕ_discrete}
use micro_pdproxy.Scheduler.Ring.{Point, owns, bisect_right}
use micro_pdproxy.Scheduler.CacheAware.{ConsistentHashRing, walk, get, lookup_from}
use micro_pdproxy.Scheduler.CacheAware.Points.{zip, points, IsValid, bisect_right-le}

contains_of_get_elem? :
    (ws : List String) (i : ℕ) (w : String) → get_elem? ws i ≡ some w → contains ws w ≡ true
contains_of_get_elem? [] i w h = ground arith
contains_of_get_elem? (x ∷ ws) zero w h = ground arith
contains_of_get_elem? (x ∷ ws) (suc i) w h = ground (arith, contains_of_get_elem? ws i w)

index_of_contains :
    (ws : List String) (w : String) → contains ws w ≡ true → (i : ℕ) × (get_elem? ws i ≡ some w)
index_of_contains [] w h = absurd (ground arith)
index_of_contains (x ∷ ws) w h = elim (string_discrete x w) [
  | yes same ↦ (0, ap some same)
  | no other ↦ let (i, found) = index_of_contains ws w (ground arith) in (suc i, found)
]

owns-zip :
    (ks : List ℕ) (ws : List String) (w : String)
    → length ks ≡ length ws
    → owns (zip ks ws) w ≡ contains ws w
owns-zip [] [] w e = refl
owns-zip [] (x ∷ ws) w e = absurd (omega arith)
owns-zip (k ∷ ks) [] w e = absurd (omega arith)
owns-zip (k ∷ ks) (x ∷ ws) w e = ground (arith, owns-zip ks ws w)

-- The walk reaches every position in some round.
round_at : (start j n : ℕ) → start ≤ n → j < n → (i : ℕ) × (i < n) × ((start + i) % n ≡ j)
round_at start j n s h = elim (dec_le start j) [
  | yes p ↦
      let e : start + (j - start) ≡ j = omega arith in
      (j - start, omega arith, rw e (mod-eq_of_lt h))
  | no p ↦
      let e : start + (j + n - start) ≡ j + n = omega arith in
      (j + n - start, omega arith, rw e (add-mod_right j n ∙ mod-eq_of_lt h))
]

module _ (candidates ws : List String) (start : ℕ) where
  -- What the answer says about the rounds from `i` on, of which there are `left`.
  abbrev Answers : ℕ → ℕ → Option String → Type 0
  Answers left i (some w) = (contains candidates w ≡ true) × (contains ws w ≡ true)
  Answers left i none =
      (j : ℕ) (w : String)
      → i ≤ j
      → j < i + left
      → get_elem? ws ((start + j) % length ws) ≡ some w
      → contains candidates w ≡ false

  walk_step :
      (left i : ℕ) (x : String)
      → get_elem? ws ((start + i) % length ws) ≡ some x
      → walk candidates ws start (length ws) (suc left) i ≡ (
          if contains candidates x
          then ok (some x)
          else walk candidates ws start (length ws) left (suc i))
  unfolding walk
  walk_step left i x found = rw (found, or_raise, ◌>>=◌)

  walk_first :
      (left i : ℕ) (x : String)
      → 0 < left
      → get_elem? ws ((start + i) % length ws) ≡ some x
      → contains candidates x ≡ true
      → walk candidates ws start (length ws) left i ≡ ok (some x)
  walk_first zero i x p found m = absurd (omega arith)
  walk_first (suc left) i x p found m = rw (walk_step left i x found, m) refl

  Answers-suc :
      (left i : ℕ) (x : String) (o : Option String)
      → get_elem? ws ((start + i) % length ws) ≡ some x
      → contains candidates x ≡ false
      → Answers left (suc i) o
      → Answers (suc left) i o
  Answers-suc left i x (some w) found out h = h
  Answers-suc left i x none found out h = λ j w p q at. elim (ℕ_discrete j i) [
    | yes same ↦ let here = rw same at at in ground arith
    | no other ↦ h j w (omega arith) (omega arith) at
  ]

  walk-Answers :
      (left i : ℕ)
      → 0 < length ws
      → (o : Option String) × (walk candidates ws start (length ws) left i ≡ ok o)
        × Answers left i o
  walk-Answers zero i h = (none, unfold walk in refl, λ j w p q. absurd (omega arith))
  walk-Answers (suc left) i h =
      let (x, found) = get_elem?_lt ws ((start + i) % length ws) (mod-lt (start + i) h) in
      elim (Bool-cases (contains candidates x)) [
        | inl member ↦ (
          some x,
          rw (walk_step left i x found, member) refl,
          (member, contains_of_get_elem? ws _ x found),
        )
        | inr out ↦
            let (o, result, answers) = walk-Answers left (suc i) h in
            (o, rw (walk_step left i x found, out) result, Answers-suc left i x o found out answers)
      ]

-- A worker that is chosen is a candidate with a point on the ring. If none is chosen, no candidate
-- has one.
abbrev pub Selected : List String → List Point → Option String → Type 0
Selected candidates ps (some w) = (contains candidates w ≡ true) × (owns ps w ≡ true)
Selected candidates ps none = (w : String) → contains candidates w ≡ true → owns ps w ≡ false

Answers-Selected :
    (candidates : List String) (ks : List ℕ) (ws : List String) (start : ℕ) (o : Option String)
    → length ks ≡ length ws
    → start ≤ length ws
    → Answers candidates ws start (length ws) 0 o
    → Selected candidates (zip ks ws) o
Answers-Selected candidates ks ws start (some w) e p h = (h.0, owns-zip ks ws w e ∙ h.1)
Answers-Selected candidates ks ws start none e p h = λ w member. elim (Bool-cases (contains ws w)) [
  | inl here ↦
      let (j, found) = index_of_contains ws w here in
      let (i, lt, at) = round_at start j (length ws) p (lt_of_get_elem? ws j w found) in
      let out = h i w (omega arith) (omega arith) (rw at found) in absurd (ground arith)
  | inr gone ↦ owns-zip ks ws w e ∙ gone
]

lookup_from_lists :
    (candidates : List String) (ks : List ℕ) (ws : List String) (key : ℕ) (r : ConsistentHashRing)
    → length ks ≡ length ws
    → (o : Option String) × (lookup_from key candidates
          (record r { ring_keys = ks; ring_workers = ws })
        ≡ ok o)
      × Selected candidates (zip ks ws) o
unfolding lookup_from
lookup_from_lists candidates [] ws key r e = (none, refl, λ w m. refl)
lookup_from_lists [] (k ∷ ks) ws key r e = (none, refl, λ w m. absurd (ground arith))
lookup_from_lists (c ∷ cs) (k ∷ ks) ws key r e =
    let start = bisect_right (k ∷ ks) key in
    let (o, result, answers) = walk-Answers (c ∷ cs) ws start (length ws) 0 (omega arith) in
    (
      o,
      rw e result,
      Answers-Selected (c ∷ cs) (k ∷ ks) ws start o e (omega (arith, bisect_right-le (k ∷ ks) key))
          answers,
    )

-- On a valid ring `lookup_from` never raises; it returns a candidate that has a point on the ring,
-- and nothing only if no candidate has one.
pub lookup_from_lem :
    (candidates : List String) (key : ℕ) (r : ConsistentHashRing)
    → IsValid r
    → (o : Option String) × (lookup_from key candidates r ≡ ok o) × Selected candidates (points r) o
lookup_from_lem candidates key r v =
    lookup_from_lists candidates r.ring_keys r.ring_workers key r v.parallel

wrap_start :
    (start n : ℕ) → start ≤ n → 0 < n → (start + 0) % n ≡ (if eqb start n then 0 else start)
wrap_start start n s p =
    let e : start + 0 ≡ start = omega arith in
    rw e (elim (ℕ_discrete start n) [
      | yes same ↦ rw same (ground (arith, mod_self n))
      | no other ↦ let h : start < n = omega arith in ground (arith, mod-eq_of_lt h)
    ])

get_inversion :
    (ks : List ℕ) (ws : List String) (k key : ℕ) (r : ConsistentHashRing) (w : String)
    → get key (record r { ring_keys = k ∷ ks; ring_workers = ws }) ≡ ok (some w)
    → get_elem? ws
        (if eqb (bisect_right (k ∷ ks) key) (length (k ∷ ks)) then 0 else bisect_right (k ∷ ks) key)
      ≡ some w
unfolding get
get_inversion ks ws k key r w h = ground arith

lookup_from-get_lists :
    (candidates : List String) (ks : List ℕ) (ws : List String) (key : ℕ) (r : ConsistentHashRing)
    (w : String)
    → length ks ≡ length ws
    → get key (record r { ring_keys = ks; ring_workers = ws }) ≡ ok (some w)
    → contains candidates w ≡ true
    → lookup_from key candidates (record r { ring_keys = ks; ring_workers = ws }) ≡ ok (some w)
unfolding lookup_from
lookup_from-get_lists candidates [] ws key r w e h m = absurd (unfold get in ground arith)
lookup_from-get_lists [] (k ∷ ks) ws key r w e h m = absurd (ground arith)
lookup_from-get_lists (c ∷ cs) (k ∷ ks) ws key r w e h m =
    let start = bisect_right (k ∷ ks) key in
    let found : get_elem? ws ((start + 0) % length ws) ≡ some w =
      rw
        (
          wrap_start start (length ws) (omega (arith, bisect_right-le (k ∷ ks) key)) (omega arith),
          ← e,
        )
        (get_inversion ks ws k key r w h) in
    rw e (walk_first (c ∷ cs) ws start (length ws) 0 w (omega arith) found m)

-- When the worker that `get` returns is a candidate, `lookup_from` returns it too.
pub lookup_from-get :
    (candidates : List String) (key : ℕ) (r : ConsistentHashRing) (w : String)
    → IsValid r
    → get key r ≡ ok (some w)
    → contains candidates w ≡ true
    → lookup_from key candidates r ≡ ok (some w)
lookup_from-get candidates key r w v h m =
    lookup_from-get_lists candidates r.ring_keys r.ring_workers key r w v.parallel h m
