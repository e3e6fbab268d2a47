-- ===== src/Scheduler/ConsistentHash/Keys.antt =====
-- xpyd/scheduler/consistent_hash.py: the sorted list of keys under `insort` and removal by
-- `bisect_left`, and the map of the ring as a list of points.
use micro_pdproxy.Base.{
  inl, inr, ℕ, ◌+◌, ◌≤◌, ◌<◌, ◌≡◌, refl, String, Bool, true, false, some, List, [], ◌∷◌, get_elem?,
  eqb, ltb, if◌then◌else◌, if-intro, arith, Bool-cases, Option-cases,
}
use micro_pdproxy.Scheduler.Ring.{Point, bisect_left, bisect_right}
use micro_pdproxy.Scheduler.ConsistentHash.{get_at, has_at, delete_at, insort, drop_key}

-- Strictly ascending, from `low` on.
abbrev pub StrictFrom : ℕ → List ℕ → Type 0
StrictFrom low [] = Unit
StrictFrom low (k ∷ ks) = (low ≤ k) × StrictFrom (k + 1) ks

abbrev pub has_key : List ℕ → ℕ → Bool
has_key [] h = false
has_key (k ∷ ks) h = if eqb k h then true else has_key ks h

strict_above : (low : ℕ) (ks : List ℕ) (h : ℕ) → StrictFrom low ks → h < low → has_key ks h ≡ false
strict_above low [] h s lt = refl
strict_above low (k ∷ ks) h s lt = ground (arith, strict_above (k + 1) ks h s.1)

pub insort-StrictFrom :
    (low h : ℕ) (ks : List ℕ)
    → low ≤ h
    → has_key ks h ≡ false
    → StrictFrom low ks
    → StrictFrom low (insort h ks)
unfolding insort bisect_right
insort-StrictFrom low h [] le new s = (le, tt)
insort-StrictFrom low h (k ∷ ks) le new s = ground (arith, insort-StrictFrom (k + 1) h ks)

pub has_key-insort :
    (h j : ℕ) (ks : List ℕ) → has_key (insort h ks) j ≡ (if eqb h j then true else has_key ks j)
unfolding insort bisect_right
has_key-insort h j [] = refl
has_key-insort h j (k ∷ ks) = ground (arith, has_key-insort h j ks)

drop_key-cons :
    (h k : ℕ) (ks : List ℕ)
    → drop_key h (k ∷ ks) ≡ (if ltb k h then k ∷ drop_key h ks else if eqb k h then ks else k ∷ ks)
unfolding drop_key bisect_left
drop_key-cons h k ks = elim (Bool-cases (ltb k h)) [
  | inr later ↦ rw (later, drop_key, bisect_left, later) refl
  | inl earlier ↦ elim (Option-cases (get_elem? ks (bisect_left ks h))) [
    | inl missing ↦ rw (earlier, drop_key, missing) refl
    | inr (j, found) ↦ elim (Bool-cases (eqb j h)) [
      | inl same ↦ rw (earlier, drop_key, found, same, bisect_left, earlier) refl
      | inr other ↦ rw (earlier, drop_key, found, other) refl
    ]
  ]
]

StrictFrom-weaken :
    (low high : ℕ) (ks : List ℕ) → low ≤ high → StrictFrom high ks → StrictFrom low ks
StrictFrom-weaken low high [] le s = tt
StrictFrom-weaken low high (k ∷ ks) le s = (omega (arith, s.0), s.1)

pub drop_key-StrictFrom :
    (low h : ℕ) (ks : List ℕ) → StrictFrom low ks → StrictFrom low (drop_key h ks)
drop_key-StrictFrom low h [] s = unfold drop_key in s
drop_key-StrictFrom low h (k ∷ ks) s = rw (drop_key-cons h k ks) (
    if-intro (StrictFrom low) (ltb k h) (s.0, drop_key-StrictFrom (k + 1) h ks s.1)
      (if-intro (StrictFrom low) (eqb k h)
        (StrictFrom-weaken low (k + 1) ks (omega (arith, s.0)) s.1) s))

pub has_key-drop_key :
    (low h j : ℕ) (ks : List ℕ)
    → StrictFrom low ks
    → has_key (drop_key h ks) j ≡ (if eqb h j then false else has_key ks j)
has_key-drop_key low h j [] s = unfold drop_key in ground arith
has_key-drop_key low h j (k ∷ ks) s = rw (drop_key-cons h k ks) (
    ground (
      arith,
      has_key-drop_key (k + 1) h j ks s.1,
      strict_above (k + 1) ks j s.1,
      strict_above (k + 1) ks h s.1,
    ))

-- No position twice.
abbrev pub OnceAt : List Point → Type 0
OnceAt [] = Unit
OnceAt ((p, w) ∷ ps) = (has_at ps p ≡ false) × OnceAt ps

pub has_at-delete_at :
    (h j : ℕ) (ps : List Point)
    → OnceAt ps
    → has_at (delete_at h ps) j ≡ (if eqb h j then false else has_at ps j)
unfolding has_at delete_at
has_at-delete_at h j [] once = ground arith
has_at-delete_at h j ((p, w) ∷ ps) once = ground (arith, has_at-delete_at h j ps once.1, once.0)

pub delete_at-OnceAt : (h : ℕ) (ps : List Point) → OnceAt ps → OnceAt (delete_at h ps)
unfolding delete_at
delete_at-OnceAt h [] once = tt
delete_at-OnceAt h ((p, w) ∷ ps) once =
    if-intro OnceAt (eqb p h) once.1
      (ground (arith, has_at-delete_at h p ps once.1, once.0), delete_at-OnceAt h ps once.1)

pub get_at_of-has_at :
    (ps : List Point) (h : ℕ) → has_at ps h ≡ true → (w : String) × (get_at ps h ≡ some w)
unfolding has_at get_at
get_at_of-has_at [] h is_in = ground arith
get_at_of-has_at ((p, w) ∷ ps) h is_in = elim (Bool-cases (eqb p h)) [
  | inl here ↦ (w, rw (here) refl)
  | inr there ↦ (let (v, found) = get_at_of-has_at ps h (ground arith) in (v, rw (there) found))
]
