-- ===== src/Scheduler/Ring/Owner.antt =====
-- Consistent hashing: when a worker leaves or joins, a key changes its owner only from the worker
-- that leaves, or to the one that joins.
use micro_pdproxy.Base.{
  ℕ, ◌≡◌, ◌≢◌, ◌⊎◌, inl, inr, refl, String, true, false, not, ◌&&◌, none, some, List, [], ◌∷◌,
  arith, ◌==◌, Option-cases, string_discrete,
}
use micro_pdproxy.Scheduler.Ring.{Point, first_after, head_owner, owner, without, owns}

first_after-without :
    (a w : String) (ps : List Point) (key : ℕ)
    → w ≢ a
    → first_after ps key ≡ some w
    → first_after (without a ps) key ≡ some w
unfolding first_after without
first_after-without a w [] key n h = h
first_after-without a w ((p, x) ∷ ps) key n h = ground (arith, first_after-without a w ps key n)

first_after-without-none :
    (a : String) (ps : List Point) (key : ℕ)
    → first_after ps key ≡ none
    → first_after (without a ps) key ≡ none
unfolding first_after without
first_after-without-none a [] key h = h
first_after-without-none a ((p, x) ∷ ps) key h = ground (arith, first_after-without-none a ps key)

head_owner-without :
    (a w : String) (ps : List Point)
    → w ≢ a
    → head_owner ps ≡ some w
    → head_owner (without a ps) ≡ some w
unfolding without
head_owner-without a w [] n h = h
head_owner-without a w ((p, x) ∷ ps) n h = ground arith

-- A key whose owner is not the worker that leaves keeps its owner.
pub owner-without :
    (a w : String) (ps : List Point) (key : ℕ)
    → w ≢ a
    → owner ps key ≡ some w
    → owner (without a ps) key ≡ some w
unfolding owner
owner-without a w ps key n h = elim (Option-cases (first_after ps key)) [
  | inl past ↦ ground (arith, first_after-without-none a ps key past, head_owner-without a w ps n)
  | inr (y, found) ↦ ground (arith, first_after-without a w ps key n)
]

owns-first_after :
    (ps : List Point) (key : ℕ) (w : String) → first_after ps key ≡ some w → owns ps w ≡ true
unfolding first_after
owns-first_after [] key w h = ground arith
owns-first_after ((p, x) ∷ ps) key w h = ground (arith, owns-first_after ps key w)

owns-head_owner : (ps : List Point) (w : String) → head_owner ps ≡ some w → owns ps w ≡ true
owns-head_owner [] w h = ground arith
owns-head_owner ((p, x) ∷ ps) w h = ground arith

-- The owner of a key owns a point.
pub owns-owner : (ps : List Point) (key : ℕ) (w : String) → owner ps key ≡ some w → owns ps w ≡ true
unfolding owner
owns-owner ps key w h = elim (Option-cases (first_after ps key)) [
  | inl past ↦ ground (arith, owns-head_owner ps w)
  | inr (y, found) ↦ ground (arith, owns-first_after ps key w)
]

-- Every key has an owner, unless there is no point.
pub owner-cons :
    (p : Point) (ps : List Point) (key : ℕ) → (w : String) × (owner (p ∷ ps) key ≡ some w)
unfolding owner
owner-cons (p, x) ps key = elim (Option-cases (first_after ((p, x) ∷ ps) key)) [
  | inl past ↦ (x, rw past refl)
  | inr (y, found) ↦ (y, rw found refl)
]

-- If leaving out the points of `a` from `qs` gives `ps`, as when `a` has joined, then a key has in
-- `qs` the owner that it had in `ps`, or `a`.
pub owner_joined :
    (a w : String) (ps qs : List Point) (key : ℕ)
    → without a qs ≡ ps
    → owner qs key ≡ some w
    → (w ≡ a) ⊎ (owner ps key ≡ some w)
owner_joined a w ps qs key e h = elim (string_discrete w a) [
  | yes same ↦ inl same
  | no other ↦ inr (rw e at (owner-without a w qs key other h))
]

pub without_absent : (a : String) (ps : List Point) → owns ps a ≡ false → without a ps ≡ ps
unfolding without
without_absent a [] h = refl
without_absent a ((p, w) ∷ ps) h = ground (arith, without_absent a ps)

pub owns-without :
    (a w : String) (ps : List Point) → owns (without a ps) w ≡ (not (a == w) && owns ps w)
unfolding without
owns-without a w [] = ground arith
owns-without a w ((p, x) ∷ ps) = ground (arith, owns-without a w ps)
