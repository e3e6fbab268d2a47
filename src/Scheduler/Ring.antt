-- ===== src/Scheduler/Ring.antt =====
-- What a consistent hash ring promises, for the two rings of xpyd/scheduler (consistent_hash.py and
-- cache_aware.py): points on a circle, each owned by a worker, in ascending order of their
-- positions. This file has the operations on points that both specifications use, and `bisect`.
pub mod Owner
use micro_pdproxy.Base.{
  ℕ, ◌≤◌, zero, suc, String, Bool, true, false, Option, none, some, List, [], ◌∷◌, ltb, leb, ◌==◌,
  if◌then◌else◌,
}

-- bisect.bisect_left(keys, h) on an ascending list: the number of leading keys below h.
unfoldable pub bisect_left : List ℕ → ℕ → ℕ
bisect_left [] h = 0
bisect_left (k ∷ ks) h = if ltb k h then suc (bisect_left ks h) else 0

-- bisect.bisect_right(keys, h) on an ascending list: the number of leading keys up to h.
unfoldable pub bisect_right : List ℕ → ℕ → ℕ
bisect_right [] h = 0
bisect_right (k ∷ ks) h = if leb k h then suc (bisect_right ks h) else 0

abbrev pub Point : Type 0
Point = ℕ × String

-- The owner of the first point behind `key`.
unfoldable pub first_after : List Point → ℕ → Option String
first_after [] key = none
first_after ((p, w) ∷ ps) key = if leb p key then first_after ps key else some w

abbrev pub head_owner : List Point → Option String
head_owner [] = none
head_owner ((p, w) ∷ ps) = some w

abbrev pub or_else : Option String → Option String → Option String
or_else (some w) o = some w
or_else none o = o

-- The owner of `key`: of the next point clockwise, past the end of the circle the first point.
unfoldable pub owner : List Point → ℕ → Option String
unfolding first_after
owner ps key = or_else (first_after ps key) (head_owner ps)

-- The points of all workers but one.
unfoldable pub without : String → List Point → List Point
without a [] = []
without a ((p, w) ∷ ps) = if w == a then without a ps else (p, w) ∷ without a ps

-- Whether some point belongs to the worker.
abbrev pub owns : List Point → String → Bool
owns [] a = false
owns ((p, w) ∷ ps) a = if w == a then true else owns ps a

-- Ascending positions, from `low` on.
abbrev pub AscendingFrom : ℕ → List Point → Type 0
AscendingFrom low [] = Unit
AscendingFrom low ((p, w) ∷ ps) = (low ≤ p) × AscendingFrom p ps
