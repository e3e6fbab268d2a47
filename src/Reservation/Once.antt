-- ===== src/Reservation/Once.antt =====
-- xpyd/routes/completions.py: how often `_RequestReservation` releases an instance, over any
-- sequence of calls.
use micro_pdproxy.Base.{
  ℕ, String, Bool, true, false, ◌≡◌, refl, Option, none, some, List, [], ◌∷◌, ◌++◌, arith, ◌∙◌, ap,
  sym,
}
use micro_pdproxy.Reservation.{
  RequestReservation, Release, reserve, exception_handler, release_all, is_none,
}

-- A call that a route makes.
pub data Call : Type 0 where
  handle : Option String → Option String → Option ℕ → Call
  all : Call

unfoldable pub call : Call → RequestReservation → RequestReservation × List Release
call (handle prefill decode req_len) s = exception_handler prefill decode req_len s
call all s = release_all s

unfoldable pub calls : List Call → RequestReservation → RequestReservation × List Release
calls [] s = (s, [])
calls (c ∷ cs) s =
    let (s', released) = call c s in let (end, rest) = calls cs s' in (end, released ++ rest)

abbrev pub to_list : Option String → List String
to_list none = []
to_list (some a) = a ∷ []

-- The instances released on either side.
abbrev pub prefills : List Release → List String
prefills [] = []
prefills (r ∷ rs) = to_list r.prefill ++ prefills rs

abbrev pub decodes : List Release → List String
decodes [] = []
decodes (r ∷ rs) = to_list r.decode ++ decodes rs

-- What a flag says is still to release.
abbrev due : Bool → Option String → List String
due true instance = []
due false instance = to_list instance

prefills-++ : (a b : List Release) → prefills (a ++ b) ≡ prefills a ++ prefills b
prefills-++ [] b = refl
prefills-++ (r ∷ rs) b = ground (arith, prefills-++ rs b)

decodes-++ : (a b : List Release) → decodes (a ++ b) ≡ decodes a ++ decodes b
decodes-++ [] b = refl
decodes-++ (r ∷ rs) b = ground (arith, decodes-++ rs b)

-- The instances of the reservation, which no call changes.
abbrev Holds : Option String → Option String → RequestReservation → Type 0
Holds p d s = (s.prefill_instance ≡ p) × (s.decode_instance ≡ d)

call-Holds :
    (c : Call) (s : RequestReservation) (p d : Option String) → Holds p d s → Holds p d (call c s).0
unfolding call exception_handler release_all
call-Holds (handle prefill decode req_len) s p d (hp, hd) = ground arith
call-Holds all s p d (hp, hd) = ground arith

-- What is released and what is still due are together what was due.
call-due :
    (c : Call) (s : RequestReservation) (p d : Option String)
    → Holds p d s
    → (prefills (call c s).1 ++ due (call c s).0.prefill_released p ≡ due s.prefill_released p)
      × (decodes (call c s).1 ++ due (call c s).0.decode_released d ≡ due s.decode_released d)
unfolding call exception_handler release_all
call-due (handle prefill decode req_len) s p d (hp, hd) = ground arith
call-due all s p d (hp, hd) = ground arith

all_due :
    (s : RequestReservation) (p d : Option String)
    → Holds p d s
    → (due (release_all s).0.prefill_released p ≡ [])
      × (due (release_all s).0.decode_released d ≡ [])
unfolding exception_handler release_all
all_due s p d (hp, hd) = ground arith

left_nil : (a b : List String) → a ++ b ≡ [] → (a ≡ []) × (b ≡ [])
left_nil [] b h = (refl, h)
left_nil (x ∷ xs) b h = ground arith

++-assoc : (a b c : List String) → (a ++ b) ++ c ≡ a ++ (b ++ c)
++-assoc [] b c = refl
++-assoc (x ∷ a) b c = ground (arith, ++-assoc a b c)

calls-due :
    (cs : List Call) (s : RequestReservation) (p d : Option String)
    → Holds p d s
    → (prefills (calls cs s).1 ++ due (calls cs s).0.prefill_released p ≡ due s.prefill_released p)
      × (decodes (calls cs s).1 ++ due (calls cs s).0.decode_released d ≡ due s.decode_released d)
unfolding calls
calls-due [] s p d held = (refl, refl)
calls-due (c ∷ cs) s p d held =
    let (one, other) = call-due c s p d held in
    let (ones, others) = calls-due cs (call c s).0 p d (call-Holds c s p d held) in
    (
      rw (prefills-++ (call c s).1 (calls cs (call c s).0).1, ++-assoc, ones) one,
      rw (decodes-++ (call c s).1 (calls cs (call c s).0).1, ++-assoc, others) other,
    )

-- Nothing is due once a `release_all` has run.
spent :
    (before after : List Call) (s : RequestReservation) (p d : Option String)
    → Holds p d s
    → (due (calls (before ++ (all ∷ after)) s).0.prefill_released p ≡ [])
      × (due (calls (before ++ (all ∷ after)) s).0.decode_released d ≡ [])
unfolding calls call
spent [] after s p d held =
    let (one, other) = calls-due after (release_all s).0 p d (call-Holds all s p d held) in
    let (no_p, no_d) = all_due s p d held in
    (
      (left_nil (prefills (calls after (release_all s).0).1)
          (due (calls after (release_all s).0).0.prefill_released p) (one ∙ no_p)).1,
      (left_nil (decodes (calls after (release_all s).0).1)
          (due (calls after (release_all s).0).0.decode_released d) (other ∙ no_d)).1,
    )
spent (c ∷ before) after s p d held = spent before after (call c s).0 p d (call-Holds c s p d held)

++-nil : (a : List String) → a ++ [] ≡ a
++-nil [] = refl
++-nil (x ∷ a) = ap (λ xs. x ∷ xs) (++-nil a)

fresh_due : (o : Option String) → due (is_none o) o ≡ to_list o
fresh_due none = refl
fresh_due (some a) = refl

-- In any sequence of calls that has a `release_all` in it, each instance of the reservation is
-- released exactly once, and no other instance is released.
pub released_once :
    (prefill decode : Option String) (len : ℕ) (before after : List Call)
    → (prefills (calls (before ++ (all ∷ after)) (reserve prefill decode len)).1 ≡ to_list prefill)
      × (decodes (calls (before ++ (all ∷ after)) (reserve prefill decode len)).1 ≡ to_list decode)
unfolding reserve
released_once prefill decode len before after =
    let cs = before ++ (all ∷ after) in
    let s = reserve prefill decode len in
    let (p, d) = calls-due cs s prefill decode (refl, refl) in
    let (no_p, no_d) = spent before after s prefill decode (refl, refl) in
    (
      sym (++-nil (prefills (calls cs s).1))
          ∙ (ap (λ xs. prefills (calls cs s).1 ++ xs) (sym no_p) ∙ (p ∙ fresh_due prefill)),
      sym (++-nil (decodes (calls cs s).1))
          ∙ (ap (λ xs. decodes (calls cs s).1 ++ xs) (sym no_d) ∙ (d ∙ fresh_due decode)),
    )
