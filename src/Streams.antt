-- ===== src/Streams.antt =====
-- xpyd/proxy.py: `P_first_token_generator` and `D_first_token_generator`, which join the stream of
-- the prefill instance and that of the decode instance, and release each instance behind its own.
-- A generator runs only as far as its client asks: `asks` is how often the client asks for a chunk
-- before it closes the generator, and a generator that is never asked never starts.
pub mod Releases
use micro_pdproxy.Base.{ℕ, zero, suc, String, Bool, true, false, List, [], ◌∷◌, if◌then◌else◌}

-- The chunks of a stream, and whether an exception follows them.
pub record Stream : Type 0 where
  pub chunks : List String
  pub fails : Bool

pub data Event : Type 0 where
  chunk : String → Event
  prefill_released : Event
  decode_released : Event

-- How a loop over a stream ends: at the end of the stream, with the asks that are left besides the
-- one to answer, or by an exception of the stream, or by the client's closing the generator.
pub data Ending : Type 0 where
  exhausted : ℕ → Ending
  failed : Ending
  closed : Ending

-- The loop that yields every chunk, with an ask to answer and `asks` more behind it.
abbrev pub yield_all : ℕ → List String → Bool → List Event × Ending
yield_all asks [] fails = ([], if fails then failed else exhausted asks)
yield_all zero (c ∷ cs) fails = (chunk c ∷ [], closed)
yield_all (suc asks) (c ∷ cs) fails =
    let (events, ending) = yield_all asks cs fails in (chunk c ∷ events, ending)

abbrev append : List Event → List Event → List Event
append [] ys = ys
append (x ∷ xs) ys = x ∷ append xs ys

-- The second part of both generators: its `finally` releases the decode instance.
abbrev pub decode_part : ℕ → List String → Bool → List Event
decode_part asks chunks fails = append (yield_all asks chunks fails).0 (decode_released ∷ [])

-- The first chunk of the decode stream is skipped.
abbrev pub drop_first : List String → List String
drop_first [] = []
drop_first (c ∷ cs) = cs

-- What follows the first part's `finally`: nothing where an exception goes through it.
abbrev pub go_on : Ending → (ℕ → List Event) → List Event
go_on (exhausted asks) f = f asks
go_on failed f = []
go_on closed f = []

unfoldable pub p_first_token_generator : ℕ → Stream → Stream → List Event
p_first_token_generator zero p d = []
p_first_token_generator (suc asks) p d =
    let (events, ending) = yield_all asks p.chunks p.fails in
    append events
      (prefill_released ∷ go_on ending (λ left. decode_part left (drop_first d.chunks) d.fails))

-- The prefill stream is read to its end and none of it is yielded.
unfoldable pub d_first_token_generator : ℕ → Stream → Stream → List Event
d_first_token_generator zero p d = []
d_first_token_generator (suc asks) p d =
    prefill_released
    ∷ go_on (if p.fails then failed else exhausted asks) (λ left. decode_part left d.chunks d.fails)
