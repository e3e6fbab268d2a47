-- ===== src/Streams/Releases.antt =====
-- xpyd/proxy.py: what the two generators yield and release.
use micro_pdproxy.Base.{
  ap, ℕ, zero, suc, ◌≡◌, refl, String, Bool, true, false, not, ◌&&◌, List, [], ◌∷◌, ◌++◌,
  if◌then◌else◌, length, ltb, arith,
}
use micro_pdproxy.Streams.{
  Stream, Event, chunk, prefill_released, decode_released, exhausted, failed, yield_all, append,
  decode_part, drop_first, go_on, p_first_token_generator, d_first_token_generator,
}

abbrev pub take : ℕ → List String → List String
take zero xs = []
take (suc n) [] = []
take (suc n) (x ∷ xs) = x ∷ take n xs

abbrev pub yielded : List Event → List String
yielded [] = []
yielded (chunk c ∷ es) = c ∷ yielded es
yielded (prefill_released ∷ es) = yielded es
yielded (decode_released ∷ es) = yielded es

-- How often each instance is released.
abbrev pub prefill_releases : List Event → ℕ
prefill_releases [] = 0
prefill_releases (chunk c ∷ es) = prefill_releases es
prefill_releases (prefill_released ∷ es) = suc (prefill_releases es)
prefill_releases (decode_released ∷ es) = prefill_releases es

abbrev pub decode_releases : List Event → ℕ
decode_releases [] = 0
decode_releases (chunk c ∷ es) = decode_releases es
decode_releases (prefill_released ∷ es) = decode_releases es
decode_releases (decode_released ∷ es) = suc (decode_releases es)

-- Whether the prefill stream is read to its end, before an exception or the client ends it.
abbrev pub passes : ℕ → Stream → Bool
passes asks p = not p.fails && ltb (length p.chunks) asks

decode_part_lem :
    (asks : ℕ) (cs : List String) (fails : Bool)
    → (yielded (decode_part asks cs fails) ≡ take (suc asks) cs)
      × (prefill_releases (decode_part asks cs fails) ≡ 0)
      × (decode_releases (decode_part asks cs fails) ≡ 1)
decode_part_lem asks [] fails = (refl, refl, refl)
decode_part_lem zero (c ∷ cs) fails = (refl, refl, refl)
decode_part_lem (suc asks) (c ∷ cs) fails =
    let (same, none, one) = decode_part_lem asks cs fails in (ap (λ xs. c ∷ xs) same, none, one)

-- The first part and what follows it.
abbrev both : ℕ → List String → Bool → List String → Bool → List Event
both asks ps p_fails ds d_fails =
    append (yield_all asks ps p_fails).0
      (prefill_released ∷ go_on (yield_all asks ps p_fails).1 (λ left. decode_part left ds d_fails))

both_lem :
    (asks : ℕ) (ps : List String) (p_fails : Bool) (ds : List String) (d_fails : Bool)
    → (yielded (both asks ps p_fails ds d_fails)
        ≡ take (suc asks) (ps ++ (if p_fails then [] else ds)))
      × (prefill_releases (both asks ps p_fails ds d_fails) ≡ 1)
      × (decode_releases (both asks ps p_fails ds d_fails)
          ≡ (if not p_fails && ltb (length ps) (suc asks) then 1 else 0))
both_lem asks [] true ds d_fails = (refl, refl, refl)
both_lem asks [] false ds d_fails =
    let (same, none, one) = decode_part_lem asks ds d_fails in
    (same, ap suc none, ground (arith, one))
both_lem zero (c ∷ ps) true ds d_fails = (refl, refl, refl)
both_lem zero (c ∷ ps) false ds d_fails = (refl, refl, ground arith)
both_lem (suc asks) (c ∷ ps) p_fails ds d_fails =
    let (same, one, decodes) = both_lem asks ps p_fails ds d_fails in
    (ap (λ xs. c ∷ xs) same, one, ground (arith, decodes))

-- A client that asks `asks` times gets the first `asks` chunks of the prefill stream followed, unless
-- that stream fails, by the decode stream without its first chunk. If it asks at all, the prefill
-- instance is released exactly once, and the decode instance once if the prefill stream was read to
-- its end and never if not; if it never asks, the generator releases nothing.
pub p_first_token_generator_lem :
    (asks : ℕ) (p d : Stream)
    → (yielded (p_first_token_generator asks p d)
        ≡ take asks (p.chunks ++ (if p.fails then [] else drop_first d.chunks)))
      × (prefill_releases (p_first_token_generator asks p d) ≡ (if ltb 0 asks then 1 else 0))
      × (decode_releases (p_first_token_generator asks p d) ≡ (if passes asks p then 1 else 0))
unfolding p_first_token_generator
p_first_token_generator_lem zero p d = (refl, refl, ground arith)
p_first_token_generator_lem (suc asks) p d =
    let (same, one, decodes) = both_lem asks p.chunks p.fails (drop_first d.chunks) d.fails in
    (same, ground (arith, one), decodes)

d_parts_lem :
    (asks : ℕ) (p_fails : Bool) (ds : List String) (d_fails : Bool)
    → (yielded
          (go_on (if p_fails then failed else exhausted asks) (λ left. decode_part left ds d_fails))
        ≡ take (suc asks) (if p_fails then [] else ds))
      × (prefill_releases (
            go_on
              (if p_fails then failed else exhausted asks)
              (λ left. decode_part left ds d_fails))
          ≡ 0)
      × (decode_releases (
            go_on
              (if p_fails then failed else exhausted asks)
              (λ left. decode_part left ds d_fails))
          ≡ (if p_fails then 0 else 1))
d_parts_lem asks true ds d_fails = (refl, refl, refl)
d_parts_lem asks false ds d_fails = decode_part_lem asks ds d_fails

-- A client that asks `asks` times gets the first `asks` chunks of the decode stream, none if the
-- prefill stream fails. If it asks at all, the prefill instance is released exactly once, and the
-- decode instance once unless the prefill stream fails.
pub d_first_token_generator_lem :
    (asks : ℕ) (p d : Stream)
    → (yielded (d_first_token_generator asks p d) ≡ take asks (if p.fails then [] else d.chunks))
      × (prefill_releases (d_first_token_generator asks p d) ≡ (if ltb 0 asks then 1 else 0))
      × (decode_releases (d_first_token_generator asks p d)
          ≡ (if ltb 0 asks && not p.fails then 1 else 0))
unfolding d_first_token_generator
d_first_token_generator_lem zero p d = (refl, refl, ground arith)
d_first_token_generator_lem (suc asks) p d =
    let (same, one, decodes) = d_parts_lem asks p.fails d.chunks d.fails in
    (same, ground (arith, one), ground (arith, decodes))
