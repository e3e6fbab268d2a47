-- ===== src/Zmq/Counts.antt =====
-- xpyd/zmq_notifications.py: what the counts are.
use micro_pdproxy.Base.{
  ℕ, suc, ◌≡◌, refl, String, true, false, Option, none, some, List, [], ◌∷◌, if◌then◌else◌,
  contains, ◌==◌, arith, Option-cases, inl, inr, Distinct, ap, ◌∙◌,
}
use micro_pdproxy.Base.Dict
use micro_pdproxy.Base.Dict.{
  Dict, has, get-set, has-set, get-delete, set-Distinct, delete-Distinct, has-eq-contains,
  not-has_of-get, has_of-get,
}
use micro_pdproxy.Zmq.{
  ZmqNotificationListener, Payload, undecodable, other_message, no_request_id, proxy_notif,
  register, discard, receive, without,
}

-- The operations, in the order in which the event loop runs them.
pub data Event : Type 0 where
  registered : String → Event
  discarded : String → Event
  received : Payload → Event

unfoldable pub step : Event → ZmqNotificationListener → Option ZmqNotificationListener
step (registered request_id) l = some (register request_id l)
step (discarded request_id) l = some (discard request_id l)
step (received payload) l = receive payload l

unfoldable pub run : List Event → ZmqNotificationListener → Option ZmqNotificationListener
run [] l = some l
run (e ∷ es) l = elim (step e l) [ none ↦ none | some l' ↦ run es l' ]

-- The count of a request by the events alone: none before it is registered or after it is
-- discarded, and otherwise the notifications since then.
abbrev pub counted : Event → String → Option ℕ → Option ℕ
counted (registered i) k n = if i == k then some 0 else n
counted (discarded i) k n = if i == k then none else n
counted (received undecodable) k n = n
counted (received other_message) k n = n
counted (received no_request_id) k n = n
counted (received (proxy_notif i)) k none = none
counted (received (proxy_notif i)) k (some n) = if i == k then some (suc n) else some n

abbrev pub counted_all : List Event → String → Option ℕ → Option ℕ
counted_all [] k n = n
counted_all (e ∷ es) k n = counted_all es k (counted e k n)

-- The active requests are those with a count, each once.
abbrev pub IsValid : ZmqNotificationListener → Type 0
IsValid l = ((k : String) → contains l.active k ≡ has l.counts k) × Distinct (Dict.keys l.counts)

abbrev Follows : Event → ZmqNotificationListener → ZmqNotificationListener → Type 0
Follows e l l' =
    IsValid l' × ((k : String) → Dict.get l'.counts k ≡ counted e k (Dict.get l.counts k))

contains-without :
    (a k : String) (xs : List String)
    → contains (without a xs) k ≡ (if a == k then false else contains xs k)
contains-without a k [] = ground arith
contains-without a k (x ∷ xs) = ground (arith, contains-without a k xs)

has-delete :
    (d : Dict ℕ) (a k : String)
    → Distinct (Dict.keys d)
    → has (Dict.delete d a) k ≡ (if a == k then false else has d k)
unfolding Dict.delete has
has-delete [] a k once = ground arith
has-delete ((j, n) ∷ d) a k once = ground (arith, has-delete d a k once.1, has-eq-contains d j)

counted_unknown :
    (i k : String) (n : Option ℕ)
    → ((i == k) ≡ true → n ≡ none)
    → n ≡ counted (received (proxy_notif i)) k n
counted_unknown i k none h = refl
counted_unknown i k (some n) h = ground (arith, h)

counted_known :
    (i k : String) (m : ℕ) (n : Option ℕ)
    → ((i == k) ≡ true → n ≡ some m)
    → (if i == k then some (suc m) else n) ≡ counted (received (proxy_notif i)) k n
counted_known i k m none h = ground (arith, h)
counted_known i k m (some n) h = ground (arith, h)

step_lem :
    (e : Event) (l : ZmqNotificationListener)
    → IsValid l
    → (l' : ZmqNotificationListener) × (step e l ≡ some l') × Follows e l l'
unfolding step register discard receive
step_lem (registered i) l (same, once) = (
  register i l,
  refl,
  (
    (λ k. ground (arith, same k, same i, has-set l.counts i k 0), set-Distinct l.counts i 0 once),
    λ k. get-set l.counts i k 0,
  ),
)
step_lem (discarded i) l (same, once) = (
  discard i l,
  refl,
  (
    (
      λ k. ground (arith, same k, contains-without i k l.active, has-delete l.counts i k once),
      delete-Distinct l.counts i once,
    ),
    λ k. get-delete l.counts i k once,
  ),
)
step_lem (received undecodable) l v = (l, refl, (v, λ k. refl))
step_lem (received other_message) l v = (l, refl, (v, λ k. refl))
step_lem (received no_request_id) l v = (l, refl, (v, λ k. refl))
step_lem (received (proxy_notif i)) l (same, once) = elim (Option-cases (Dict.get l.counts i)) [
  | inl missing ↦
      (let out : contains l.active i ≡ false = same i ∙ not-has_of-get l.counts i missing in
        (
          l,
          rw (out) refl,
          (
            (same, once),
            λ k. counted_unknown i k (Dict.get l.counts k) (λ eq. ground (arith, missing)),
          ),
        ))
  | inr (n, found) ↦
      (let is_in : contains l.active i ≡ true = same i ∙ has_of-get l.counts i n found in
        (
          record l { counts = Dict.set l.counts i (suc n) },
          rw (is_in, found) refl,
          (
            (
              λ k. ground (arith, same k, is_in, has-set l.counts i k (suc n)),
              set-Distinct l.counts i (suc n) once,
            ),
            λ k.
                get-set l.counts i k (suc n)
                ∙ counted_known i k n (Dict.get l.counts k) (λ eq. ground (arith, found)),
          ),
        ))
]

-- From a state in which exactly the active requests have a count, any sequence of registrations,
-- discards and payloads runs without a KeyError to such a state, and each request's count is none
-- before its registration and after its discard, and else the number of its notifications since.
pub run-counted :
    (es : List Event) (l : ZmqNotificationListener)
    → IsValid l
    → (l' : ZmqNotificationListener) × (run es l ≡ some l')
      × IsValid l'
      × ((k : String) → Dict.get l'.counts k ≡ counted_all es k (Dict.get l.counts k))
unfolding run
run-counted [] l v = (l, refl, v, λ k. refl)
run-counted (e ∷ es) l v =
    let (l1, ran, (v1, counts1)) = step_lem e l v in
    let (l2, rest, v2, counts2) = run-counted es l1 v1 in
    (l2, rw (ran, run) rest, v2, λ k. counts2 k ∙ ap (counted_all es k) (counts1 k))
