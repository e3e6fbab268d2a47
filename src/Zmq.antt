-- ===== src/Zmq.antt =====
-- xpyd/zmq_notifications.py: `ZmqNotificationListener`, its active requests and their counts, and
-- what each received payload does to them. A payload is what `msgspec.msgpack.decode` makes of it;
-- the socket, the task and the condition variable's wake-ups are the order of the operations.
pub mod Counts
use micro_pdproxy.Base.{
  ℕ, suc, String, Bool, true, false, Option, none, some, List, [], ◌∷◌, if◌then◌else◌, get_or_else,
  leb, contains, ◌==◌,
}
use micro_pdproxy.Base.Dict
use micro_pdproxy.Base.Dict.{Dict}

pub record ZmqNotificationListener : Type 0 where
  pub active : List String
  pub counts : Dict ℕ

-- A payload: not msgpack, not a dictionary of the type "ProxyNotif", one without a text as its
-- "req_id", or one with it.
pub data Payload : Type 0 where
  undecodable : Payload
  other_message : Payload
  no_request_id : Payload
  proxy_notif : String → Payload

unfoldable pub init : ZmqNotificationListener
init = record { active = []; counts = [] }

unfoldable pub register : String → ZmqNotificationListener → ZmqNotificationListener
register request_id l = record {
  active = if contains l.active request_id then l.active else request_id ∷ l.active;
  counts = Dict.set l.counts request_id 0;
}

-- set.discard
abbrev pub without : String → List String → List String
without a [] = []
without a (x ∷ xs) = if x == a then without a xs else x ∷ without a xs

unfoldable pub discard : String → ZmqNotificationListener → ZmqNotificationListener
discard request_id l = record {
  active = without request_id l.active;
  counts = Dict.delete l.counts request_id;
}

-- The condition that `wait` waits for.
unfoldable pub is_reached : String → ℕ → ZmqNotificationListener → Bool
is_reached request_id expected l = leb expected (get_or_else (Dict.get l.counts request_id) 0)

-- One round of `_receive`; `none` is the KeyError of `_counts[request_id] += 1`.
unfoldable pub receive : Payload → ZmqNotificationListener → Option ZmqNotificationListener
receive undecodable l = some l
receive other_message l = some l
receive no_request_id l = some l
receive (proxy_notif request_id) l =
    if contains l.active request_id
    then elim (Dict.get l.counts request_id) [
      | none ↦ none
      | some n ↦ some (record l { counts = Dict.set l.counts request_id (suc n) })
    ]
    else some l
