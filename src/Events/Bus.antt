-- ===== src/Events/Bus.antt =====
-- The type `Bus` of kv-store/internal/events/events.go. A subscriber is known by the number under
-- which its channel was made; `channels` holds all channels that there ever were. `Publish` is in
-- two parts, since it sends without the lock. A result `none` is a panic.
pub mod Recent
pub mod Sends
mod Examples
use distributed_fault_tolera.Prelude.{
  ℕ, ◌+◌, ◌-◌, List, [], ◌∷◌, ◌++◌, Bool, true, false, Option, none, some, ltb, ◌==◌, if◌then◌else◌,
  length, drop,
}
use distributed_fault_tolera.Events.{Event}

pub record Channel : Type 0 where
  pub buffer : List Event
  pub closed : Bool

pub record Bus : Type 0 where
  pub subscribers : List ℕ
  pub recent : List Event
  pub max_recent : ℕ
  pub channels : ℕ → Channel
  pub made : ℕ

unfoldable pub set_channel : ℕ → Channel → Bus → Bus
set_channel sub c b = record b { channels = λ i. if sub == i then c else b.channels i }

abbrev pub empty_channel : Channel
empty_channel = record { buffer = []; closed = false }

unfoldable pub new_bus : Bus
new_bus = record {
  subscribers = [];
  recent = [];
  max_recent = 1000;
  channels = λ i. empty_channel;
  made = 0;
}

unfoldable pub subscribe : Bus → Bus × ℕ
unfolding set_channel
subscribe b = (
  set_channel b.made empty_channel
      (record b { subscribers = b.subscribers ++ (b.made ∷ []); made = b.made + 1 }),
  b.made,
)

-- The list without the first subscriber that is `sub`, if there is one.
unfoldable pub remove_first : ℕ → List ℕ → Option (List ℕ)
remove_first sub [] = none
remove_first sub (s ∷ subs) =
    let rest = remove_first sub subs in
    if s == sub then some subs else elim rest [ none ↦ none | some others ↦ some (s ∷ others) ]

-- Closing a channel twice panics.
unfoldable pub close : Channel → Option Channel
close c = if c.closed then none else some (record c { closed = true })

unfoldable pub unsubscribe : ℕ → Bus → Option Bus
unsubscribe sub b = elim (remove_first sub b.subscribers) [
  | none ↦ some b
  | some others ↦ elim (close (b.channels sub)) [
    | none ↦ none
    | some c ↦ some (set_channel sub c (record b { subscribers = others }))
  ]
]

-- The zero time stands for no time.
unfoldable pub stamp : ℕ → Event → Event
stamp now e = if e.timestamp == 0 then record e { timestamp = now } else e

unfoldable pub trim : ℕ → List Event → List Event
trim max events = if ltb max (length events) then drop (length events - max) events else events

-- `Publish` while it holds the lock: the bus, and the event and the subscribers to send it to.
unfoldable pub publish_recent : ℕ → Event → Bus → Bus × Event × List ℕ
publish_recent now e b =
    let stamped = stamp now e in
    (record b { recent = trim b.max_recent (b.recent ++ (stamped ∷ [])) }, stamped, b.subscribers)

-- A send that does not wait: a full buffer drops the event, and a closed channel panics.
unfoldable pub send : Event → Channel → Option Channel
send e c =
    if c.closed
    then none
    else if ltb (length c.buffer) 256
    then some (record c { buffer = c.buffer ++ (e ∷ []) })
    else some c

-- The rest of `Publish`: the loop over the copy of the subscribers.
unfoldable pub send_all : Event → List ℕ → Bus → Option Bus
send_all e [] b = some b
send_all e (sub ∷ subs) b = elim (send e (b.channels sub)) [
  | none ↦ none
  | some c ↦ send_all e subs (set_channel sub c b)
]

-- `Publish` with nothing in between.
unfoldable pub publish : ℕ → Event → Bus → Option Bus
publish now e b = let (b', stamped, subs) = publish_recent now e b in send_all stamped subs b'
