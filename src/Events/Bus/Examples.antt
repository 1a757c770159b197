-- ===== src/Events/Bus/Examples.antt =====
-- The theorems about the bus at one subscriber and one event.
use distributed_fault_tolera.Prelude.{
  ℕ, ◌≤◌, [], ◌∷◌, true, false, none, some, ◌≡◌, refl, arith, length, pos, All,
}
use distributed_fault_tolera.Events.{Event, node_stopped, node_was_stopped}
use distributed_fault_tolera.Events.Bus.{
  Bus, new_bus, subscribe, unsubscribe, remove_first, close, set_channel, publish_recent, publish,
  send_all,
}
use distributed_fault_tolera.Events.Bus.Recent.{record_all, newest, stamps, record_all-recent}
use distributed_fault_tolera.Events.Bus.Sends.{publish-Sent, unsubscribe-panics}

abbrev stopped_event : Event
stopped_event = record {
  timestamp = 0;
  node_id = pos 1;
  kind = node_stopped;
  term = 3;
  message = node_was_stopped;
  peer_id = pos 2;
  log_index = 0;
}

abbrev one_subscriber : Bus
one_subscriber = (subscribe new_bus).0

record_all-recent_example :
    (record_all ((5, stopped_event) ∷ (6, stopped_event) ∷ []) new_bus).recent
    ≡ newest 1000 (stamps ((5, stopped_event) ∷ (6, stopped_event) ∷ []))
record_all-recent_example = record_all-recent ((5, stopped_event) ∷ (6, stopped_event) ∷ [])

one_subscriber-opened :
    All (λ s. (one_subscriber.channels s).closed ≡ false) one_subscriber.subscribers
unfolding subscribe new_bus
one_subscriber-opened = (refl, tt)

one_subscriber-small : (i : ℕ) → length (one_subscriber.channels i).buffer ≤ 256
unfolding subscribe new_bus
one_subscriber-small i = ground arith

publish-Sent_example :
    (b' : Bus) × (publish 5 stopped_event one_subscriber ≡ some b')
    × (b'.subscribers ≡ one_subscriber.subscribers)
    × (b'.recent ≡ (publish_recent 5 stopped_event one_subscriber).0.recent)
    × ((i : ℕ) → (one_subscriber.channels i).closed ≡ false → (b'.channels i).closed ≡ false)
    × ((i : ℕ) → length (b'.channels i).buffer ≤ 256)
publish-Sent_example =
    publish-Sent 5 stopped_event one_subscriber one_subscriber-opened one_subscriber-small

abbrev recorded : Bus
recorded = (publish_recent 5 stopped_event one_subscriber).0

abbrev without_subscriber : Bus
without_subscriber =
    set_channel 0 (record { buffer = []; closed = true }) (record recorded { subscribers = [] })

unsubscribe-recorded : unsubscribe 0 recorded ≡ some without_subscriber
unfolding unsubscribe subscribe new_bus publish_recent remove_first close
unsubscribe-recorded = refl

unsubscribe-panics_example :
    send_all
      (publish_recent 5 stopped_event one_subscriber).1
      (publish_recent 5 stopped_event one_subscriber).2
      without_subscriber
    ≡ none
unfolding subscribe new_bus
unsubscribe-panics_example =
    unsubscribe-panics 5 stopped_event one_subscriber without_subscriber 0 0 refl
      unsubscribe-recorded
