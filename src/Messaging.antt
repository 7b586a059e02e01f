-- ===== src/Messaging.antt =====
-- include/trading/messaging/queue_client.hpp and src/messaging/queue_client.cpp: the client of the
-- message broker. Its calls of librdkafka are the operations of the record Kafka.
pub mod Address
pub mod Printed
pub mod Hosts
pub mod Brokers
use live_trading_engine.Common.{
  ℕ, zero, Bool, true, false, not, ◌&&◌, ◌||◌, ltb, ◌==◌, Option, none, some, List, [], ◌∷◌, ◌++◌,
  if◌then◌else◌, Text, codes,
}
use live_trading_engine.Common.Dict.{Dict, lookup, insert, erase, keys}
use live_trading_engine.Messaging.Address.{validate_broker_address}

pub record Message : Type 0 where
  pub topic : Text
  pub key : Text
  pub message_value : Text
  pub timestamp : ℕ
  pub headers : Dict Text

-- What librdkafka does to its state K. An operation that can fail tells what went wrong.
pub record Kafka {ℓ} (K : Type ℓ) : Type ℓ where
  -- the topic, the payload, and the key unless it is empty
  pub produce : Text → Text → Option Text → K → Option Text × K
  pub poll : K → K
  pub create_producer : Text → K → Option Text × K
  pub create_consumer : Text → K → Option Text × K
  pub subscribe_topics : List Text → K → Option Text × K
  pub unsubscribe_all : K → Option Text × K
  pub close_consumer : K → K

-- Handlers act on a state S.
pub record QueueClient {ℓ κ} (K : Type ℓ) (S : Type κ) : Type (ℓ ⊔ κ) where
  pub brokers : Text
  pub connected : Bool
  pub timeout_ms : ℕ
  pub batch_size : ℕ
  pub topic_handlers : Dict (Message → S → S)
  pub has_producer : Bool
  pub has_consumer : Bool
  pub running : Bool
  pub kafka : K
  -- the errors that it logged
  pub logged : List Text

-- What a call of consume gives.
pub data Consumed : Type 0 where
  consumed : Message → Consumed
  timed_out partition_eof : Consumed
  consumer_error : Text → Consumed

-- nullptr for an empty key.
abbrev pub key_or_null : Text → Option Text
key_or_null [] = none
key_or_null (c ∷ cs) = some (c ∷ cs)

unfoldable pub validate_topic : Text → Bool
validate_topic [] = false
validate_topic (c ∷ cs) = true

-- On what a call of librdkafka comes to.
abbrev attempt {ℓ κ} : {K : Type ℓ} {R : Type κ} → Option Text × K → (Text → K → R) → (K → R) → R
attempt (some what, k) on_error on_success = on_error what k
attempt (none, k) on_error on_success = on_success k

module _ {ℓ κ} {K : Type ℓ} {S : Type κ} where
  unfoldable pub new_client : Text → K → QueueClient K S
  new_client brokers kafka = record {
    brokers = brokers;
    connected = false;
    timeout_ms = 5000;
    batch_size = 100;
    topic_handlers = [];
    has_producer = false;
    has_consumer = false;
    running = false;
    kafka = kafka;
    logged = [];
  }

  abbrev pub log_error : Text → QueueClient K S → QueueClient K S
  log_error what c = record c { logged = c.logged ++ (what ∷ []) }

  unfoldable pub is_connected : QueueClient K S → Bool
  is_connected c = c.connected

  unfoldable pub set_timeout : QueueClient K S → ℕ → QueueClient K S
  set_timeout c milliseconds = record c { timeout_ms = milliseconds }

  unfoldable pub set_batch_size : QueueClient K S → ℕ → QueueClient K S
  set_batch_size c batch_size = record c { batch_size = batch_size }

  module _ (lib : Kafka K) where
    unfoldable pub with_consumer : QueueClient K S → Bool × QueueClient K S
    with_consumer c =
        attempt (lib.create_consumer c.brokers c.kafka)
          (λ what k. (false, log_error what (record c { kafka = k })))
          (λ k.
            (true, record c { kafka = k; has_consumer = true; connected = true; running = true }))

    unfoldable pub with_producer : QueueClient K S → Bool × QueueClient K S
    with_producer c =
        attempt (lib.create_producer c.brokers c.kafka)
          (λ what k. (false, log_error what (record c { kafka = k })))
          (λ k. with_consumer (record c { kafka = k; has_producer = true }))

    unfoldable pub connect : QueueClient K S → Bool × QueueClient K S
    connect c = elim (validate_broker_address c.brokers) [
      | some what ↦
          (false, log_error (codes "Invalid broker address: " ++ c.brokers) (log_error what c))
      | none ↦ with_producer c
    ]

    -- The message thread is joined first; a handler that runs ends before.
    unfoldable pub disconnect : QueueClient K S → QueueClient K S
    disconnect c = record c {
      running = false;
      kafka = if c.has_consumer then lib.close_consumer c.kafka else c.kafka;
      has_producer = false;
      has_consumer = false;
      connected = false;
    }

    unfoldable pub publish_message : QueueClient K S → Message → Bool × QueueClient K S
    publish_message c message =
        if not c.connected || not c.has_producer
        then (false, c)
        else (attempt
            (lib.produce message.topic message.message_value (key_or_null message.key) c.kafka)
            (λ what k. (
              false,
              log_error (codes "Failed to produce message: " ++ what) (record c { kafka = k }),
            ))
            (λ k. (true, record c { kafka = lib.poll k })))

    -- `now` is the time in milliseconds.
    unfoldable pub publish : ℕ → QueueClient K S → Text → Text → Text → Bool × QueueClient K S
    unfolding publish_message
    publish now c topic key v =
        publish_message c
          (record { topic = topic; key = key; message_value = v; timestamp = now; headers = [] })

    -- The broker is told all topics that have a handler.
    unfoldable pub resubscribe : Text → QueueClient K S → Bool × QueueClient K S
    resubscribe failed c =
        attempt (lib.subscribe_topics (keys c.topic_handlers) c.kafka)
          (λ what k. (false, log_error (failed ++ what) (record c { kafka = k })))
          (λ k. (true, record c { kafka = k }))

    unfoldable pub subscribe : QueueClient K S → Text → (Message → S → S) → Bool × QueueClient K S
    subscribe c topic handler =
        if not c.connected || not c.has_consumer
        then (false, c)
        else resubscribe (codes "Failed to subscribe to topics: ")
            (record c { topic_handlers = insert topic handler c.topic_handlers })

    unfoldable pub unsubscribe_from_all : QueueClient K S → Bool × QueueClient K S
    unsubscribe_from_all c =
        attempt (lib.unsubscribe_all c.kafka)
          (λ what k. (
            false,
            log_error (codes "Failed to unsubscribe from all topics: " ++ what)
                (record c { kafka = k }),
          ))
          (λ k. (true, record c { kafka = k }))

    abbrev remaining : QueueClient K S → Dict (Message → S → S) → Bool × QueueClient K S
    remaining c [] = unsubscribe_from_all c
    remaining c (h ∷ hs) = resubscribe (codes "Failed to resubscribe to topics: ") c

    unfoldable pub unsubscribe : QueueClient K S → Text → Bool × QueueClient K S
    unsubscribe c topic = elim (lookup topic c.topic_handlers) [
      | none ↦ (false, c)
      | some h ↦
          let left = erase topic c.topic_handlers in
          let c' : QueueClient K S = record c { topic_handlers = left } in
          if not c.connected || not c.has_consumer then (true, c') else remaining c' left
    ]

  -- A round of the message thread.
  unfoldable pub process_message : QueueClient K S → Consumed → S → QueueClient K S × S
  process_message c (consumed m) s = elim (lookup m.topic c.topic_handlers) [
    | none ↦ (c, s)
    | some handler ↦ (c, handler m s)
  ]
  process_message c timed_out s = (c, s)
  process_message c partition_eof s = (c, s)
  process_message c (consumer_error what) s = (log_error (codes "Consumer error: " ++ what) c, s)

  -- The rounds of the message thread over what it consumes.
  unfoldable pub process_messages : QueueClient K S → List Consumed → S → QueueClient K S × S
  unfolding process_message
  process_messages c [] s = (c, s)
  process_messages c (m ∷ ms) s = let (c', s') = process_message c m s in process_messages c' ms s'
