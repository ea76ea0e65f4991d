-- ===== src/PubSub.antt =====
-- patterns/pubsub.py: one publisher, any number of subscribers.
pub mod Publisher
pub mod Subscriber
pub mod Channel
