-- ===== src/Broker.antt =====
-- src/apexpulse/broker: the transport between producers and consumers.
pub mod Memory
