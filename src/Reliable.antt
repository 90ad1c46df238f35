-- ===== src/Reliable.antt =====
-- The reliability layer: DelegateMQ/extras/util/TransportMonitor.h, RetryMonitor.h and
-- ReliableTransport.h, one component for each class.
pub mod Monitor
pub mod Retry
pub mod Pending
pub mod Tracked
pub mod Budget
pub mod Calls
pub mod Failure
pub mod Drain
