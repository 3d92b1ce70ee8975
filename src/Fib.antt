-- ===== src/Fib.antt =====
-- MulticastFIB of include/mcastFib.h and src/common/mcastFib.cpp: the state that elastic multicast
-- keeps of a flow, with its token buckets and ages, on a clock of 32-bit ticks of a microsecond.
pub mod Ticks
pub mod Activity
pub mod Bucket
pub mod Relay
pub mod Entry
pub mod Lists
pub mod Flows
mod Tests
