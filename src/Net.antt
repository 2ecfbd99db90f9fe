-- ===== src/Net.antt =====
-- The network stack, kernel/net.c: its state and what it sends (`Link`), the protocols above IPv4
-- (`Transport`), the way of a frame through the handlers (`Receive`), and the theorems. The loops
-- that wait on the timer are left out: what they wait for is a sequence of received frames.
pub mod Link
pub mod Transport
pub mod Receive
pub mod Header
pub mod Arp
pub mod Stream
mod Tests
