-- ===== src/Ip.antt =====
-- lib/include/ip and lib/src/ip: the network layer.
pub mod Address
pub mod Rip
pub mod Routing
pub mod Datagram
mod Tests
