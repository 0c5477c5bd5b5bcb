-- ===== src/Tcp.antt =====
-- lib/include/tcp and lib/src/tcp: the transport layer.
pub mod Intervals
pub mod Ring
pub mod Packet
pub mod Wire
pub mod Retransmission
pub mod SocketError
pub mod SendBuffer
pub mod RecvBuffer
pub mod States
pub mod Sockets
pub mod Handlers
pub mod Connections
pub mod Listeners
pub mod Stack
pub mod Transfer
mod Tests
