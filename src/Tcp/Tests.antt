-- ===== src/Tcp/Tests.antt =====
-- The theorems on the code of lib/include/tcp and lib/src/tcp at concrete inputs.
mod Buffers
mod Queues
mod Sessions
mod Tables
mod Transfers
mod Connects
