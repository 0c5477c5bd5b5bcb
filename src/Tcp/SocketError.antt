-- ===== src/Tcp/SocketError.antt =====
-- lib/include/tcp/socket_error.hpp, and the `tl::expected` values of the socket calls.

pub data SocketError : Type 0 where
  closing timeout reset conn_not_exist duplicate_socket no_resources op_not_allowed nyi :
      SocketError

-- What a call that can block comes back with: `waits` means that it goes on waiting.
pub data Outcome {ℓ} (A : Type ℓ) : Type ℓ where
  waits : Outcome A
  value : A → Outcome A
  error : SocketError → Outcome A
