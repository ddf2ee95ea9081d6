-- ===== src/External/Rpc.antt =====
-- A contract call over JSON-RPC, bounded by `tokio::time::timeout`: past its bound, with an error of
-- the crate `alloy`, or with an answer.
pub data Reply (E A : Type 0) : Type 0 where
  elapsed : Reply E A
  failed : E → Reply E A
  returned : A → Reply E A
