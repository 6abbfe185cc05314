-- ===== src/Ucp/State.antt =====
-- src/ucp/internal.rs: `UcpState`, the states of a UCP connection. Write them behind the type's name.
pub data UcpState : Type 0 where
  none accepting connecting established : UcpState
