-- ===== src/Pf.antt =====
-- pkg/pf: the packet filter's address tables behind the interface `Device`.
pub mod Mock
pub mod Freebsd
pub mod Tables
use opn_box.Base.{ℕ, List, Bytes}
use opn_box.Base.Outcome.{Result}
use opn_box.Net.{Ip}

-- `Device` of pkg/pf/pf.go: a state, what an error says, and the two table operations.
pub record Device : Type 1 where
  pub State : Type 0
  pub Failure : Type 0
  pub message : Failure → Bytes
  pub add_addresses : State → Bytes → List Ip → State × Result Failure ℕ
  pub del_addresses : State → Bytes → List Ip → State × Result Failure ℕ
