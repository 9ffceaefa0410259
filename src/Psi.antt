-- ===== src/Psi.antt =====
-- `PsiData` of include/governor/psi_poller.h.
pub mod Parse
pub mod Rendered
pub mod Poller
use memory_aware_governor.Base.{ℕ}

pub record PsiData (D : Type 0) : Type 0 where
  pub some_avg10 : D
  pub some_avg60 : D
  pub some_avg300 : D
  pub some_total : ℕ
  pub full_avg10 : D
  pub full_avg60 : D
  pub full_avg300 : D
  pub full_total : ℕ
