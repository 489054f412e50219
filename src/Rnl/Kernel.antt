-- ===== src/Rnl/Kernel.antt =====
-- The constants of the kernel's headers that fbmeshd/rnl compares with, as a parameter.
use fbmeshd.Prelude.{ℕ, Bool}

pub record Rtnl : Type 0 where
  pub rt_table_main : ℕ
  pub is_cloned : ℕ → Bool
  pub rt_scope_universe : ℕ
  pub rt_scope_link : ℕ
  pub rt_scope_nowhere : ℕ
  pub rtn_unicast : ℕ
  pub rtn_blackhole : ℕ
  pub rtn_multicast : ℕ
  pub af_unspec : ℕ
  pub af_inet : ℕ
  pub af_inet6 : ℕ
  pub af_mpls : ℕ
