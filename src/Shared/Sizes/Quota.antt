-- ===== src/Shared/Sizes/Quota.antt =====
-- The caps keep the tenant's worst case inside its ResourceQuota.
use ship_zen_gcp.Prelude.{ℕ, ◌+◌, ◌*◌, ◌≤◌, ◌≡◌, none, arith}
use ship_zen_gcp.Shared.Sizes.{Size, small, medium, large, known, sizes, scaling_problem}

-- Limits of 8 CPU and 16 GiB, as the module's docstring gives them.
abbrev pub quota_cpu : ℕ
quota_cpu = 8000

abbrev pub quota_memory : ℕ
quota_memory = 16384

-- Whatever settings `scaling_problem` accepts for two releases of one size, both at their maximum
-- during a blue-green switch, and three small previews beside them, all limits together fit in the
-- quota, of CPU and of memory.
pub switch_in_quota :
    (s : Size) (mn mx : ℕ)
    → scaling_problem (known s) mn mx ≡ none
    → (2 * (mx * (sizes s).cpu_limit) + 3 * (sizes small).cpu_limit ≤ quota_cpu)
      × (2 * (mx * (sizes s).memory_limit) + 3 * (sizes small).memory_limit ≤ quota_memory)
unfolding scaling_problem
switch_in_quota small mn mx h = ground arith
switch_in_quota medium mn mx h = ground arith
switch_in_quota large mn mx h = ground arith
