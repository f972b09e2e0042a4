-- ===== src/Runtime/Cpus.antt =====
-- The thread count of `available_cpus`, api/services/runtime.py.
use ml_engineer_challenge_so.Prelude.{
  ℕ, min, max, ◌≤◌, ◌≡◌, arith, Option, none, some, ok, >>=-eq-ok,
}
use ml_engineer_challenge_so.Runtime.{Cgroup, available_cpus, cgroup_cpu_quota, within}

within-bounds :
    (affinity : ℕ) (c : Cgroup) (n : ℕ) (quota : Option ℕ)
    → cgroup_cpu_quota c ≡ ok quota
    → max 1 (within (max affinity 1) quota) ≡ n
    → (1 ≤ n) × (n ≤ max 1 affinity) × ((q : ℕ) → cgroup_cpu_quota c ≡ ok (some q) → n ≤ max 1 q)
within-bounds affinity c n none read e =
    let same : max 1 (max affinity 1) ≡ n = cc in (omega arith, omega arith, λ q h. absurd (cc))
within-bounds affinity c n (some q) read e =
    let same : max 1 (min (max affinity 1) q) ≡ n = cc in
    (omega arith, omega arith, λ r h. let eq : q ≡ r = cc in omega arith)

-- The processor count is at least one and at most the affinity, where that is not zero, and a
-- quota that was read bounds it too.
pub available_cpus-bounds :
    (affinity : ℕ) (c : Cgroup) (n : ℕ)
    → available_cpus affinity c ≡ ok n
    → (1 ≤ n) × (n ≤ max 1 affinity) × ((q : ℕ) → cgroup_cpu_quota c ≡ ok (some q) → n ≤ max 1 q)
unfolding available_cpus
available_cpus-bounds affinity c n h =
    let (quota, read, rest) = >>=-eq-ok (cgroup_cpu_quota c) _ h in
    within-bounds affinity c n quota read (cc)
