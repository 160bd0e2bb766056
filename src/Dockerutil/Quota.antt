-- ===== src/Dockerutil/Quota.antt =====
-- `SetContainerQuota` of dockerutil/container.go, which writes the CPU quota for the inner container.
--
-- `write` is what `afero.WriteFile` answers for a path and a content; the files written are the first
-- component of the result.
mod Line
pub mod RoundTrip
mod Tests
use envbox.Prelude.{
  ℕ, List, [], ◌∷◌, ◌++◌, Bytes, codes, Option, none, some, Error, wrap, Result, ok, err, ℤ, pos,
  negsuc, itoa, join_path,
}
use envbox.Xunix.Sys.{CpuQuota, CGroup, cgroup_v1, cgroup_v2}

-- The content of cpu.max: a negative quota is no limit.
pub cpu_max_content : CpuQuota → Bytes
cpu_max_content q = elim q.quota [
  | negsuc n ↦ codes "max " ++ itoa q.period ++ codes "\n"
  | pos n ↦ itoa (pos n) ++ codes " " ++ itoa q.period ++ codes "\n"
]

abbrev pub Writes : Type 0
Writes = List (Bytes × Bytes) × Option Error

module _ (write : Bytes → Bytes → Option Error) where
  -- One write, and what follows if it succeeds.
  write_file : Bytes → Bytes → Bytes → Writes → Writes
  write_file what path content next = elim (write path content) [
    | none ↦ ((path, content) ∷ next.0, next.1)
    | some e ↦ ([], some (wrap (codes "write " ++ what ++ codes " to inner container cgroup") e))
  ]

  set_container_quota_v2 : Bytes → CpuQuota → Writes
  unfolding write_file
  set_container_quota_v2 id q =
      write_file (codes "cpu.max")
        (join_path
          ((codes "/sys/fs/cgroup/docker/" ++ id ++ codes "/init.scope/") ∷ codes "cpu.max" ∷ []))
        (cpu_max_content q) ([], none)

  set_container_quota_v1 : Bytes → CpuQuota → Writes
  unfolding write_file
  set_container_quota_v1 id q =
      let base =
        codes "/sys/fs/cgroup/cpu,cpuacct/docker/" ++ id ++ codes "/syscont-cgroup-root/" in
      write_file (codes "cpu.cfs_period_us") (join_path (base ∷ codes "cpu.cfs_period_us" ∷ []))
        (itoa q.period)
        (write_file (codes "cpu.cfs_quota_us") (join_path (base ∷ codes "cpu.cfs_quota_us" ∷ []))
          (itoa q.quota) ([], none))

  pub set_container_quota : Bytes → CpuQuota → Writes
  unfolding set_container_quota_v1 set_container_quota_v2
  set_container_quota id q = elim q.cgroup [
    | cgroup_v1 ↦ set_container_quota_v1 id q
    | cgroup_v2 ↦ set_container_quota_v2 id q
  ]
