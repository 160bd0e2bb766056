-- ===== src/Dockerutil/Quota/Tests.antt =====
-- Runs of the quota functions, and the theorems at concrete files.
use envbox.Prelude.{
  ◌≡◌, [], ◌∷◌, ◌++◌, refl, Option, none, Bytes, Error, codes, same, Result, ok, err, pos, negsuc,
  arith, if◌then◌else◌, join_path, clean, split, join, itoa, decimal, wrap, not_exist,
}
use envbox.Xunix.Sys.{
  CpuQuota, cgroup_v1, cgroup_v2, read_cgroup_self, read_cpu_quota, read_cpu_quota_v2,
  cpu_period_path, cpu_quota_path, first_line, third_field,
}
use envbox.Dockerutil.Quota.{
  set_container_quota, cpu_max_content, set_container_quota_v1, set_container_quota_v2, write_file,
}
use envbox.Dockerutil.Quota.RoundTrip.{
  v1_file, read_cpu_quota-set_container_quota_v2, read_cpu_quota-set_container_quota_v1,
}

abbrev no_limit : CpuQuota
no_limit = record { quota = negsuc 4; period = pos 100; cgroup = cgroup_v2 }

-- The files that a process of the inner container reads.
abbrev inner_files : Bytes → Result Bytes
inner_files path =
    if same path (codes "/proc/self/cgroup")
    then ok (codes "0::/docker/c1/init.scope\n")
    else ok (codes "max 100\n")

abbrev writes : Bytes → Bytes → Option Error
writes path content = none

inner_self : read_cgroup_self inner_files ≡ ok (codes "/docker/c1/init.scope")
unfolding read_cgroup_self first_line third_field split same
inner_self = refl

read_cpu_quota-set_container_quota_v2_example :
    (codes "/sys/fs/cgroup/docker/c1/init.scope/cpu.max"
      ≡ join_path (
          (codes "/sys/fs/cgroup/docker/" ++ (codes "c1" ++ codes "/init.scope/"))
          ∷ codes "cpu.max"
          ∷ []))
    × (read_cpu_quota inner_files
        ≡ ok (record { quota = negsuc 0; period = pos 100; cgroup = cgroup_v2 }))
unfolding set_container_quota set_container_quota_v2 write_file cpu_max_content join_path clean join
    split itoa decimal same
read_cpu_quota-set_container_quota_v2_example =
    read_cpu_quota-set_container_quota_v2 writes inner_files (codes "c1")
      (codes "/sys/fs/cgroup/docker/c1/init.scope/cpu.max") (codes "max 100\n")
      (codes "/docker/c1/init.scope") (negsuc 4) (pos 100) (omega arith) (omega arith) refl
      inner_self refl

abbrev no_file : Error
no_file = record { cause = not_exist; text = codes "file does not exist" }

abbrev v1_files : Bytes → Result Bytes
v1_files path =
    if same path cpu_period_path
    then ok (codes "100")
    else if same path cpu_quota_path
    then ok (codes "-1")
    else err no_file

read_cpu_quota-set_container_quota_v1_example :
    (codes "/sys/fs/cgroup/cpu,cpuacct/docker/c1/syscont-cgroup-root/cpu.cfs_period_us"
      ≡ v1_file (codes "c1") (codes "cpu.cfs_period_us"))
    × (codes "/sys/fs/cgroup/cpu,cpuacct/docker/c1/syscont-cgroup-root/cpu.cfs_quota_us"
        ≡ v1_file (codes "c1") (codes "cpu.cfs_quota_us"))
    × (read_cpu_quota v1_files
        ≡ ok (record { quota = negsuc 0; period = pos 100; cgroup = cgroup_v1 }))
unfolding set_container_quota set_container_quota_v1 write_file join_path clean join split itoa
    decimal same read_cpu_quota_v2 read_cgroup_self wrap
read_cpu_quota-set_container_quota_v1_example =
    read_cpu_quota-set_container_quota_v1 writes v1_files (codes "c1")
      (codes "/sys/fs/cgroup/cpu,cpuacct/docker/c1/syscont-cgroup-root/cpu.cfs_period_us")
      (codes "/sys/fs/cgroup/cpu,cpuacct/docker/c1/syscont-cgroup-root/cpu.cfs_quota_us")
      (codes "100") (codes "-1")
      (wrap (codes "determine own cgroup") (wrap (codes "read /proc/self/cgroup") no_file))
      (negsuc 0) (pos 100) (omega arith) (omega arith) refl refl refl refl
