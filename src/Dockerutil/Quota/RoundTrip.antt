-- ===== src/Dockerutil/Quota/RoundTrip.antt =====
-- The quota that is written for the inner container is the one that its processes read.
use mathlib.Core.Path.{ap₂}
use envbox.Prelude.{
  ◌≡◌, refl, sym, ap, List, [], ◌∷◌, ◌++◌, cons-ne-nil, Option, none, some, Option-cases, Bytes,
  Error, wrap, codes, same, Result, ok, err, ℤ, pos, negsuc, itoa, atoi-itoa, itoa-IsGraphic,
  IsInt64, arith, inl, inr, join_path,
}
use envbox.Xunix.Sys.{
  cgroup_v1, cgroup_v2, parse_cpu_max, quota_field, atoi_of, read_cpu_quota, read_cpu_quota_v2,
  read_cpu_quota_v1, read_cpu_max, read_cgroup_self,
}
use envbox.Dockerutil.Quota.{
  cpu_max_content, Writes, write_file, set_container_quota, set_container_quota_v1,
  set_container_quota_v2,
}
use envbox.Dockerutil.Quota.Line.{
  IsGraphic-IsInk, trim_space-itoa, IsGraphic-Lacks, parse_line, quota_field-itoa,
}

-- A quota below zero is read back as -1.
abbrev pub clip : ℤ → ℤ
clip (pos n) = pos n
clip (negsuc n) = negsuc 0

parse_cpu_max-content :
    (quota period : ℤ)
    → IsInt64 quota
    → IsInt64 period
    → parse_cpu_max
        (cpu_max_content (record { quota = quota; period = period; cgroup = cgroup_v2 }))
      ≡ ok (record { quota = clip quota; period = period; cgroup = cgroup_v2 })
unfolding cpu_max_content quota_field same
parse_cpu_max-content (negsuc n) period fits fits_period =
    parse_line (codes "max") (negsuc 0) period (cons-ne-nil _ _) (refl, (refl, (refl, tt)))
      (omega arith) refl fits_period
parse_cpu_max-content (pos n) period fits fits_period =
    let (ne, graphic) = itoa-IsGraphic (pos n) in
    parse_line (itoa (pos n)) (pos n) period ne (IsGraphic-IsInk _ graphic)
      (IsGraphic-Lacks _ graphic) (quota_field-itoa n fits) fits_period

-- The file of cgroup v1 of a container.
abbrev pub v1_file : Bytes → Bytes → Bytes
v1_file id name = join_path (
    (codes "/sys/fs/cgroup/cpu,cpuacct/docker/" ++ id ++ codes "/syscont-cgroup-root/") ∷ name ∷ [])

-- A write that succeeds, and what follows it.
write_file-none :
    (write : Bytes → Bytes → Option Error) (what path content : Bytes) (next : Writes) (p c : Bytes)
    (ws : List (Bytes × Bytes))
    → write_file write what path content next ≡ ((p, c) ∷ ws, none)
    → (path ≡ p) × (content ≡ c) × (next ≡ (ws, none))
unfolding write_file
write_file-none write what path content (ws', e') p c ws h =
    elim (Option-cases (write path content)) [
      | inl fine ↦
          let h' = rw (fine, write_file) at h in
          let lists : ◌≡◌ {A = List (Bytes × Bytes)} ((path, content) ∷ ws') ((p, c) ∷ ws) =
            ap (λ w. w.0) h' in
          let heads : ◌≡◌ {A = Bytes × Bytes} (path, content) (p, c) = cc lists in
          let tails : ws' ≡ ws = cc lists in
          (ap (λ w. w.0) heads, ap (λ w. w.1) heads, ap₂ (λ a b. (a, b)) tails (ap (λ w. w.1) h'))
      | inr (e, failed) ↦
          let h' = rw (failed, write_file) at h in
          let ends : some (wrap (codes "write " ++ what ++ codes " to inner container cgroup") e)
              ≡ none =
            ap (λ w. w.1) h' in
          absurd (cc ends)
    ]

-- For a quota and a period of 64 bits, where the write succeeds and the own cgroup can be read,
-- `SetContainerQuota` writes the file cpu.max of the container, and `ReadCPUQuota` reads the same quota from
-- its content, whatever the limit, where a quota below zero, no limit, is read as -1.
pub read_cpu_quota-set_container_quota_v2 :
    (write : Bytes → Bytes → Option Error) (read : Bytes → Result Bytes)
    (id path content self : Bytes) (quota period : ℤ)
    → IsInt64 quota
    → IsInt64 period
    → set_container_quota write id (record { quota = quota; period = period; cgroup = cgroup_v2 })
      ≡ ((path, content) ∷ [], none)
    → read_cgroup_self read ≡ ok self
    → read (join_path (codes "/sys/fs/cgroup/" ∷ self ∷ codes "cpu.max" ∷ [])) ≡ ok content
    → (path
        ≡ join_path
            ((codes "/sys/fs/cgroup/docker/" ++ id ++ codes "/init.scope/") ∷ codes "cpu.max" ∷ []))
      × (read_cpu_quota read
          ≡ ok (record { quota = clip quota; period = period; cgroup = cgroup_v2 }))
unfolding read_cpu_quota read_cpu_quota_v2 read_cpu_max set_container_quota set_container_quota_v2
read_cpu_quota-set_container_quota_v2 write read id path content self quota period fq fp written own
      max_str =
    let made = write_file-none write (codes "cpu.max") _ _ ([], none) path content [] written in
    (
      sym made.0,
      rw
          (
            read_cpu_quota,
            read_cpu_quota_v2,
            own,
            read_cpu_max,
            max_str,
            ← made.1,
            parse_cpu_max-content quota period fq fp,
          )
          refl,
    )

-- For a quota and a period of 64 bits, where all writes succeed,
-- `SetContainerQuota` writes the period and the quota of cgroup v1 to the container's files of these names,
-- in this order, and `ReadCPUQuota` reads the same quota and period where each of its own two files has the
-- content of the file of the same name, below zero or not, and cgroup v2 cannot be read.
pub read_cpu_quota-set_container_quota_v1 :
    (write : Bytes → Bytes → Option Error) (read : Bytes → Result Bytes) (id p p' c c' : Bytes)
    (e : Error) (quota period : ℤ)
    → IsInt64 quota
    → IsInt64 period
    → set_container_quota write id (record { quota = quota; period = period; cgroup = cgroup_v1 })
      ≡ ((p, c) ∷ (p', c') ∷ [], none)
    → read_cpu_quota_v2 read ≡ err e
    → read (codes "/sys/fs/cgroup/cpu,cpuacct/cpu.cfs_period_us") ≡ ok c
    → read (codes "/sys/fs/cgroup/cpu,cpuacct/cpu.cfs_quota_us") ≡ ok c'
    → (p ≡ v1_file id (codes "cpu.cfs_period_us"))
      × (p' ≡ v1_file id (codes "cpu.cfs_quota_us"))
      × (read_cpu_quota read ≡ ok (record { quota = quota; period = period; cgroup = cgroup_v1 }))
unfolding read_cpu_quota read_cpu_quota_v1 set_container_quota set_container_quota_v1 atoi_of
read_cpu_quota-set_container_quota_v1 write read id p p' c c' e quota period fq fp written no_v2 rp
      rq =
    let (at_period, first, rest) =
      write_file-none write (codes "cpu.cfs_period_us") _ _ _ p c ((p', c') ∷ []) written in
    let (at_quota, second, _) =
      write_file-none write (codes "cpu.cfs_quota_us") _ _ ([], none) p' c' [] rest in
    (
      sym at_period,
      sym at_quota,
      rw
          (
            read_cpu_quota,
            no_v2,
            read_cpu_quota_v1,
            rp,
            rq,
            ← first,
            ← second,
            trim_space-itoa period,
            trim_space-itoa quota,
            atoi-itoa period fp,
            atoi-itoa quota fq,
          )
          refl,
    )
