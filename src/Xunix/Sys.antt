-- ===== src/Xunix/Sys.antt =====
-- xunix/sys.go: the CPU quota of the container, read from the files of cgroup v2 or else of cgroup v1.
--
-- `read` is what `afero.ReadFile` answers for a path.
use envbox.Prelude.{
  List, [], ◌∷◌, ◌++◌, Bytes, codes, same, split, trim_space, failure, Result, ok, err, ◌>>=◌,
  context, if◌then◌else◌, ℤ, negsuc, atoi, quote, join_path,
}

pub data CGroup : Type 0 where
  cgroup_v1 : CGroup
  cgroup_v2 : CGroup

pub record CpuQuota : Type 0 where
  pub quota : ℤ
  pub period : ℤ
  pub cgroup : CGroup

abbrev pub cpu_period_path : Bytes
cpu_period_path = codes "/sys/fs/cgroup/cpu,cpuacct/cpu.cfs_period_us"

abbrev pub cpu_quota_path : Bytes
cpu_quota_path = codes "/sys/fs/cgroup/cpu,cpuacct/cpu.cfs_quota_us"

abbrev pub cpu_max_root : Bytes
cpu_max_root = codes "/sys/fs/cgroup/cpu.max"

-- `strconv.Atoi` with the error that names the number.
unfoldable pub atoi_of : Bytes → Bytes → Result ℤ
atoi_of what s =
    context (what ++ codes " " ++ s ++ codes " not an int")
      (context (codes "strconv.Atoi: parsing " ++ quote s) (atoi s))

-- The third of three fields.
unfoldable pub third_field : Bytes → List Bytes → Result Bytes
third_field raw (a ∷ b ∷ c ∷ []) = ok c
third_field raw _ =
    err (failure (codes "expected 3 fields in last line of /proc/self/cgroup: " ++ raw))

unfoldable pub first_line : Bytes → List Bytes → Result Bytes
unfolding third_field
first_line raw [] = err (failure (codes "unexpected content of /proc/self/cgroup: " ++ raw))
first_line raw (line ∷ lines) = third_field raw (split line b':')

-- The number before the blank of cpu.max, where `max` is -1.
unfoldable pub quota_field : Bytes → Result ℤ
quota_field s = if same s (codes "max") then ok (negsuc 0) else atoi_of (codes "quota") s

-- The two numbers of cpu.max.
unfoldable pub two_fields : Bytes → List Bytes → Result CpuQuota
two_fields max_str (q ∷ p ∷ []) = do
  quota ← quota_field q
  period ← atoi_of (codes "period") p
  ok record { quota = quota; period = period; cgroup = cgroup_v2 }
two_fields max_str _ =
    err (failure (codes "expected cpu.max to have exactly two entries, got: " ++ max_str))

unfoldable pub parse_cpu_max : Bytes → Result CpuQuota
unfolding two_fields
parse_cpu_max max_str = two_fields max_str (split (trim_space max_str) b' ')

module _ (read : Bytes → Result Bytes) where
  unfoldable pub read_cgroup_self : Result Bytes
  unfolding first_line
  read_cgroup_self = do
    raw ← context (codes "read /proc/self/cgroup") (read (codes "/proc/self/cgroup"))
    first_line raw (split raw b'\n')

  -- The file at the path of the own cgroup, or else at the root of the mount.
  unfoldable pub read_cpu_max : Bytes → Result Bytes
  read_cpu_max self_path = elim (read self_path) [
    | ok max_str ↦ ok max_str
    | err e ↦
        context
          (codes "read cpu.max outside container (tried "
            ++ self_path
            ++ codes ": "
            ++ e.text
            ++ codes "; fallback "
            ++ cpu_max_root)
          (read cpu_max_root)
  ]

  unfoldable pub read_cpu_quota_v2 : Result CpuQuota
  read_cpu_quota_v2 = do
    self ← context (codes "determine own cgroup") read_cgroup_self
    max_str ← read_cpu_max (join_path (codes "/sys/fs/cgroup/" ∷ self ∷ codes "cpu.max" ∷ []))
    parse_cpu_max max_str

  unfoldable pub read_cpu_quota_v1 : Result CpuQuota
  read_cpu_quota_v1 = do
    period_raw ← context (codes "read cpu.cfs_period_us outside container") (read cpu_period_path)
    quota_raw ← context (codes "read cpu.cfs_quota_us outside container") (read cpu_quota_path)
    period ← atoi_of (codes "period") (trim_space period_raw)
    quota ← atoi_of (codes "quota") (trim_space quota_raw)
    ok record { quota = quota; period = period; cgroup = cgroup_v1 }

  unfoldable pub read_cpu_quota : Result CpuQuota
  read_cpu_quota = elim read_cpu_quota_v2 [ ok q ↦ ok q | err e ↦ read_cpu_quota_v1 ]
