-- ===== src/Xunix/Device.antt =====
-- xunix/device.go: the TUN and FUSE devices. Bits are taken by division and remainder.
use envbox.Prelude.{ℕ, ◌+◌, ◌*◌, ◌%◌, List, [], ◌∷◌, ◌++◌, Bytes, codes, dir, decimal, quote}
use envbox.Xunix.Effect.{
  Effect, mkdir_all, mknod, chmod, Answer, Run, Nil, nil, ◌>>=◌, return, within, perform,
}
use envbox.Xunix.Effect.Makes.{Makes, Makes-bind, Makes-perform, Makes-within, Makes-return}

pub record Device : Type 0 where
  pub path : Bytes
  pub kind : Bytes
  pub major : ℕ
  pub minor : ℕ
  pub file_mode : ℕ

-- `0o666`
abbrev pub char_dev_mode : ℕ
char_dev_mode = 438

-- `unix.S_IFCHR`, `0o20000`, whose bit no mode has
abbrev pub char_file_type : ℕ
char_file_type = 8192

-- `((major & 0xfff) << 8) | (minor & 0xff)`
unfoldable pub dev : ℕ → ℕ → ℕ
dev major minor = major % 4096 * 256 + minor % 256

module _ (answer : Answer) where
  pub create_device : Bytes → ℕ → ℕ → Run Nil
  unfolding dev
  create_device path major minor = do
    made_dir ← perform answer (mkdir_all (dir path) 448) (codes "ensure parent dir")
    made_node ←
        perform answer (mknod path (char_file_type + char_dev_mode) (dev major minor))
          (codes "mknod " ++ path ++ codes " c " ++ decimal major ++ codes " " ++ decimal minor)
    perform answer (chmod path char_dev_mode) (codes "chown -rw-rw-rw- " ++ quote path)

  unfoldable pub create_tun_device : Bytes → Run Device
  unfolding create_device
  create_tun_device path = do
    created ← within (codes "create device") (create_device path 10 200)
    return (record {
      path = path;
      kind = codes "c";
      major = 10;
      minor = 200;
      file_mode = char_dev_mode;
    })

  unfoldable pub create_fuse_device : Bytes → Run Device
  unfolding create_device
  create_fuse_device path = do
    created ← within (codes "create device") (create_device path 10 229)
    return (record {
      path = path;
      kind = codes "c";
      major = 10;
      minor = 229;
      file_mode = char_dev_mode;
    })

-- The calls that create a device.
abbrev pub device_effects : Bytes → ℕ → ℕ → List Effect
device_effects path major minor =
    mkdir_all (dir path) 448
    ∷ mknod path (char_file_type + char_dev_mode) (dev major minor)
    ∷ chmod path char_dev_mode
    ∷ []

module _ (answer : Answer) (path : Bytes) where
  create_device-Makes :
      (major minor : ℕ)
      → Makes answer (create_device answer path major minor) (device_effects path major minor) nil
  unfolding create_device
  create_device-Makes major minor =
      Makes-bind answer (λ made_dir. _) (Makes-perform answer _ _)
        (Makes-bind answer (λ made_node. _) (Makes-perform answer _ _) (Makes-perform answer _ _))

  pub create_tun_device-Makes :
      Makes answer (create_tun_device answer path) (device_effects path 10 200) (record {
        path = path;
        kind = codes "c";
        major = 10;
        minor = 200;
        file_mode = char_dev_mode;
      })
  unfolding create_tun_device
  create_tun_device-Makes =
      Makes-bind answer (λ created. _) (Makes-within answer _ (create_device-Makes 10 200))
        (Makes-return answer _)

  pub create_fuse_device-Makes :
      Makes answer (create_fuse_device answer path) (device_effects path 10 229) (record {
        path = path;
        kind = codes "c";
        major = 10;
        minor = 229;
        file_mode = char_dev_mode;
      })
  unfolding create_fuse_device
  create_fuse_device-Makes =
      Makes-bind answer (λ created. _) (Makes-within answer _ (create_device-Makes 10 229))
        (Makes-return answer _)
