-- ===== src/Utils/Platform.antt =====
-- utils.py: which operating system it is, from `sys.platform`.
use shm_comm.Prelude.{◌≡◌, refl, sym, Bool, Bool-cases, inl, inr, if◌then◌else◌}
use shm_comm.Names.{Name, codes, same}

unfoldable pub platform_name : Name → Name
platform_name platform =
    if same platform (codes "linux")
    then codes "linux"
    else (if same platform (codes "darwin")
        then codes "macos"
        else (if same platform (codes "win32") then codes "windows" else platform))

unfoldable pub is_linux : Name → Bool
is_linux platform = same platform (codes "linux")

unfoldable pub is_windows : Name → Bool
is_windows platform = same platform (codes "win32")

-- The name is "linux" on Linux only.
pub is_linux-platform_name :
    (platform : Name) → is_linux platform ≡ same (platform_name platform) (codes "linux")
unfolding is_linux platform_name same
is_linux-platform_name platform = elim (Bool-cases (same platform (codes "linux"))) [
  | inl linux ↦ rw linux refl
  | inr other ↦ elim (Bool-cases (same platform (codes "darwin"))) [
    | inl mac ↦ rw (other, mac) refl
    | inr no_mac ↦ elim (Bool-cases (same platform (codes "win32"))) [
      | inl windows ↦ rw (other, no_mac, windows) refl
      | inr unknown ↦ rw (other, no_mac, unknown) (sym other)
    ]
  ]
]
