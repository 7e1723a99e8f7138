-- ===== src/Kernel/Mounts/Tests.antt =====
-- Three mounts, as pgzero.go makes them: the installation, a data directory of the host, the sockets.
use pgzero.Base.{◌≡◌, refl, ap, inl, inr, true, false, List, [], ◌∷◌}
use pgzero.Paths.{Bytes, is_abs}
use pgzero.Kernel.Mounts.{Mount, mount_for}
use pgzero.Kernel.Mounts.Longest.{IsMounted}
use pgzero.Kernel.Mounts.Found.{IsMountOf, mount_for-IsMountOf}

-- "/", "/data" of the host's "/srv", "/data/run"
abbrev mounts : List Mount
mounts =
    record { guest_path = 47 ∷ []; host_path = []; has_fs = true }
    ∷ record {
      guest_path = 47 ∷ 100 ∷ 97 ∷ 116 ∷ 97 ∷ [];
      host_path = 47 ∷ 115 ∷ 114 ∷ 118 ∷ [];
      has_fs = false;
    }
    ∷ record {
      guest_path = 47 ∷ 100 ∷ 97 ∷ 116 ∷ 97 ∷ 47 ∷ 114 ∷ 117 ∷ 110 ∷ [];
      host_path = [];
      has_fs = true;
    }
    ∷ []

-- "/data/../data//x"
abbrev guest : Bytes
guest = 47 ∷ 100 ∷ 97 ∷ 116 ∷ 97 ∷ 47 ∷ 46 ∷ 46 ∷ 47 ∷ 100 ∷ 97 ∷ 116 ∷ 97 ∷ 47 ∷ 47 ∷ 120 ∷ []

at_root : (m : Mount) → IsMounted mounts m → is_abs m.guest_path ≡ true
at_root m (inl e) = ap (λ n. is_abs n.guest_path) e
at_root m (inr (inl e)) = ap (λ n. is_abs n.guest_path) e
at_root m (inr (inr (inl e))) = ap (λ n. is_abs n.guest_path) e
at_root m (inr (inr (inr e))) = absurd e

mount_for-IsMountOf_example : IsMountOf mounts guest (mount_for mounts guest)
mount_for-IsMountOf_example = mount_for-IsMountOf mounts at_root guest refl
