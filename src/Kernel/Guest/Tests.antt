-- ===== src/Kernel/Guest/Tests.antt =====
-- Strings in a small memory.
use pgzero.Base.{◌==◌, if◌then◌else◌}
use pgzero.Vmem.{private}
use pgzero.Kernel.Guest.{Guest}

-- "ab" at 16
abbrev small_guest : Guest
small_guest = record {
  mem = record { reserved = 65536; committed = 65536; size = 65536; page = λ _. private };
  byte = λ a. if a == 16 then 97 else if a == 17 then 98 else 0;
}
