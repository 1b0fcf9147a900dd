-- ===== src/Files/Disk/Image.antt =====
-- winit, wopen and wdestroy of disk.c: the file descriptor of the image around the disk's commands.
use wpi_operating_systems.Base.{ℕ, Option, none, some, List, [], ◌∷◌, ltb, if◌then◌else◌}
use wpi_operating_systems.Files.Disk.{Disk, exit_failure}

-- `disk` with its file descriptor.
pub record Image : Type 0 where
  pub file_descriptor : ℕ
  pub disk : Disk

unfoldable pub winit : Image → Image
winit i = record {
  file_descriptor = 0;
  disk = record i.disk { blocks = 0; reads = 0; writes = 0; mounts = 0 };
}

-- What wopen leaves: the exit status, or the disk.
pub data Opened : Type 0 where
  exits : ℕ → Opened
  opened : Image → Opened

-- `answer` is the file descriptor that `open` returns, `none` for -1. The mounts are not reset.
unfoldable pub wopen : Option ℕ → ℕ → Image → Opened
wopen none nblocks i = exits exit_failure
wopen (some fd) nblocks i = opened (record {
  file_descriptor = fd;
  disk = record i.disk { blocks = nblocks; reads = 0; writes = 0 };
})

-- The disk afterwards, the counters that are printed, and the file descriptors that are closed. A
-- descriptor 0 counts as no open image.
unfoldable pub wdestroy : Image → Image × List ℕ × List ℕ
wdestroy i =
    if ltb 0 i.file_descriptor
    then (
      record i { file_descriptor = 0 },
      i.disk.reads ∷ i.disk.writes ∷ [],
      i.file_descriptor ∷ [],
    )
    else (i, [], [])
