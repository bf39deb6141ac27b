-- ===== src/Fs/Vfs.antt =====
-- fs/vfs.c: the open files of each process, over the default block device and the FAT32 volume. A null name is
-- `none`. The static sector buffer is filled before each use, so it is no part of the state.
pub mod Raw
mod Tests
use ceblar.Prelude.{
  ℕ, zero, suc, ◌+◌, ◌-◌, ◌*◌, ◌/◌, ◌%◌, ◌^◌, Bool, true, false, ◌&&◌, ◌||◌, not, ◌==◌, ltb, leb,
  if◌then◌else◌, Option, none, some, List, [], ◌∷◌, ◌++◌, length, take, drop, min, add32, update,
}
use ceblar.Fs.Block.{
  Bytes, BlockDevice, is_given, block_default, block_read_sector, block_write_sector,
}
use ceblar.Fs.Fat32.{Fat32, Fat32File, Outcome, opened, listed, missing, pass, fat32_open}
use ceblar.Fs.Fat32.Volume.{fat32_read_file}

abbrev pub vfs_max_processes : ℕ
vfs_max_processes = 32

abbrev pub vfs_fd_raw_hda : ℕ
vfs_fd_raw_hda = 3

abbrev pub vfs_fd_first_file : ℕ
vfs_fd_first_file = 4

-- `vfs_file_t`
pub record VfsFile : Type 0 where
  pub name : Option Bytes
  pub flags : ℕ
  pub position : ℕ
  pub kind : ℕ
  pub fat : Fat32File

pub record Vfs : Type 0 where
  pub files : ℕ → ℕ → VfsFile
  pub active_pid : ℕ

unfoldable pub slot_for_pid : ℕ → ℕ
slot_for_pid pid =
    let slot = pid % 2 ^ 8 in
    if slot == 0 then 0 else if ltb (slot - 1) vfs_max_processes then slot - 1 else 0

abbrev pub file_at : Vfs → ℕ → VfsFile
file_at s fd = s.files (slot_for_pid s.active_pid) fd

abbrev pub set_file : Vfs → ℕ → VfsFile → Vfs
set_file s fd f =
    let p = slot_for_pid s.active_pid in
    record s { files = update s.files p (update (s.files p) fd f) }

unfoldable pub vfs_set_process : ℕ → Vfs → Vfs
vfs_set_process pid s = record s { active_pid = if pid == 0 then 1 else pid }

-- `name = 0; kind = 0; position = 0`
abbrev pub cleared : VfsFile → VfsFile
cleared f = record f { name = none; kind = 0; position = 0 }

-- "hda"
abbrev pub hda : Bytes
hda = 104 ∷ 100 ∷ 97 ∷ []

-- "fat-file"
abbrev pub fat_file : Bytes
fat_file = 102 ∷ 97 ∷ 116 ∷ 45 ∷ 102 ∷ 105 ∷ 108 ∷ 101 ∷ []

-- Both loops over the tables; `disk_found` is whether there is a block device.
unfoldable pub vfs_init : Bool → Vfs → Vfs
vfs_init disk_found s = record s {
  files = λ p fd.
      if ltb p vfs_max_processes && ltb fd 8
      then (if disk_found && fd == vfs_fd_raw_hda
          then record (cleared (s.files p fd)) { name = some hda; kind = 1 }
          else cleared (s.files p fd))
      else s.files p fd;
}

unfoldable pub vfs_inherit_process : ℕ → ℕ → Vfs → Vfs
vfs_inherit_process parent child s = record s {
  files = update s.files (slot_for_pid child) (λ fd.
      if ltb fd 8 then s.files (slot_for_pid parent) fd else s.files (slot_for_pid child) fd);
}

unfoldable pub vfs_release_process : ℕ → Vfs → Vfs
vfs_release_process pid s =
    let p = slot_for_pid pid in
    record s {
      files = update s.files p (λ fd.
          if leb vfs_fd_first_file fd && ltb fd 8 then cleared (s.files p fd) else s.files p fd);
    }

-- `for (i = VFS_FD_FIRST_FILE; i < 8u; i++) if (!t[i].name)`, by the rounds left.
unfoldable pub free_fd : ℕ → ℕ → Vfs → Option ℕ
free_fd zero i s = none
free_fd (suc n) i s =
    let rest = free_fd n (i + 1) s in if is_given (file_at s i).name then rest else some i

-- "hda/"
abbrev pub under_hda : Bytes → Option Bytes
under_hda (a ∷ b ∷ c ∷ d ∷ path) =
    if a == 104 && b == 100 && c == 97 && d == 47 then some path else none
under_hda _ = none

abbrev pub is_hda : Bytes → Bool
is_hda (a ∷ b ∷ c ∷ []) = a == 104 && b == 100 && c == 97
is_hda _ = false

abbrev pub open_named : Bytes → ℕ → Option ℕ → Vfs → Option ℕ × Vfs
open_named n flags none s = (none, s)
open_named n flags (some i) s = (
  some i,
  set_file s i (record (file_at s i) { name = some n; flags = flags; position = 0; kind = 0 }),
)

-- The part of `vfs_open` behind the volume's.
unfoldable pub open_other : Bytes → ℕ → Vfs → Option ℕ × Vfs
open_other n flags s =
    if is_hda n
    then (if is_given (file_at s vfs_fd_raw_hda).name then some vfs_fd_raw_hda else none, s)
    else open_named n flags (free_fd 4 vfs_fd_first_file s) s

-- The entry `i`, when `fat32_open` has answered; with `none` it has not come back.
abbrev pub open_fat : ℕ → VfsFile → Option Outcome → Vfs → Option (Option ℕ × Vfs)
open_fat i f none s = none
open_fat i f (some (opened file)) s = some (some i, set_file s i (record f { fat = file }))
open_fat i f (some other) s = some (none, set_file s i (record f { name = none }))

abbrev pub given_fat : ℕ → VfsFile → VfsFile
given_fat flags f = record f { name = some fat_file; kind = 2; flags = flags; position = 0 }

module _ {Disk : Type 0} (devices : List (BlockDevice Disk)) (v : Fat32) where
  abbrev open_under : ℕ → Disk → Bytes → ℕ → Option Bytes → Option ℕ → Vfs → Option (Option ℕ × Vfs)
  open_under fuel disk n flags (some path) (some i) s =
      if v.mounted
      then open_fat i (given_fat flags (file_at s i)) (fat32_open devices disk fuel v path) s
      else some (open_other n flags s)
  open_under fuel disk n flags (some path) none s = some (open_other n flags s)
  open_under fuel disk n flags none i s = some (open_other n flags s)

  -- A call with a name. The outer `none` is a scan of the volume that needs more fuel, the inner one -1.
  unfoldable pub vfs_open : ℕ → Disk → Bytes → ℕ → Vfs → Option (Option ℕ × Vfs)
  vfs_open fuel disk n flags s =
      open_under fuel disk n flags (under_hda n) (free_fd 4 vfs_fd_first_file s) s

-- The flag is whether the code returns 0.
unfoldable pub vfs_close : ℕ → Vfs → Bool × Vfs
vfs_close fd s =
    if ltb fd vfs_fd_first_file || leb 8 fd || not (is_given (file_at s fd).name)
    then (false, s)
    else (true, set_file s fd (record (file_at s fd) { name = none; kind = 0 }))

-- A transfer under way: the bytes read or still to write, and the position.
pub record Transfer : Type 0 where
  pub bytes : Bytes
  pub at : ℕ
  pub failed : Bool

-- `take`, with `left` bytes to go.
abbrev pub chunk : ℕ → ℕ → ℕ
chunk at left = min (512 - at % 512) left

-- `sector[off + i] = in[done + i]`
abbrev pub patched : ℕ → Bytes → Bytes → Bytes
patched off new sector = take off sector ++ (new ++ drop (off + length new) sector)

-- `return done ? done : -1` on a failure.
abbrev pub result_of : Bool → ℕ → Option ℕ
result_of failed done = if failed && done == 0 then none else some done

abbrev pub fat_result :
    ℕ → VfsFile → Option (Option Bytes × Fat32File) → Vfs → Option (Option Bytes × Vfs)
fat_result fd f none s = none
fat_result fd f (some (out, file)) s = some (out, set_file s fd (record f { fat = file }))

module _ {Disk : Type 0} (devices : List (BlockDevice Disk)) where
  -- `while (done < n)` of the raw read, with `left` bytes to go; each round reads one or more.
  unfoldable pub raw_read : ℕ → Disk → ℕ → Transfer → Transfer
  raw_read zero disk left r = r
  raw_read (suc fuel) disk left r = elim (left == 0) [
    | true ↦ r
    | false ↦ elim (block_read_sector devices (r.at / 512) disk) [
      | none ↦ record r { failed = true }
      | some sector ↦ raw_read fuel disk (left - chunk r.at left) (record r {
        bytes = r.bytes ++ take (chunk r.at left) (drop (r.at % 512) sector);
        at = add32 r.at (chunk r.at left);
      })
    ]
  ]

  -- The sector that a round changes: a whole one is not read.
  abbrev pub old_sector : Disk → ℕ → ℕ → Option Bytes
  old_sector disk at left =
      if not (at % 512 == 0) || ltb (chunk at left) 512
      then block_read_sector devices (at / 512) disk
      else some []

  -- The same of the raw write; `bytes` is what is left to write.
  unfoldable pub raw_write : ℕ → Disk → Transfer → Transfer × Disk
  raw_write zero disk r = (r, disk)
  raw_write (suc fuel) disk r = elim (length r.bytes == 0) [
    | true ↦ (r, disk)
    | false ↦
        let n = chunk r.at (length r.bytes) in
        elim (old_sector disk r.at (length r.bytes)) [
          | none ↦ (record r { failed = true }, disk)
          | some sector ↦
              elim (block_write_sector devices (r.at / 512)
                (patched (r.at % 512) (take n r.bytes) sector) disk) [
                  | none ↦ (record r { failed = true }, disk)
                  | some disk₁ ↦
                      raw_write fuel disk₁ (record r { bytes = drop n r.bytes; at = add32 r.at n })
                ]
        ]
  ]

  -- A call with a buffer. `input` is what the serial port has; the outer `none` is a read of the volume
  -- without an answer, the inner one -1.
  unfoldable pub vfs_read : Fat32 → Disk → Option ℕ → ℕ → ℕ → Vfs → Option (Option Bytes × Vfs)
  vfs_read v disk input fd n s =
      let f = file_at s fd in
      if fd == 0 && not (n == 0)
      then some (some (elim input [ none ↦ [] | some c ↦ c % 2 ^ 8 ∷ [] ]), s)
      else if fd == vfs_fd_raw_hda && is_given f.name
      then (let r = raw_read n disk n (record { bytes = []; at = f.position; failed = false }) in
          some (
            if r.failed && length r.bytes == 0 then none else some r.bytes,
            set_file s fd (record f { position = r.at }),
          ))
      else if leb vfs_fd_first_file fd && ltb fd 8 && f.kind == 2
      then fat_result fd f (fat32_read_file devices disk v f.fat n) s
      else some (none, s)

  -- A call with a buffer; what goes to the screen and the serial port is not shown.
  unfoldable pub vfs_write : Disk → ℕ → Bytes → Vfs → Option ℕ × Vfs × Disk
  vfs_write disk fd bytes s =
      let f = file_at s fd in
      if fd == 1 || fd == 2
      then (some (length bytes), s, disk)
      else if fd == vfs_fd_raw_hda && is_given f.name
      then (let (r, disk₁) =
            raw_write (length bytes) disk
              (record { bytes = bytes; at = f.position; failed = false }) in
          (
            result_of r.failed (length bytes - length r.bytes),
            set_file s fd (record f { position = r.at }),
            disk₁,
          ))
      else (none, s, disk)
