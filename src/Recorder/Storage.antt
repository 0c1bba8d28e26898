-- ===== src/Recorder/Storage.antt =====
-- `DirectoryStore` and `DiskSegment` (src/recorder.rs) over the disk. What the file system answers
-- is given with every call: `none` for success, `some kind` for an error.
use agenttender.Common.{
  ℕ, Bool, true, false, List, [], ◌∷◌, ◌++◌, Option, none, some, Result, ok, err, Bytes, take, ◌==◌,
  if◌then◌else◌,
}
use agenttender.Model.PtyControl.Requests.{ErrorKind}

-- The segments that are closed, the one that the writer has open, and one that was renamed into
-- place although its publication failed.
pub record Disk : Type 0 where
  pub earlier : List Bytes
  pub open_segment : Option Bytes
  pub beyond : List Bytes

-- The answers of the file system during one step of the writer. A failed write has written some
-- bytes before it failed.
pub record Answers : Type 0 where
  pub create_dirs : Option ErrorKind
  pub open_tmp : Option ErrorKind
  pub write_header : Option ErrorKind
  pub sync_header : Option ErrorKind
  pub rename_tmp : Option ErrorKind
  pub sync_dir : Option ErrorKind
  pub write : Option (ErrorKind × ℕ)
  pub sync_data : Option ErrorKind
  pub set_len : Option ErrorKind
  pub seek : Option ErrorKind

-- One call, and what follows when it succeeds.
abbrev and_then : {A : Type 0} → Option ErrorKind → Result ErrorKind A → Result ErrorKind A
and_then none next = next
and_then (some kind) next = err kind

-- The calls of `publish` up to the rename; the directories are made for segment 0 only.
unfoldable pub renamed : ℕ → Answers → Result ErrorKind (Unit {0})
renamed index a = and_then (if index == 0 then a.create_dirs else none) (
    and_then a.open_tmp
      (and_then a.write_header (and_then a.sync_header (and_then a.rename_tmp (ok tt)))))

abbrev pub closed : Option Bytes → List Bytes
closed none = []
closed (some bytes) = bytes ∷ []

-- `DirectoryStore::publish`. On success the writer's open segment is the new one.
unfoldable pub store_publish : ℕ → Bytes → Answers → Disk → Disk × Result ErrorKind (Unit {0})
unfolding renamed
store_publish index header a d = elim (renamed index a) [
  | err kind ↦ (d, err kind)
  | ok _ ↦ elim a.sync_dir [
    | some kind ↦ (record d { beyond = d.beyond ++ (header ∷ []) }, err kind)
    | none ↦ (
      record d { earlier = d.earlier ++ closed d.open_segment; open_segment = some header },
      ok tt,
    )
  ]
]

-- `write_all` of a `DiskSegment`; without an open segment the source panics.
unfoldable pub write_all : Bytes → Answers → Disk → Disk × Result ErrorKind (Unit {0})
write_all bytes a d = elim d.open_segment [
  | none ↦ (d, err (ErrorKind.other_kind 0))
  | some segment ↦ elim a.write [
    | none ↦ (record d { open_segment = some (segment ++ bytes) }, ok tt)
    | some (kind, n) ↦ (record d { open_segment = some (segment ++ take n bytes) }, err kind)
  ]
]

-- `DiskSegment::truncate`: whether it succeeded. `set_len` is used to shorten only.
unfoldable pub truncate : ℕ → Answers → Disk → Disk × Bool
truncate len a d = elim d.open_segment [
  | none ↦ (d, false)
  | some segment ↦ elim a.set_len [
    | some _ ↦ (d, false)
    | none ↦
        let cut : Disk = record d { open_segment = some (take len segment) } in
        elim a.seek [ some _ ↦ (cut, false) | none ↦ (cut, true) ]
  ]
]
