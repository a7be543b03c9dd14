-- ===== src/Pipelog/LimitedFile.antt =====
-- library/pipelog/file.go: a log file that is opened by the first write, closed when idle and cut to
-- nothing when it has grown to its limit. The disk is outside of the repository: the outcome of each
-- call is an argument (`Disk`), and `stored` is what the file holds, `none` if there is none. Sizes are
-- int64 with its wrap-around. Each operation runs under the file's lock.
pub mod Bounds
use ssoc_broker.Base.{
  ℕ, List, [], ◌∷◌, ◌++◌, Option, none, some, Bool, true, false, ◌&&◌, not, if◌then◌else◌, Text,
  length, take, ◌≡◌,
}
use ssoc_broker.Base.Int.{ℤ, pos, ltb_ℤ, leb_ℤ, add64}

pub record LimitedFile : Type 0 where
  pub maxsize : ℤ
  pub idle : Bool
  pub opened : Bool
  -- whether there is a timer, and whether it will fire
  pub timer : Bool
  pub armed : Bool
  pub filesize : ℤ
  pub stored : Option Text

-- The outcomes of the calls that one operation makes: `written` is how many bytes the system wrote.
pub record Disk : Type 0 where
  pub root_ok : Bool
  pub open_ok : Bool
  pub stat_ok : Bool
  pub written : ℕ
  pub write_ok : Bool
  pub truncate_ok : Bool
  pub seek_ok : Bool
  pub close_ok : Bool
  pub remove_ok : Bool

abbrev pub bytes_of : Option Text → Text
bytes_of none = []
bytes_of (some s) = s

-- `newFile`.
unfoldable pub new_file : ℤ → Bool → Option Text → LimitedFile
new_file maxsize idle stored = record {
  maxsize = maxsize;
  idle = idle;
  opened = false;
  timer = false;
  armed = false;
  filesize = pos 0;
  stored = stored;
}

module _ (disk : Disk) where
  -- The file is cut when its size has reached the limit; the size is reset if both calls succeed.
  unfoldable pub truncate : LimitedFile → LimitedFile
  truncate f =
      if not f.opened
      then f
      else (if ltb_ℤ f.filesize f.maxsize
          then f
          else (if not disk.truncate_ok
              then f
              else (if disk.seek_ok
                  then record f { stored = some []; filesize = pos 0 }
                  else record f { stored = some [] })))

  unfoldable pub resize : ℤ → LimitedFile → LimitedFile
  unfolding truncate
  resize maxsize f = if leb_ℤ maxsize (pos 0) then f else truncate (record f { maxsize = maxsize })

  -- `open`: `none` is an error.
  unfoldable pub open_file : LimitedFile → Option LimitedFile
  open_file f =
      if f.opened
      then some f
      else (if disk.root_ok && disk.open_ok
          then some (record f {
            stored = some (bytes_of f.stored);
            filesize = if disk.stat_ok then pos (length (bytes_of f.stored)) else f.filesize;
            opened = true;
            timer = if f.idle then true else f.timer;
            armed = if f.idle then true else f.armed;
          })
          else none)

  -- The write itself appends what the system wrote; a timer that exists is armed again.
  unfoldable pub append_bytes : Text → LimitedFile → LimitedFile
  append_bytes p f = record f {
    stored = some (bytes_of f.stored ++ take disk.written p);
    armed = if disk.write_ok && f.timer then true else f.armed;
    filesize = add64 f.filesize (pos (length (take disk.written p)));
  }

  -- `write`: the bytes written and whether there was an error.
  unfoldable pub write_file : Text → LimitedFile → LimitedFile × (ℕ × Bool)
  unfolding open_file append_bytes truncate
  write_file p f = elim (open_file f) [
    | none ↦ (f, (0, false))
    | some f1 ↦ (truncate (append_bytes p f1), (length (take disk.written p), disk.write_ok))
  ]

  -- `close`, which the timer calls too; the stopped timer is not set to nil.
  unfoldable pub close_file : LimitedFile → LimitedFile × Bool
  close_file f =
      if f.opened
      then (record f { opened = false; armed = false; filesize = pos 0 }, disk.close_ok)
      else (record f { armed = false }, true)

  unfoldable pub remove_file : LimitedFile → LimitedFile × Bool
  unfolding close_file
  remove_file f =
      let f1 : LimitedFile = (close_file f).0 in
      if disk.root_ok && disk.remove_ok then (record f1 { stored = none }, true) else (f1, false)
