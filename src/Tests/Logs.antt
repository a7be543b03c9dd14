-- ===== src/Tests/Logs.antt =====
-- library/pipelog at a file of three lines, and at a file with a limit of four bytes.
use ssoc_broker.Base.{
  ◌≡◌, refl, ◌⊎◌, [], ◌∷◌, none, some, true, false, codes, Text, length, take, arith,
}
use ssoc_broker.Base.Int.{pos}
use ssoc_broker.GoMap.{lookup}
use ssoc_broker.Pipelog.Tail.{lines, last_lines, tail_n}
use ssoc_broker.Pipelog.Tail.Laws.{tail_n-last_lines}
use ssoc_broker.Pipelog.LimitedFile.{LimitedFile, Disk, open_file, write_file}
use ssoc_broker.Pipelog.LimitedFile.Bounds.{Tracks, IsBounded, write_file-IsBounded}
use ssoc_broker.Pipelog.Subscribers.{SubMap, subscribe, writers_of}
use ssoc_broker.Pipelog.Subscribers.Laws.{IsValid}

abbrev three_lines : Text
three_lines = 97 ∷ 10 ∷ 98 ∷ 10 ∷ 99 ∷ []

tail_n-last_lines_example :
    tail_n (λ _. true) (λ _. true) three_lines 2 1 ≡ some (last_lines 1 (lines three_lines), true)
tail_n-last_lines_example =
    tail_n-last_lines (λ _. true) (λ _. true) three_lines 2 1 (λ _. refl) (λ _. refl) (omega arith)

abbrev healthy : Disk
healthy = record {
  root_ok = true;
  open_ok = true;
  stat_ok = true;
  written = 3;
  write_ok = true;
  truncate_ok = true;
  seek_ok = true;
  close_ok = true;
  remove_ok = true;
}

abbrev log_file : LimitedFile
log_file = record {
  maxsize = pos 4;
  idle = true;
  opened = true;
  timer = true;
  armed = true;
  filesize = pos 2;
  stored = some (codes "ab");
}

log_file-Tracks : Tracks log_file
log_file-Tracks = (λ _. refl, λ _ _. refl)

write_file-IsBounded_example :
    ((open_file healthy log_file ≡ none)
      × (write_file healthy (codes "cde") log_file ≡ (log_file, (0, false))))
    ⊎ (((write_file healthy (codes "cde") log_file).1 ≡ (length (take 3 (codes "cde")), true))
        × Tracks (write_file healthy (codes "cde") log_file).0
        × IsBounded (write_file healthy (codes "cde") log_file).0)
write_file-IsBounded_example =
    write_file-IsBounded healthy (codes "cde") log_file refl refl refl (omega arith) (omega arith)
      log_file-Tracks

abbrev followers : SubMap
followers = subscribe (some 1) (codes "app") []

nobody-IsValid : IsValid []
unfolding writers_of lookup
nobody-IsValid name = tt
