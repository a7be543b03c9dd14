-- ===== src/Pipelog/LimitedFile/Bounds.antt =====
-- The size that a log file keeps, and its limit.
use ssoc_broker.Base.{
  ℕ, zero, suc, ◌+◌, ◌≤◌, ◌<◌, ◌^◌, ◌≡◌, refl, ◌⊎◌, inl, inr, List, [], ◌∷◌, none, some, true,
  false, arith, Text, length, take, length-append, Bool-cases, Option-cases,
}
use ssoc_broker.Base.Int.{ℤ, pos, ◌<ℤ◌, ltb_ℤ, leb_ℤ, add64}
use ssoc_broker.Pipelog.LimitedFile.{
  LimitedFile, Disk, bytes_of, truncate, resize, open_file, append_bytes, write_file,
}

-- While the file is open its size is known, and a timer will close it if one is configured.
abbrev pub Tracks : LimitedFile → Type 0
Tracks f =
    (f.opened ≡ true → f.filesize ≡ pos (length (bytes_of f.stored)))
    × (f.opened ≡ true → f.idle ≡ true → f.armed ≡ true)

-- An open file is below its limit.
abbrev pub IsBounded : LimitedFile → Type 0
IsBounded f = f.opened ≡ true → f.filesize <ℤ f.maxsize

length-take_le : {A : Type 0} (n : ℕ) (xs : List A) → length (take n xs) ≤ length xs
length-take_le zero xs = omega arith
length-take_le (suc n) [] = omega arith
length-take_le (suc n) (x ∷ xs) = omega (arith, length-take_le n xs)

module _ (disk : Disk) where
  truncate-Tracks :
      (f : LimitedFile)
      → disk.truncate_ok ≡ true
      → disk.seek_ok ≡ true
      → pos 0 <ℤ f.maxsize
      → Tracks f
      → Tracks (truncate disk f) × IsBounded (truncate disk f)
  unfolding truncate
  truncate-Tracks f cut sought limit (size, timer) = elim (Bool-cases f.opened) [
    | inr shut ↦ rw (shut, truncate) ((λ h. ground arith, λ h. ground arith), λ h. ground arith)
    | inl up ↦ elim (Bool-cases (ltb_ℤ f.filesize f.maxsize)) [
      | inl below ↦ rw (up, truncate) (rw below ((λ _. size up, λ _. timer up), λ _. ground arith))
      | inr above ↦
          rw (up, truncate) (rw above (rw cut (rw sought ((λ _. refl, λ _. timer up), λ _. limit))))
    ]
  ]

  open_file-Tracks :
      (f f1 : LimitedFile)
      → disk.stat_ok ≡ true
      → Tracks f
      → open_file disk f ≡ some f1
      → Tracks f1
        × (f1.opened ≡ true)
        × (bytes_of f1.stored ≡ bytes_of f.stored)
        × (f1.maxsize ≡ f.maxsize)
  unfolding open_file
  open_file-Tracks f f1 stat (size, timer) e = ground arith

  append_bytes-Tracks :
      (p : Text) (f : LimitedFile)
      → length (bytes_of f.stored) + length p < 2 ^ 63
      → f.opened ≡ true
      → Tracks f
      → Tracks (append_bytes disk p f)
  unfolding append_bytes add64
  append_bytes-Tracks p f small up (size, timer) = (
    λ _. ground (
      arith,
      size up,
      length-append (bytes_of f.stored) (take disk.written p),
      length-take_le disk.written p,
    ),
    λ _ h. ground (arith, timer up h),
  )

  -- A write to a file with a positive limit whose size and timer are tracked, when the disk answers
  -- `Stat` (whose error the code drops), truncates and seeks, and no size overflows: both stay tracked,
  -- and the file is below its limit if it is open, whether or not the write itself succeeded. It reports
  -- the bytes that the system took, and leaves the file as it was if the file cannot be opened.
  pub write_file-IsBounded :
      (p : Text) (f : LimitedFile)
      → disk.stat_ok ≡ true
      → disk.truncate_ok ≡ true
      → disk.seek_ok ≡ true
      → pos 0 <ℤ f.maxsize
      → length (bytes_of f.stored) + length p < 2 ^ 63
      → Tracks f
      → ((open_file disk f ≡ none) × (write_file disk p f ≡ (f, (0, false))))
        ⊎ (((write_file disk p f).1 ≡ (length (take disk.written p), disk.write_ok))
            × Tracks (write_file disk p f).0
            × IsBounded (write_file disk p f).0)
  unfolding write_file append_bytes
  write_file-IsBounded p f stat cut sought limit small valid =
      elim (Option-cases (open_file disk f)) [
        | inl e ↦ inl (e, rw (e, write_file) refl)
        | inr (f1, e) ↦
            let (tracks, up, same, max) = open_file-Tracks f f1 stat valid e in
            let (after, bounded) =
              truncate-Tracks (append_bytes disk p f1) cut sought (rw max limit)
                (append_bytes-Tracks p f1 (rw same small) up tracks) in
            inr (rw (e, write_file) (refl, after, bounded))
      ]

  truncate-maxsize : (g : LimitedFile) → (truncate disk g).maxsize ≡ g.maxsize
  unfolding truncate
  truncate-maxsize g = ground arith

  -- A new positive limit, when the disk truncates and seeks, holds at once: the file stays consistent
  -- and is below the limit if it is open.
  pub resize-IsBounded :
      (n : ℤ) (f : LimitedFile)
      → disk.truncate_ok ≡ true
      → disk.seek_ok ≡ true
      → pos 0 <ℤ n
      → Tracks f
      → ((resize disk n f).maxsize ≡ n) × Tracks (resize disk n f) × IsBounded (resize disk n f)
  unfolding resize
  resize-IsBounded n f cut sought limit valid =
      let grown : leb_ℤ n (pos 0) ≡ false = ground arith in
      let (after, bounded) = truncate-Tracks (record f { maxsize = n }) cut sought limit valid in
      rw (grown, resize) (truncate-maxsize (record f { maxsize = n }), after, bounded)
