-- ===== src/Pipelog/Tail.antt =====
-- library/pipelog/fs.go, `tailN`: the last lines of a file, read in blocks from its end. `content` is
-- the file; `readable pos` says whether the read at `pos` succeeds; `accepts` whether the writer takes
-- a line. `none` is an error that stops the call. The block size of the source is 4096.
pub mod Laws
use ssoc_broker.Base.{
  ℕ, zero, suc, ◌+◌, ◌-◌, List, [], ◌∷◌, ◌++◌, Option, none, some, Bool, true, false, ◌&&◌,
  if◌then◌else◌, ltb, leb, ◌==◌, length, take, drop, Text,
}

-- One byte before the lines of what follows it.
abbrev pub glue : ℕ → List Text → List Text
glue c [] = (c ∷ []) ∷ []
glue c (l ∷ ls) = (c ∷ l) ∷ ls

-- `bytes.Lines`: each line with its newline, and a last one without if the text does not end in one.
unfoldable pub lines : Text → List Text
lines [] = []
lines (c ∷ s) = let rest = lines s in if c == 10 then (c ∷ []) ∷ rest else glue c rest

-- The loop of `tailN`: position, buffer and the lines of the buffer. It ends within as many rounds
-- as the position has bytes before it.
unfoldable pub tail_loop : (ℕ → Bool) → Text → ℕ → ℕ → ℕ → ℕ → Text → List Text → Option (List Text)
unfolding lines
tail_loop readable content block n zero pos buffer ls = some ls
tail_loop readable content block n (suc fuel) pos buffer ls =
    let size = if ltb pos block then pos else block in
    let buffer' = take size (drop (pos - size) content) ++ buffer in
    let rest = tail_loop readable content block n fuel (pos - size) buffer' (lines buffer') in
    let read = if readable (pos - size) then rest else none in
    if ltb 0 pos && leb (length ls) n then read else some ls

-- `if n >= 0 && len(lines) > n { lines = lines[len(lines)-n:] }`, for `n` from 0 up.
abbrev pub last_lines : ℕ → List Text → List Text
last_lines n ls = if ltb n (length ls) then drop (length ls - n) ls else ls

-- The writes: what the writer took, and whether it took all.
unfoldable pub write_lines : (Text → Bool) → List Text → List Text × Bool
write_lines accepts [] = ([], true)
write_lines accepts (l ∷ ls) =
    let (taken, all) = write_lines accepts ls in if accepts l then (l ∷ taken, all) else ([], false)

unfoldable pub tail_n : (ℕ → Bool) → (Text → Bool) → Text → ℕ → ℕ → Option (List Text × Bool)
unfolding tail_loop write_lines
tail_n readable accepts content block n =
    let size = length content in
    elim (tail_loop readable content block n size size [] []) [
      | none ↦ none
      | some ls ↦ some (write_lines accepts (last_lines n ls))
    ]
