-- ===== src/Cmd/Follow.antt =====
-- cmd/localapp/logs.go: showing the end of the daemon's log, and following the file. A poll sees the
-- file as it is then; a file that is not there is `none`. The calls of the file system succeed.
pub mod Polls
use localapp.Base.{
  ℕ, zero, suc, ◌+◌, ◌-◌, ◌*◌, Bool, true, false, ◌&&◌, Option, none, some, List, [], ◌∷◌, ◌++◌,
  length, take, drop, ltb, if◌then◌else◌, ◌>>=◌,
}
use localapp.Text.{Str}
use localapp.Cmd.Tail.{last_lines}

abbrev pub tail_read_chunk : ℕ
tail_read_chunk = 64 * 1024

-- The length of `buf` in followFile.
abbrev pub buffer_size : ℕ
buffer_size = 32 * 1024

-- writeTail: what is written, and the offset of the end.
unfoldable pub read_from : ℕ → ℕ → ℕ
read_from size n = if ltb 0 n && ltb tail_read_chunk size then size - tail_read_chunk else 0

unfoldable pub write_tail : Str → ℕ → Str × ℕ
unfolding read_from
write_tail file n = (last_lines (drop (read_from (length file) n) file) n, length file)

-- The loop of drain: one ReadAt a round, until a read comes short (io.EOF). `none`: out of fuel.
unfoldable pub read_on : ℕ → Str → ℕ → Option (Str × ℕ)
read_on zero file offset = none
read_on (suc fuel) file offset =
    let chunk = take buffer_size (drop offset file) in
    let more = (do
      (out, end) ← read_on fuel file (offset + length chunk)
      some (chunk ++ out, end)) in
    if ltb (length chunk) buffer_size then some (chunk, offset + length chunk) else more

-- drain
unfoldable pub drain : Option Str → ℕ → Option (Str × ℕ)
unfolding read_on
drain none offset = some ([], 0)
drain (some file) offset =
    let from = if ltb (length file) offset then 0 else offset in
    read_on (suc (length file)) file from

-- followFile, over the files that its polls see: all that is written, and the last offset.
unfoldable pub follow_file : List (Option Str) → ℕ → Option (Str × ℕ)
unfolding drain
follow_file [] offset = some ([], offset)
follow_file (file ∷ files) offset = do
  (out, next) ← drain file offset
  (rest, end) ← follow_file files next
  some (out ++ rest, end)
