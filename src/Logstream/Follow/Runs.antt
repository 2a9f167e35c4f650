-- ===== src/Logstream/Follow/Runs.antt =====
-- Whole runs of a session, from its connection on.
use localapp.Base.{ℕ, ◌≡◌, ◌≢◌, ◌⊎◌, All, List}
use localapp.Text.{Str}
use localapp.Logstream.Follow.{Happening, evicted}
use localapp.Logstream.Follow.Pieces.{IsPiece}

-- The entry is not evicted.
abbrev pub Stays : List Happening → Type 0
Stays hs = All (λ h. h ≢ evicted) hs

-- A client may resume from 0, or from the end of the piece that it shows.
abbrev pub Resumes : Str → ℕ → Str → Type 0
Resumes total offset shown = (offset ≡ 0) ⊎ ((later : Str) × IsPiece total shown offset later)
