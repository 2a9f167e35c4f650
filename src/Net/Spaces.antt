-- ===== src/Net/Spaces.antt =====
-- TrimSpace on a line.
use localapp.Base.{◌≡◌, refl, [], ◌∷◌, ◌++◌}
use localapp.Text.{Str}
use localapp.Net.{is_space, trim_space_right, trim_space}
use localapp.Net.HostPort.{IsSpaceFree}

trim_right-line : (s : Str) → IsSpaceFree s → trim_space_right (s ++ 10 ∷ []) ≡ s
unfolding trim_space_right is_space
trim_right-line [] h = refl
trim_right-line (c ∷ []) h = rw h.0 refl
trim_right-line (c ∷ d ∷ s) h = rw (trim_right-line (d ∷ s) h.1) refl

-- The newline at the end of a line goes.
pub trim_space-line : (s : Str) → IsSpaceFree s → trim_space (s ++ 10 ∷ []) ≡ s
unfolding trim_space is_space
trim_space-line [] h = refl
trim_space-line (c ∷ s) h = rw h.0 (trim_right-line (c ∷ s) h)
