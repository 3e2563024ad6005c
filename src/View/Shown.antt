-- ===== src/View/Shown.antt =====
-- What stays where it is in the window, as it is drawn: the position is rounded to whole pixels of the
-- window.
use scroom.Common.{ℕ}
use scroom.Common.Int.{ℤ, pos, ◌+ℤ◌, ◌≤ℤ◌}
use scroom.Rectangle.{Point}
use scroom.View.{View}

-- At most n halves apart.
abbrev pub IsNear : ℕ → ℤ → ℤ → Type 0
IsNear n a b = (a +ℤ a ≤ℤ b +ℤ b +ℤ pos n) × (b +ℤ b ≤ℤ a +ℤ a +ℤ pos n)

abbrev pub AreNear : ℕ → Point → Point → Type 0
AreNear n p q = IsNear n p.x q.x × IsNear n p.y q.y
