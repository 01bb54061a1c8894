-- ===== src/Keyboard/Table.antt =====
-- Sparse arrays, as C initialises them with designators: what is not named is 0.
use myos_io.Base.{ℕ, List, [], ◌∷◌, ◌==◌, if◌then◌else◌}

abbrev pub Table : Type 0
Table = List (ℕ × ℕ)

unfoldable pub entry : Table → ℕ → ℕ
entry [] k = 0
entry ((j, v) ∷ t) k = if j == k then v else entry t k
