-- ===== src/Batch/Tests.antt =====
-- Runs of batch.rs, and its theorems at concrete inputs.
use sans_effort.Shared.{ℕ, ◌≡◌, refl, List, [], ◌∷◌}
use sans_effort.Batch
use sans_effort.Batch.{Batch, from_vec, as_slice, into_vec, two, many, map}

abbrev three : List ℕ
three = 1 ∷ 2 ∷ 3 ∷ []

abbrev pair : Batch ℕ
pair = two 1 2

abbrev pair_list : List ℕ
pair_list = 1 ∷ 2 ∷ []

three_spill : from_vec three ≡ many three
unfolding from_vec Batch.push
three_spill = refl

abbrev spilled : Batch ℕ
spilled = many (1 ∷ 2 ∷ 3 ∷ [])
