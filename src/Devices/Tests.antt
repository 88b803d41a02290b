-- ===== src/Devices/Tests.antt =====
-- A table with two rows of one name.
use teatime_os.Base.{ℕ, ◌≡◌, refl, false, none, some, List, [], ◌∷◌}
use teatime_os.Devices.{Devtab, dev_register, dev_alloc}
use teatime_os.Devices.Table.{Claimed, dev_alloc-Claimed}

abbrev no_rows : Devtab
no_rows _ = record { name = none; ops = 0; state = 0; used = false; cond = none }

abbrev gpio : List ℕ
gpio = 103 ∷ 112 ∷ 105 ∷ 111 ∷ []

abbrev two_rows : Devtab
two_rows = (dev_register gpio 1 0 (some 4) (dev_register gpio 1 1 (some 5) no_rows).0).0

-- A second claim gets the other row, a third none.
claims_run : (dev_alloc gpio (dev_alloc gpio two_rows).0).1 ≡ some 1
unfolding dev_alloc dev_register
claims_run = refl

dev_alloc-Claimed_example : Claimed gpio two_rows (dev_alloc gpio two_rows)
dev_alloc-Claimed_example = dev_alloc-Claimed gpio two_rows
