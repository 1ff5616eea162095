-- ===== src/LfsPart/Tests.antt =====
-- Two partitions of the same label, and two blocks of a partition of a megabyte.
use esp32_components.Base.{ℕ, ◌+◌, ◌^◌, ◌≤◌, ◌≡◌, refl, false, [], ◌∷◌, Option, ◌⊎◌, arith, returns}
use esp32_components.LfsPart.{Partition, Registry, get_partition, part_off}
use esp32_components.LfsPart.Blocks.{part_off_apart}
use esp32_components.LfsPart.Lookup.{register_all, Found, get_partition-Found}

part_off_apart_example :
    (part_off 3 128 + 256 ≤ 2 ^ 20)
    × ((part_off 3 128 + 256 ≤ part_off 7 0) ⊎ (part_off 7 0 + 4096 ≤ part_off 3 128))
part_off_apart_example =
    part_off_apart (2 ^ 20) 3 7 128 0 256 4096 (omega arith) (omega arith) (omega arith)
      (omega arith) (omega arith) (omega arith)

abbrev partition : ℕ → Partition
partition p = record { label = 108 ∷ 102 ∷ 115 ∷ []; address = 2 ^ 16; size = 2 ^ 20 }

abbrev registry : Registry
registry = record { list = 9; links = λ q. record { next = 0; prev = 0 }; initialized = false }

get_partition-Found_example :
    (o : Option ℕ) × (get_partition 3 partition
        (register_all registry (4 ∷ 5 ∷ []))
        (108 ∷ 102 ∷ 115 ∷ [])
      ≡ returns o)
    × Found partition (108 ∷ 102 ∷ 115 ∷ []) (4 ∷ 5 ∷ []) o
get_partition-Found_example =
    get_partition-Found 3 partition registry 4 (5 ∷ []) (108 ∷ 102 ∷ 115 ∷ []) refl
      (((λ e. omega arith), _), (((λ e. omega arith), ((λ e. omega arith), _)), _)) (omega arith)
