-- ===== src/Tests/Wires.antt =====
-- The integers of src/libpgexporter/utils.c at concrete values.
use pgexporter.Prelude.{◌≡◌, refl, false, ◌∷◌, [], ◌++◌, arith}
use pgexporter.Prelude.Int.{pos}
use pgexporter.Wire.{write_unsigned, write_int64, read_int64, low_first, network_order, number_of}
use pgexporter.Wire.Network.{write_network, read_write_int64}
use mathlib.Core.List.{reverse}

little_260 : write_unsigned false 2 260 ≡ 1 ∷ 4 ∷ []
unfolding write_unsigned network_order number_of low_first
little_260 = refl

read_write_int64_example : read_int64 false (write_int64 false (pos 65536) ++ []) ≡ pos 65536
read_write_int64_example = read_write_int64 false false (pos 65536) [] (omega arith)

write_network_example : write_unsigned false 4 77 ≡ reverse (low_first 4 77)
write_network_example = write_network false 4 77
