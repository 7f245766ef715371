-- ===== src/Mydb/DataFormat/Tests.antt =====
-- Runs of mydb/data_format.c at fixed inputs, and its theorems at inputs that meet their hypotheses.
use donkeyji.Prelude.{◌≡◌, refl, some, [], ◌∷◌}
use donkeyji.Prelude.Int.{negsuc}
use donkeyji.Prelude.Exec.{ok}
use donkeyji.Mydb.DataFormat.{
  packed, bytes_of, value_of, as_int, magnitude, read, number_bytes, pack_number, unpack_number,
}

-- -300 takes a byte for the sign and two for the number
packs : pack_number (negsuc 299) 8 ≡ packed (5 ∷ 44 ∷ 1 ∷ [])
unfolding pack_number number_bytes magnitude bytes_of
packs = refl

unpacks : unpack_number (5 ∷ 44 ∷ 1 ∷ 7 ∷ []) ≡ ok (some (negsuc 299, 3))
unfolding unpack_number read value_of as_int
unpacks = refl
