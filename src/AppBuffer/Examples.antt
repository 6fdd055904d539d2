-- ===== src/AppBuffer/Examples.antt =====
-- Runs of lib/src/AppBuffer.cpp on small buffers, and its theorems at such inputs.
use geoff.Prelude.{◌≡◌, refl, true, false, List, [], ◌∷◌, some, map, arith}
use geoff.Words.{little, stored16}
use geoff.AppBuffer.{AppBuffer, make, bytes_remaining}
use geoff.AppBuffer.Filled.{filled}
use geoff.AppBuffer.Message.{Field, u8, u16, u32, value, write, read}
use geoff.AppBuffer.Message.Reading.{read-write}

abbrev fresh : AppBuffer
fresh = filled true [] 6

abbrev patched16 : AppBuffer
patched16 = record fresh { buff = 0 ∷ 0x12 ∷ 0x34 ∷ 0 ∷ 0 ∷ 0 ∷ [] }

abbrev patched32 : AppBuffer
patched32 = record fresh { buff = 0 ∷ 0x12 ∷ 0x34 ∷ 0x56 ∷ 0x78 ∷ 0 ∷ [] }

-- A client whose numbers are not exchanged reads in the order of the host.
not_exchanged : stored16 little false 0x1234 ≡ 0x34 ∷ 0x12 ∷ []
unfolding stored16
not_exchanged = refl

abbrev fields : List Field
fields = u8 0xBB ∷ u16 0x1234 ∷ u32 7 ∷ []

read-write_example :
    (ab : AppBuffer) × (ab' : AppBuffer) × (write ⦃host = little⦄ fields (make 7 true) ≡ some ab)
    × (read ⦃host = little⦄ fields ab ≡ some (map value fields, ab'))
    × (bytes_remaining ab' ≡ 0)
read-write_example = read-write ⦃host = little⦄ true 7 fields refl (omega arith)
