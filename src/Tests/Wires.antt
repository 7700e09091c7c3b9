-- ===== src/Tests/Wires.antt =====
-- Samples as the daemon decodes them.
use amon.Common.{◌<◌, ◌≡◌, refl, ◌↔◌, [], ◌∷◌, some, none}
use amon.Wire.{openat_fields, connect_fields, signal_fields, exit_fields, decode}
use amon.Wire.Fields.{read_uint}
use amon.Wire.Layout.{openat_bytes, connect_bytes, signal_bytes, exit_bytes, decode_lem}
use amon.Wire.Lengths.{decode_iff}
use amon.Tests.Samples.{
  opened, connected, signalled, exited, exited-Fits, opened-Fits, connected-Fits, signalled-Fits,
}

decode_short : decode connect_fields (3 ∷ 0 ∷ 0 ∷ 0 ∷ []) ≡ none
unfolding decode connect_fields read_uint
decode_short = refl

decode_lem_example :
    (decode openat_fields (openat_bytes opened (9 ∷ [])) ≡ some opened)
    × (decode connect_fields (connect_bytes connected (9 ∷ [])) ≡ some connected)
    × (decode signal_fields (signal_bytes signalled (9 ∷ [])) ≡ some signalled)
    × (decode exit_fields (exit_bytes exited (1 ∷ 2 ∷ 3 ∷ []) (4 ∷ 5 ∷ 6 ∷ 7 ∷ []) (9 ∷ []))
        ≡ some exited)
decode_lem_example =
    decode_lem opened connected signalled exited (1 ∷ 2 ∷ 3 ∷ []) (4 ∷ 5 ∷ 6 ∷ 7 ∷ []) (9 ∷ [])
      opened-Fits connected-Fits signalled-Fits exited-Fits refl refl

decode_iff_example :
    ((decode openat_fields (1 ∷ []) ≡ none) ↔ (1 < 308))
    × ((decode connect_fields (1 ∷ []) ≡ none) ↔ (1 < 40))
    × ((decode signal_fields (1 ∷ []) ≡ none) ↔ (1 < 56))
    × ((decode exit_fields (1 ∷ []) ≡ none) ↔ (1 < 76))
decode_iff_example = decode_iff (1 ∷ [])
