-- ===== src/Screen/Tests.antt =====
-- Runs of the serializer and of the SGR sequences at inputs of src/mirror.rs's tests.
use g2mirror.Prelude.{◌≡◌, refl, true, ascii, ◌∷◌, ℕ, List}
use g2mirror.Prelude.Decimal.{decimal, digits}
use g2mirror.Screen.{Color}
use g2mirror.Screen.Style.{CellStyle, default_style, emit_sgr}
use g2mirror.Screen.Sgr.{any_code, sgr, read_codes, emit_sgr-read}

abbrev alert : CellStyle
alert = record default_style { bold = true; fg = Color.idx 9; bg = Color.rgb 0 10 200 }

alert_sequence : emit_sgr alert ≡ 0x1b ∷ ascii "[0;1;91;48;2;0;10;200m"
unfolding emit_sgr decimal digits
alert_sequence = refl

emit_sgr-read_example :
    (ns : List ℕ) × (emit_sgr alert ≡ sgr 0 ns)
    × ((t : CellStyle) → read_codes (any_code, t) (0 ∷ ns) ≡ (any_code, alert))
emit_sgr-read_example = emit_sgr-read alert
