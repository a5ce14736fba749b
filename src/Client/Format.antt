-- ===== src/Client/Format.antt =====
-- frontend/src/api/client.ts: `fmtBytes` and `fmtRam`, on whole numbers below 2^53. Division by a
-- power of two is exact on these, so `toFixed` rounds the exact quotient.
use rig_stack.Prelude.{ℕ, ◌+◌, ◌*◌, ◌/◌, ◌%◌, ◌^◌, String, ◌<>◌, ◌≡◌, refl, leb, if◌then◌else◌}
use rig_stack.Prelude.Text.{decimal}

-- `(m / d).toFixed(0)`: the nearest whole number, and the larger of two that are as near.
abbrev pub nearest : ℕ → ℕ → ℕ
nearest m d = (2 * m + d) / (2 * d)

abbrev fixed_zero : ℕ → ℕ → String
fixed_zero m d = decimal (nearest m d)

-- `(m / d).toFixed(1)`.
abbrev fixed_one : ℕ → ℕ → String
fixed_one m d =
    let tenths = nearest (10 * m) d in decimal (tenths / 10) <> "." <> decimal (tenths % 10)

unfoldable pub fmt_bytes : ℕ → String
fmt_bytes b =
    if leb (1024 ^ 3) b
    then fixed_one b (1024 ^ 3) <> " GB"
    else if leb (1024 ^ 2) b
    then fixed_zero b (1024 ^ 2) <> " MB"
    else decimal b <> " B"

unfoldable pub fmt_ram : ℕ → String
fmt_ram mb = if leb 1024 mb then fixed_zero mb 1024 <> " GB" else decimal mb <> " MB"

gigabytes : fmt_bytes 1610612736 ≡ "1.5 GB"
unfolding fmt_bytes decimal
gigabytes = refl

ram : fmt_ram 1536 ≡ "2 GB"
unfolding fmt_ram decimal
ram = refl
