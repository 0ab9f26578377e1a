-- ===== src/Core/Config.antt =====
-- packages/core/src/config.ts: settings that are numbers.
use cell_flow.Prelude.{ℕ, min, max, Option, none, some}

-- `boundedInteger`, on the whole part of the number that the text is read as.
abbrev pub bounded_integer : Option ℕ → ℕ → ℕ → ℕ → ℕ
bounded_integer none fallback low high = fallback
bounded_integer (some parsed) fallback low high = min (max parsed low) high
