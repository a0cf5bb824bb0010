-- ===== src/Swap/Units.antt =====
-- src/swap/usdb-units.ts.
use spark_ln_address.Prelude.{Text, codes, Option, none, some}
use mathlib.Core.Option
use spark_ln_address.Database.{Storage}

-- `none` where `new Prisma.Decimal` throws on a text that is no number.
unfoldable pub usdb_smallest_units_to_decimal : (S : Storage) → Text → Option S.Money
usdb_smallest_units_to_decimal S smallest_units = elim (S.decimal_of smallest_units) [
  | none ↦ none
  | some raw ↦ Option.map (λ million. S.div raw million) (S.decimal_of (codes "1000000"))
]
