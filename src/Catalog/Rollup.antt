-- ===== src/Catalog/Rollup.antt =====
-- What one environment's Ready condition adds to the rollup of a catalog.
use flox_controller.Prelude.{
  ℕ, suc, String, ◌<>◌, not, Option, none, some, ◌==◌, string_eq, nat_eq, if◌then◌else◌, decimal,
}
use flox_controller.Api.{Condition}

-- The counts of the rollup: ready environments, and those that are being realised.
pub record Counts : Type 0 where
  pub ready : ℕ
  pub realizing : ℕ

-- What one Ready condition adds to the counts.
unfoldable pub count : Option Condition → Counts → Counts
count none n = n
count (some c) n =
    if c.status == "True"
    then record n { ready = suc n.ready }
    else if c.reason == "Realizing"
    then record n { realizing = suc n.realizing }
    else n

unfoldable pub phase_of : Option Condition → String
phase_of none = ""
phase_of (some c) = c.reason

-- The string that tells two states of a Ready condition apart.
unfoldable pub readiness_of : Option Condition → String
readiness_of none = ""
readiness_of (some c) = c.status <> ("/" <> c.reason)

unfoldable pub rollup_summary : ℕ → Counts → String
rollup_summary total n =
    let summary = decimal n.ready <> ("/" <> (decimal total <> " ready")) in
    if not (n.realizing == 0)
    then summary <> (", " <> (decimal n.realizing <> " realizing"))
    else summary
