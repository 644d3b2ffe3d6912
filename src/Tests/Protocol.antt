-- ===== src/Tests/Protocol.antt =====
-- Values and reasons at concrete texts.
use agentic_negotiators_sbx.Prelude.{arith, codes, ok, refl, ◌≡◌}
use agentic_negotiators_sbx.Protocol.Decimal.{parse-iff-to_json}
use agentic_negotiators_sbx.Protocol.Values.{parse, to_json}

parse-iff-to_json_example : parse (codes "120") ≡ ok 120
unfolding to_json
parse-iff-to_json_example = (parse-iff-to_json (codes "120") 120).1 (omega arith, refl)
