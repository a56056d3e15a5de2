-- ===== src/Nodes/Examples.antt =====
-- src/nodes.rs: the theorem at a concrete name.
use subnext.Prelude.{◌≡◌, ◌↔◌, some}
use subnext.Prelude.Bytes.{codes}
use subnext.Nodes.{
  evidence, observed, stale, supports, kind_parse, kind_as_str, origin_parse, origin_as_str,
  status_parse, status_as_str, edge_parse, edge_as_str,
}
use subnext.Nodes.Names.{parse_iff_as_str}

parse_iff_as_str_example :
    ((kind_parse (codes "stale") ≡ some evidence) ↔ (kind_as_str evidence ≡ codes "stale"))
    × ((origin_parse (codes "stale") ≡ some observed) ↔ (origin_as_str observed ≡ codes "stale"))
    × ((status_parse (codes "stale") ≡ some stale) ↔ (status_as_str stale ≡ codes "stale"))
    × ((edge_parse (codes "stale") ≡ some supports) ↔ (edge_as_str supports ≡ codes "stale"))
parse_iff_as_str_example = parse_iff_as_str (codes "stale") evidence observed stale supports
