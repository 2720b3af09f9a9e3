-- ===== src/Capsule/Ranges/Tests.antt =====
-- Merging at concrete inputs.
use straw.Common.{ℕ, ◌≡◌, refl, List, [], ◌∷◌, sort_by, arith}
use straw.Ip.{v4}
use straw.Capsule.{IpAddressRange}
use straw.Capsule.Ranges.{merge_ranges, merge_sorted, merge_from, joins, extended}
use straw.Capsule.Ranges.Laws.{any_contains, merge_ranges_lem}

abbrev range : ℕ → ℕ → ℕ → IpAddressRange
range start end protocol = record {
  ip_version = 4;
  start_ip = v4 start;
  end_ip = v4 end;
  ip_protocol = protocol;
}

-- Adjacent ranges in the wrong order, and one apart.
abbrev ranges : List IpAddressRange
ranges = range 10 19 0 ∷ range 1 9 0 ∷ range 30 40 0 ∷ []

ranges_merged : merge_ranges ranges ≡ range 1 19 0 ∷ range 30 40 0 ∷ []
unfolding merge_ranges merge_sorted merge_from joins extended sort_by
ranges_merged = refl

-- A range of another protocol between them keeps two overlapping ranges apart.
interleaved_kept :
    merge_ranges (range 1 9 6 ∷ range 2 3 17 ∷ range 5 12 6 ∷ [])
    ≡ range 1 9 6 ∷ range 2 3 17 ∷ range 5 12 6 ∷ []
unfolding merge_ranges merge_sorted merge_from joins extended sort_by
interleaved_kept = refl

merge_ranges_lem_example :
    any_contains (merge_ranges ranges) (v4 15) 17 ≡ any_contains ranges (v4 15) 17
merge_ranges_lem_example = merge_ranges_lem ranges (v4 15) 17 (omega arith)
