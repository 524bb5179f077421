-- ===== src/QueryCache/Counters.antt =====
-- The counters of src/QueryCache/QueryCache.{hpp,cpp}.
use single_flight_proxy_serv.Prelude.{ℕ, Bool, if◌then◌else◌, inc64}

pub record Stats : Type 0 where
  pub l1_hits : ℕ
  pub l1_misses : ℕ
  pub l2_hits : ℕ
  pub l2_misses : ℕ
  pub l1_size : ℕ

abbrev pub zero_stats : Stats
zero_stats = record { l1_hits = 0; l1_misses = 0; l2_hits = 0; l2_misses = 0; l1_size = 0 }

unfoldable pub update_stats : Bool → Bool → Stats → Stats
unfolding inc64
update_stats l1_hit l2_hit s =
    if l1_hit
    then record s { l1_hits = inc64 s.l1_hits }
    else (let s' = record s { l1_misses = inc64 s.l1_misses } in
        if l2_hit
        then record s' { l2_hits = inc64 s.l2_hits }
        else record s' { l2_misses = inc64 s.l2_misses })
