-- ===== src/Ucp/Stream/Ack/Rto.antt =====
-- src/ucp/internal.rs: `update_rto` in u32 arithmetic against the formula over plain numbers.
use stunnel.Base.{ℕ, ◌+◌, ◌-◌, ◌*◌, ◌/◌, ◌^◌, ◌≤◌, min, max, ◌≡◌, ◌==◌, if◌then◌else◌, arith}
use stunnel.Ucp.Stream.{InnerStream, update_rto}

-- The estimate of the round trip time starts with the first sample.
abbrev pub base_srtt : InnerStream → ℕ → ℕ
base_srtt s rtt = if s.srtt == 0 then rtt else s.srtt

-- With samples and estimates of at most 2 ^ 28 milliseconds nothing wraps in `update_rto`: the
-- estimate is the weighted mean, the variance that of the deviations, both stay within the same
-- bound, the timeout is the mean and four variances, and the new estimate lies between the old one
-- and the sample.
pub update_rto_exact :
    (s : InnerStream) (rtt bound : ℕ)
    → bound ≤ 2 ^ 28
    → rtt ≤ bound
    → s.srtt ≤ bound
    → s.rttvar ≤ bound
    → let s' = update_rto s rtt in
      (s'.srtt ≡ (9 * base_srtt s rtt + rtt) / 10)
      × (s'.rttvar ≡ (3 * s.rttvar + (max rtt s'.srtt - min rtt s'.srtt)) / 4)
      × (s'.rto ≡ s'.srtt + 4 * s'.rttvar)
      × (s'.srtt ≤ bound)
      × (s'.rttvar ≤ bound)
      × (min (base_srtt s rtt) rtt ≤ s'.srtt)
      × (s'.srtt ≤ max (base_srtt s rtt) rtt)
unfolding update_rto
update_rto_exact s rtt bound hb hr hs hv = ground arith
