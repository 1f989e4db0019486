-- ===== src/Tests/Sockets.antt =====
-- The theorems on src/vmod_tcp.c at concrete inputs.
use operations_debs_varnish.Base.{
  ℕ, false, ◌*◌, [], arith, ◌-◌, ◌^◌, ◌≡◌, ◌↔◌, ◌⊎◌, ◌∷◌, none, some,
}
use operations_debs_varnish.Base.Int.{ℤ, pos, ◌≤ℤ◌}
use operations_debs_varnish.Tcp.{
  Kernel, pace_rate, set_socket_pace, pace_failed, paced, pace_is, printed, pace_lines, as_unsigned,
}
use operations_debs_varnish.Tcp.Socket.{set_socket_pace_lem}

-- The socket of a kernel that keeps the pace
abbrev pacing : Kernel
pacing = record {
  State = ℤ;
  tcp_info = λ fd k. none;
  congestion = λ fd k. none;
  set_congestion = λ fd s k. none;
  pace = λ fd k. (pos 0, as_unsigned 32 k);
  set_pace = λ fd p k. some p;
}

-- 4 GB/s and more do not fit.
abbrev rate : ℤ
rate = pos (2 ^ 22)

set_socket_pace_lem_example :
    (k' : ℤ) × (n : ℕ) × (((pacing.set_pace (pos 5) (pace_rate rate) (pos 0) ≡ none)
        × (set_socket_pace pacing false (some (pos 5)) rate (pos 0)
            ≡ some (pos 0, pace_failed ∷ pace_lines pacing false (pos 5) (pos 0))))
      ⊎ ((pacing.set_pace (pos 5) (pace_rate rate) (pos 0) ≡ some k')
          × (pacing.pace (pos 5) k' ≡ (pos 0, n))
          × (set_socket_pace pacing false (some (pos 5)) rate (pos 0)
              ≡ some (k', paced (as_unsigned 64 rate) ∷ (pace_is (pos 0) (printed n) ∷ [])))
          × ((n ≡ as_unsigned 64 rate * 1024) ↔ ((pos 0 ≤ℤ rate) × (rate ≤ℤ pos (2 ^ 22 - 1))))))
set_socket_pace_lem_example =
    set_socket_pace_lem pacing (λ fd p k k' e. cc) false (pos 5) rate (pos 0) (omega arith)
      (omega arith)
