-- ===== src/Tcp/Socket.antt =====
-- src/vmod_tcp.c: what a call does to the socket of the client.
use operations_debs_varnish.Base.{
  ℕ, ◌+◌, ◌*◌, ◌-◌, ◌/◌, ◌^◌, ◌≤◌, ◌<◌, ◌≡◌, ◌↔◌, ◌⊎◌, inl, inr, refl, Bool, false, [], ◌∷◌, take,
  length, take_short, length-take_le, Option-cases, none, some, if◌then◌else◌, Bytes, arith,
}
use operations_debs_varnish.Base.Int.{ℤ, pos, negsuc, ◌*ℤ◌, ◌≤ℤ◌, to_int}
use operations_debs_varnish.Tcp.{
  Kernel, TcpInfo, congestion_is, congestion_failed, is_null, ca_name_max, get_estimated_rtt,
  congestion_lines, congestion_algorithm, pace_rate, set_socket_pace, pace_lines, pace_failed,
  paced, as_unsigned, pace_is, printed,
}

-- The pace that the kernel reads, and the one that a rate printed with %lu stands for
pace_iff :
    (rate : ℤ)
    → negsuc (2 ^ 53 - 1) ≤ℤ rate
    → rate ≤ℤ pos (2 ^ 53 - 1)
    → (as_unsigned 32 (pace_rate rate) ≡ as_unsigned 64 rate * 1024)
      ↔ ((pos 0 ≤ℤ rate) × (rate ≤ℤ pos (2 ^ 22 - 1)))
unfolding pace_rate as_unsigned ◌*ℤ◌ to_int
pace_iff (pos n) lo hi = ground arith
pace_iff (negsuc n) lo hi = ground arith

module _ (K : Kernel) where
  open K use {State, tcp_info, congestion, set_congestion, pace, set_pace}

  -- For a kernel that reads back the name it has accepted: a call with a name on a request whose
  -- descriptor is not 0 gives a result, and no name above 16 bytes is handed to the kernel, the name
  -- itself where it is that short. Either the kernel refuses, the result is -1, the socket is as it was
  -- and the log has the refused name; or the result is 0, the socket has the name handed over, and
  -- without NDEBUG the log shows it.
  pub congestion_algorithm_lem :
      (read_back : (fd : ℤ) (s : Bytes) (k k' : State)
        → set_congestion fd s k ≡ some k'
        → congestion fd k' ≡ some s)
      (ndebug : Bool) (fd : ℤ) (new : Bytes) (k : State) (open_fd : is_null fd ≡ false)
      → (s : Bytes) × (k' : State) × (length s ≤ 16)
        × (length new ≤ 16 → s ≡ new)
        × (((set_congestion fd s k ≡ none)
              × (congestion_algorithm K ndebug (some fd) (some new) k
                  ≡ some (negsuc 0, k, congestion_failed s ∷ [])))
            ⊎ ((set_congestion fd s k ≡ some k')
                × (congestion fd k' ≡ some s)
                × (congestion_algorithm K ndebug (some fd) (some new) k
                    ≡ some (pos 0, k', if ndebug then [] else (congestion_is s ∷ [])))))
  unfolding congestion_algorithm congestion_lines
  congestion_algorithm_lem read_back ndebug fd new k open_fd =
      let s = take ca_name_max new in
      let short = length-take_le ca_name_max new in
      let again : take ca_name_max s ≡ s = take_short ca_name_max s short in
      let same : length new ≤ 16 → s ≡ new = take_short ca_name_max new in
      elim (Option-cases (set_congestion fd s k)) [
        | inl e ↦ (s, k, short, same, inl (e, rw (open_fd, e) refl))
        | inr (k', e) ↦
            (let r = read_back fd s k k' e in
              (s, k', short, same, inr (e, r, rw (open_fd, e, r, again) refl)))
      ]

  -- For a kernel whose sockets keep the pace that it has accepted, which it reads as an unsigned int, and a
  -- rate from -2^53 to 2^53 - 1: a call on a request gives a result. The kernel refuses, the socket is as
  -- it was and the log says so; or the log shows the rate as an unsigned number, and without NDEBUG what
  -- the kernel gives back, and the socket has the pace that the log shows, in bytes, exactly where the
  -- KB are between 0 and 2^22 - 1.
  pub set_socket_pace_lem :
      (keeps : (fd p : ℤ) (k k' : State)
        → set_pace fd p k ≡ some k'
        → pace fd k' ≡ (pos 0, as_unsigned 32 p))
      (ndebug : Bool) (fd rate : ℤ) (k : State) (lo : negsuc (2 ^ 53 - 1) ≤ℤ rate)
      (hi : rate ≤ℤ pos (2 ^ 53 - 1))
      → (k' : State) × (n : ℕ) × (((set_pace fd (pace_rate rate) k ≡ none)
            × (set_socket_pace K ndebug (some fd) rate k
                ≡ some (k, pace_failed ∷ pace_lines K ndebug fd k)))
          ⊎ ((set_pace fd (pace_rate rate) k ≡ some k')
              × (pace fd k' ≡ (pos 0, n))
              × (set_socket_pace K ndebug (some fd) rate k
                  ≡ some (
                    k',
                    paced (as_unsigned 64 rate)
                        ∷ (if ndebug then [] else (pace_is (pos 0) (printed n) ∷ [])),
                  ))
              × ((n ≡ as_unsigned 64 rate * 1024)
                  ↔ ((pos 0 ≤ℤ rate) × (rate ≤ℤ pos (2 ^ 22 - 1))))))
  unfolding set_socket_pace
  set_socket_pace_lem keeps ndebug fd rate k lo hi =
      elim (Option-cases (set_pace fd (pace_rate rate) k)) [
        | inl e ↦ (k, 0, inl (e, rw (e, set_socket_pace) refl))
        | inr (k', e) ↦
            let r = keeps fd (pace_rate rate) k k' e in
            (
              k',
              as_unsigned 32 (pace_rate rate),
              inr (e, r, rw (e, set_socket_pace) (rw r refl), pace_iff rate lo hi),
            )
      ]

  -- With a descriptor other than 0 whose information the kernel gives, the round-trip time is that of
  -- the kernel in whole milliseconds, rounded down, and nothing is logged.
  pub get_estimated_rtt_lem :
      (ndebug : Bool) (fd : ℤ) (i : TcpInfo) (k : State) (open_fd : is_null fd ≡ false)
      (known : tcp_info fd k ≡ some i)
      → (n : ℕ) × (get_estimated_rtt K ndebug (some fd) k ≡ some (n, []))
        × (n * 1000 ≤ i.rtt)
        × (i.rtt < n * 1000 + 1000)
  unfolding get_estimated_rtt
  get_estimated_rtt_lem ndebug fd i k open_fd known =
      (i.rtt / 1000, rw (open_fd, known) refl, omega arith, omega arith)
