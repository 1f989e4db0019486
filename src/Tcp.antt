-- ===== src/Tcp.antt =====
-- src/vmod_tcp.c: what VCL reads of the connection of a request and sets on it. A function gives its
-- result, the state of the kernel's sockets and the log; `none` is a failed assertion, or a read
-- through a null pointer.
pub mod Socket
use operations_debs_varnish.Base.{
  ℕ, zero, suc, ◌-◌, ◌/◌, ◌%◌, ◌^◌, Bool, false, true, List, [], ◌∷◌, ◌++◌, take, Option, none,
  some, if◌then◌else◌, Bytes,
}
use operations_debs_varnish.Base.Int.{ℤ, pos, negsuc, ◌*ℤ◌, to_int}

-- The fields of struct tcp_info that the module reads: u_int32_t each.
pub record TcpInfo : Type 0 where
  pub snd_mss : ℕ
  pub rcv_mss : ℕ
  pub lost : ℕ
  pub retrans : ℕ
  pub pmtu : ℕ
  pub rtt : ℕ
  pub rttvar : ℕ
  pub snd_cwnd : ℕ
  pub advmss : ℕ
  pub reordering : ℕ

-- getsockopt() and setsockopt() of the kernel, with the descriptor first; `none` is a negative result.
-- A pace that is read comes with the result of the call, and is 0 where the call fills nothing in.
pub record Kernel : Type 1 where
  pub State : Type 0
  pub tcp_info : ℤ → State → Option TcpInfo
  pub congestion : ℤ → State → Option Bytes
  pub set_congestion : ℤ → Bytes → State → Option State
  pub pace : ℤ → State → ℤ × ℕ
  pub set_pace : ℤ → ℤ → State → Option State

-- The log lines of the module; a %i prints the int that an unsigned field is read as.
pub data Line : Type 0 where
  getsockopt_failed : Line
  tcpi : (snd_mss rcv_mss lost retrans : ℤ) → Line
  tcpi2 : (pmtu rtt rttvar snd_cwnd advmss reordering : ℤ) → Line
  congestion_failed congestion_is : Bytes → Line
  pace_failed : Line
  paced : ℕ → Line
  pace_is : ℤ → ℤ → Line

-- A u_int32_t printed as an int
abbrev pub printed : ℕ → ℤ
printed u = to_int (pos u)

abbrev pub dump_lines : TcpInfo → List Line
dump_lines i =
    tcpi (printed i.snd_mss) (printed i.rcv_mss) (printed i.lost) (printed i.retrans)
    ∷ tcpi2 (printed i.pmtu) (printed i.rtt) (printed i.rttvar) (printed i.snd_cwnd)
        (printed i.advmss) (printed i.reordering)
    ∷ []

-- AN(ctx->req->sp->fd)
abbrev pub is_null : ℤ → Bool
is_null (pos zero) = true
is_null (pos (suc n)) = false
is_null (negsuc n) = false

-- TCP_CA_NAME_MAX
abbrev pub ca_name_max : ℕ
ca_name_max = 16

-- int pacerate = rate * 1024
unfoldable pub pace_rate : ℤ → ℤ
pace_rate rate = to_int (rate *ℤ pos 1024)

-- A signed integer read as an unsigned one of w bits
unfoldable pub as_unsigned : ℕ → ℤ → ℕ
as_unsigned w (pos n) = n % 2 ^ w
as_unsigned w (negsuc n) = 2 ^ w - 1 - n % 2 ^ w

-- `ndebug` is whether NDEBUG is defined; HAVE_TCP_INFO is. A request is its descriptor.
module _ (K : Kernel) (ndebug : Bool) where
  open K use {State, tcp_info, congestion, set_congestion, pace, set_pace}

  -- vmod_dump_info()
  unfoldable pub dump_info : Option ℤ → State → Option (List Line)
  dump_info none k = some []
  dump_info (some fd) k =
      if is_null fd
      then none
      else some (elim (tcp_info fd k) [ none ↦ getsockopt_failed ∷ [] | some i ↦ dump_lines i ])

  -- vmod_get_estimated_rtt(), a REAL that is always a whole number here
  unfoldable pub get_estimated_rtt : Option ℤ → State → Option (ℕ × List Line)
  get_estimated_rtt none k = some (0, [])
  get_estimated_rtt (some fd) k =
      if is_null fd
      then none
      else some (elim (tcp_info fd k) [
        | none ↦ (0, getsockopt_failed ∷ [])
        | some i ↦ (i.rtt / 1000, [])
      ])

  -- What the module reads back after it has set the algorithm
  unfoldable pub congestion_lines : ℤ → State → List Line
  congestion_lines fd k = if ndebug then [] else elim (congestion fd k) [
    | none ↦ getsockopt_failed ∷ []
    | some name ↦ congestion_is (take ca_name_max name) ∷ []
  ]

  -- vmod_congestion_algorithm()
  unfoldable pub congestion_algorithm :
      Option ℤ → Option Bytes → State → Option (ℤ × State × List Line)
  congestion_algorithm none new k = some (negsuc 0, k, [])
  congestion_algorithm (some fd) none k = none
  congestion_algorithm (some fd) (some new) k =
      if is_null fd
      then none
      else (let strategy = take ca_name_max new in
          some (elim (set_congestion fd strategy k) [
            | none ↦ (negsuc 0, k, congestion_failed strategy ∷ [])
            | some k' ↦ (pos 0, k', congestion_lines fd k')
          ]))

  abbrev pub pace_lines : ℤ → State → List Line
  pace_lines fd k = if ndebug then [] else (let p = pace fd k in pace_is p.0 (printed p.1) ∷ [])

  -- vmod_set_socket_pace(), which does not look whether there is a request, and prints the rate with %lu
  unfoldable pub set_socket_pace : Option ℤ → ℤ → State → Option (State × List Line)
  set_socket_pace none rate k = none
  set_socket_pace (some fd) rate k = some (elim (set_pace fd (pace_rate rate) k) [
    | none ↦ (k, pace_failed ∷ pace_lines fd k)
    | some k' ↦ (k', paced (as_unsigned 64 rate) ∷ pace_lines fd k')
  ])
