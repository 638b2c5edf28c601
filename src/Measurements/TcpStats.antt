-- ===== src/Measurements/TcpStats.antt =====
-- `TcpStats` of src/measurements.rs: optional fields behind a byte of flags, and the form in which
-- they are serialised.
use Prim.Native.Nat.{bit_and, bit_or}
use rperf3_rs.Base.{
  ℕ, ◌*◌, ◌≤◌, ◌-◌, ◌<◌, ◌^◌, ◌≡◌, refl, ap, Bool, not, Option, none, some, if◌then◌else◌, ◌==◌,
  mul64, u64_max, arith,
}

abbrev pub tcp_snd_cwnd_present : ℕ
tcp_snd_cwnd_present = 1

abbrev pub tcp_rtt_present : ℕ
tcp_rtt_present = 2

abbrev pub tcp_rttvar_present : ℕ
tcp_rttvar_present = 4

abbrev pub tcp_pmtu_present : ℕ
tcp_pmtu_present = 8

pub record TcpStats : Type 0 where
  pub retransmits : ℕ
  pub snd_cwnd : ℕ
  pub rtt : ℕ
  pub rttvar : ℕ
  pub pmtu : ℕ
  pub flags : ℕ

-- `TcpStatsDto`: the fields as they are deserialised
pub record TcpStatsDto : Type 0 where
  pub retransmits : ℕ
  pub snd_cwnd : Option ℕ
  pub rtt : Option ℕ
  pub rttvar : Option ℕ
  pub pmtu : Option ℕ

-- `TcpStats::default`
abbrev pub tcp_stats_default : TcpStats
tcp_stats_default = record {
  retransmits = 0;
  snd_cwnd = 0;
  rtt = 0;
  rttvar = 0;
  pmtu = 0;
  flags = 0;
}

unfoldable pub has_flag : TcpStats → ℕ → Bool
has_flag s flag = not (bit_and s.flags flag == 0)

-- `if let Some(v) = field { flags |= flag; v } else { 0 }`
abbrev pub take_field : Option ℕ → ℕ → ℕ → ℕ × ℕ
take_field none flag flags = (0, flags)
take_field (some v) flag flags = (v, bit_or flags flag)

-- `TcpStats::from(TcpStatsDto)`
unfoldable pub from_dto : TcpStatsDto → TcpStats
from_dto dto =
    let (snd_cwnd, f1) = take_field dto.snd_cwnd tcp_snd_cwnd_present 0 in
    let (rtt, f2) = take_field dto.rtt tcp_rtt_present f1 in
    let (rttvar, f3) = take_field dto.rttvar tcp_rttvar_present f2 in
    let (pmtu, f4) = take_field dto.pmtu tcp_pmtu_present f3 in
    record {
      retransmits = dto.retransmits;
      snd_cwnd = snd_cwnd;
      rtt = rtt;
      rttvar = rttvar;
      pmtu = pmtu;
      flags = f4;
    }

unfoldable pub snd_cwnd_opt : TcpStats → Option ℕ
snd_cwnd_opt s = if has_flag s tcp_snd_cwnd_present then some s.snd_cwnd else none

unfoldable pub rtt_opt : TcpStats → Option ℕ
rtt_opt s = if has_flag s tcp_rtt_present then some s.rtt else none

unfoldable pub rttvar_opt : TcpStats → Option ℕ
rttvar_opt s = if has_flag s tcp_rttvar_present then some s.rttvar else none

unfoldable pub pmtu_opt : TcpStats → Option ℕ
pmtu_opt s = if has_flag s tcp_pmtu_present then some s.pmtu else none

-- `TcpStats::serialize`: the five fields in order, an absent one as null
unfoldable pub serialize : TcpStats → TcpStatsDto
serialize s = record {
  retransmits = s.retransmits;
  snd_cwnd = if not (bit_and s.flags tcp_snd_cwnd_present == 0) then some s.snd_cwnd else none;
  rtt = if not (bit_and s.flags tcp_rtt_present == 0) then some s.rtt else none;
  rttvar = if not (bit_and s.flags tcp_rttvar_present == 0) then some s.rttvar else none;
  pmtu = if not (bit_and s.flags tcp_pmtu_present == 0) then some s.pmtu else none;
}

-- What is read and written again is the same, whichever fields are present.
pub serialize-from_dto : (dto : TcpStatsDto) → serialize (from_dto dto) ≡ dto
unfolding serialize from_dto
serialize-from_dto dto = go dto.retransmits dto.snd_cwnd dto.rtt dto.rttvar dto.pmtu
  where
    go :
        (r : ℕ) (a b c d : Option ℕ)
        → let dto : TcpStatsDto = record {
          retransmits = r;
          snd_cwnd = a;
          rtt = b;
          rttvar = c;
          pmtu = d;
        } in
          serialize (from_dto dto) ≡ dto
    go r none none none none = refl
    go r none none none (some d) = refl
    go r none none (some c) none = refl
    go r none none (some c) (some d) = refl
    go r none (some b) none none = refl
    go r none (some b) none (some d) = refl
    go r none (some b) (some c) none = refl
    go r none (some b) (some c) (some d) = refl
    go r (some a) none none none = refl
    go r (some a) none none (some d) = refl
    go r (some a) none (some c) none = refl
    go r (some a) none (some c) (some d) = refl
    go r (some a) (some b) none none = refl
    go r (some a) (some b) none (some d) = refl
    go r (some a) (some b) (some c) none = refl
    go r (some a) (some b) (some c) (some d) = refl

-- The accessors show the fields that were read.
pub opt-from_dto :
    (dto : TcpStatsDto)
    → (snd_cwnd_opt (from_dto dto) ≡ dto.snd_cwnd)
      × (rtt_opt (from_dto dto) ≡ dto.rtt)
      × (rttvar_opt (from_dto dto) ≡ dto.rttvar)
      × (pmtu_opt (from_dto dto) ≡ dto.pmtu)
unfolding from_dto snd_cwnd_opt rtt_opt rttvar_opt pmtu_opt has_flag serialize
opt-from_dto dto =
    let e = serialize-from_dto dto in
    (ap (λ d. d.snd_cwnd) e, ap (λ d. d.rtt) e, ap (λ d. d.rttvar) e, ap (λ d. d.pmtu) e)

-- `option_u64_max`: a counter that is absent at its greatest value
unfoldable pub max_serialize : ℕ → Option ℕ
max_serialize v = if v == u64_max then none else some v

unfoldable pub max_deserialize : Option ℕ → ℕ
max_deserialize none = u64_max
max_deserialize (some v) = v

-- Every value survives, the absent one included.
pub max_deserialize-max_serialize : (v : ℕ) → max_deserialize (max_serialize v) ≡ v
unfolding max_deserialize max_serialize
max_deserialize-max_serialize v = ground arith

-- `TcpInfo`, the prefix of Linux's tcp_info that is read: the fields that the code uses
pub record TcpInfo : Type 0 where
  pub snd_mss : ℕ
  pub pmtu : ℕ
  pub rtt : ℕ
  pub rttvar : ℕ
  pub snd_cwnd : ℕ
  pub total_retrans : ℕ

-- `get_tcp_stats` on Linux: `none` is a call of getsockopt that fails
unfoldable pub get_tcp_stats : Option TcpInfo → TcpStats
get_tcp_stats none = tcp_stats_default
get_tcp_stats (some info) = record {
  retransmits = info.total_retrans;
  snd_cwnd = mul64 info.snd_cwnd info.snd_mss;
  rtt = info.rtt;
  rttvar = info.rttvar;
  pmtu = info.pmtu;
  flags =
      bit_or (bit_or (bit_or (bit_or 0 tcp_snd_cwnd_present) tcp_rtt_present) tcp_rttvar_present)
        tcp_pmtu_present;
}

-- Every field is a u32, so the window in bytes is exact.
pub record IsTcpInfo (info : TcpInfo) : Type 0 where
  pub mss_in : info.snd_mss < 2 ^ 32
  pub cwnd_in : info.snd_cwnd < 2 ^ 32

mul64_exact : (a b : ℕ) → a < 2 ^ 32 → b < 2 ^ 32 → mul64 a b ≡ a * b
mul64_exact a b h k = let l : a * b ≤ 2 ^ 32 * 2 ^ 32 - 1 = grind arith in omega (arith, l)

-- What the kernel reports is written with all four fields, the window in bytes; without a report
-- they are all absent.
serialize-get_tcp_stats :
    (info : TcpInfo)
    → IsTcpInfo info
    → (serialize (get_tcp_stats (some info)) ≡ record {
      retransmits = info.total_retrans;
      snd_cwnd = some (info.snd_cwnd * info.snd_mss);
      rtt = some info.rtt;
      rttvar = some info.rttvar;
      pmtu = some info.pmtu;
    })
      × (serialize (get_tcp_stats none)
          ≡ record { retransmits = 0; snd_cwnd = none; rtt = none; rttvar = none; pmtu = none })
unfolding serialize get_tcp_stats
serialize-get_tcp_stats info v =
    let e : mul64 info.snd_cwnd info.snd_mss ≡ info.snd_cwnd * info.snd_mss =
      mul64_exact info.snd_cwnd info.snd_mss v.cwnd_in v.mss_in in
    (rw e, refl)
