-- ===== src/Config/Clamp.antt =====
-- `MSSClamp` of internal/config/config.go: its defaults and its validation.
use gremlind.Prelude.{
  Bool, ◌&&◌, ◌||◌, not, [], Result, ok, err, ◌==◌, nat_eq, list_eq, if◌then◌else◌, ◌>>◌,
}
use gremlind.Prelude.Bytes.{Bytes}
use gremlind.Prelude.Int.{ℤ, pos, ltb_ℤ}
use gremlind.Prelude.Texts.{ascii}

pub record MssClamp : Type 0 where
  pub enabled : Bool
  pub backend : Bytes
  pub direction : Bytes
  pub mss_mode : Bytes
  pub mss : ℤ
  pub mss4 : ℤ
  pub mss6 : ℤ
  pub nft_family : Bytes
  pub nft_table : Bytes
  pub nft_chain : Bytes
  pub nft_manage_table : Bool
  pub iptables_chain : Bytes
  pub monitor : Bool

abbrev pub or_text : Bytes → Bytes → Bytes
or_text text default = if text == [] then default else text

-- `WithDefaults`
unfoldable pub with_defaults : MssClamp → MssClamp
with_defaults m = record m {
  backend = or_text m.backend (ascii "nftables");
  direction = or_text m.direction (ascii "out");
  mss_mode = or_text m.mss_mode (ascii "pmtu");
  nft_family = or_text m.nft_family (ascii "inet");
  nft_table = or_text m.nft_table (ascii "gremlind");
  nft_chain = or_text m.nft_chain (ascii "forward");
  iptables_chain = or_text m.iptables_chain (ascii "FORWARD");
}

pub data ClampError : Type 0 where
  bad_backend bad_direction bad_mode bad_mss no_nft_names no_chain : ClampError

abbrev pub reject_if : Bool → ClampError → Result ClampError (Unit {0})
reject_if test e = if test then err e else ok tt

abbrev pub out_of_range : ℤ → Bool
out_of_range value = ltb_ℤ value (pos 0) || ltb_ℤ (pos 65535) value

abbrev pub unknown_backend : MssClamp → Bool
unknown_backend m = not (m.backend == ascii "nftables" || m.backend == ascii "iptables")

abbrev pub unknown_direction : MssClamp → Bool
unknown_direction m =
    not (m.direction == ascii "out" || (m.direction == ascii "in" || m.direction == ascii "both"))

abbrev pub unknown_mode : MssClamp → Bool
unknown_mode m = not (m.mss_mode == ascii "pmtu" || m.mss_mode == ascii "tunnel_mtu")

abbrev pub bad_values : MssClamp → Bool
bad_values m = out_of_range m.mss || (out_of_range m.mss4 || out_of_range m.mss6)

abbrev pub unnamed_nft : MssClamp → Bool
unnamed_nft m =
    m.backend == ascii "nftables"
    && (m.nft_family == [] || (m.nft_table == [] || m.nft_chain == []))

abbrev pub unnamed_chain : MssClamp → Bool
unnamed_chain m = m.backend == ascii "iptables" && m.iptables_chain == []

-- `validateMSSClamp`. The three values are checked in one order, Go's is arbitrary.
unfoldable pub validate_mss_clamp : MssClamp → Result ClampError (Unit {0})
validate_mss_clamp m =
    reject_if (unknown_backend m) bad_backend
    >> reject_if (unknown_direction m) bad_direction
    >> reject_if (unknown_mode m) bad_mode
    >> reject_if (bad_values m) bad_mss
    >> reject_if (unnamed_nft m) no_nft_names
    >> reject_if (unnamed_chain m) no_chain
