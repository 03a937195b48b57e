-- ===== src/MssClamp/Nftables.antt =====
-- `applyNFT`, `removeNFT`, `nftRulesPresent` and their helpers of internal/mssclamp/mssclamp.go over
-- what a command prints.
use gremlind.Prelude.{
  ℕ, Bool, true, false, ◌&&◌, ◌||◌, not, List, [], ◌∷◌, ◌++◌, Option, none, some, ◌==◌, nat_eq,
  list_eq, ltb, if◌then◌else◌,
}
use gremlind.Prelude.Bytes.{Bytes}
use gremlind.Prelude.Int.{ℤ}
use gremlind.Prelude.Maps.{is_some}
use gremlind.Prelude.Texts.{ascii, itoa}
use gremlind.Gre.Link.{has_prefix}
use gremlind.Config.Clamp.{MssClamp}
use gremlind.MssClamp.Rules.{
  DirectionSpec, ProtocolSpec, protocol_specs, mss_of, marker, marker_prefix,
}

-- `output`: the program, its arguments, and what it prints where it succeeds.
abbrev pub Shell : Type 0 → Type 0
Shell W = Bytes → List Bytes → W → Option Bytes × W

-- `run`
abbrev pub run_of : {W : Type 0} → Shell W → Bytes → List Bytes → W → Bool × W
run_of output program args w = let (printed, now) = output program args w in (is_some printed, now)

-- `strings.Contains`
unfoldable pub contains_text : Bytes → Bytes → Bool
unfolding has_prefix
contains_text part [] = has_prefix part []
contains_text part (c ∷ s) = has_prefix part (c ∷ s) || contains_text part s

-- `strings.Split` at each `sep`: the piece so far is `piece`, its last byte first.
unfoldable pub reversed_onto : Bytes → Bytes → Bytes
reversed_onto [] out = out
reversed_onto (c ∷ s) out = reversed_onto s (c ∷ out)

unfoldable pub split_from : ℕ → Bytes → Bytes → List Bytes
unfolding reversed_onto
split_from sep piece [] = reversed_onto piece [] ∷ []
split_from sep piece (c ∷ s) =
    let ended = split_from sep [] s in
    let longer = split_from sep (c ∷ piece) s in
    if c == sep then reversed_onto piece [] ∷ ended else longer

unfoldable pub lines_of : Bytes → List Bytes
unfolding split_from
lines_of = split_from 10 []

-- `strings.Fields` of an ASCII line: the pieces between white space.
unfoldable pub is_space : ℕ → Bool
is_space c = c == 32 || (c == 9 || (c == 10 || (c == 11 || (c == 12 || c == 13))))

unfoldable pub fields_from : Bytes → Bytes → List Bytes
unfolding is_space reversed_onto
fields_from [] [] = []
fields_from (p ∷ piece) [] = reversed_onto (p ∷ piece) [] ∷ []
fields_from [] (c ∷ s) = fields_from (if is_space c then [] else c ∷ []) s
fields_from (p ∷ piece) (c ∷ s) =
    let ended = fields_from [] s in
    let longer = fields_from (c ∷ p ∷ piece) s in
    if is_space c then reversed_onto (p ∷ piece) [] ∷ ended else longer

-- The loop of `nftHandle`.
unfoldable pub after_handle : List Bytes → Bytes
after_handle [] = []
after_handle (f ∷ []) = []
after_handle (f ∷ g ∷ rest) =
    let later = after_handle (g ∷ rest) in if f == ascii "handle" then g else later

-- `nftHandle`
unfoldable pub nft_handle : Bytes → Bytes
unfolding fields_from after_handle
nft_handle line = after_handle (fields_from [] line)

-- `comment "`
abbrev pub comment_quote : Bytes
comment_quote = ascii "comment " ++ 34 ∷ []

-- The handles that `removeNFT` deletes, of the lines with its comment.
unfoldable pub own_handles : Bytes → List Bytes → List Bytes
unfolding contains_text nft_handle
own_handles prefix [] = []
own_handles prefix (line ∷ rest) =
    let later = own_handles prefix rest in
    if not (contains_text (comment_quote ++ prefix) line)
    then later
    else if nft_handle line == []
    then later
    else nft_handle line ∷ later

module _ {W : Type 0} (output : Shell W) (cfg : MssClamp) where
  abbrev nft : List Bytes → W → Bool × W
  nft args w = run_of output (ascii "nft") args w

  abbrev chain_args : List Bytes
  chain_args = cfg.nft_family ∷ cfg.nft_table ∷ cfg.nft_chain ∷ []

  abbrev list_chain : W → Option Bytes × W
  list_chain w =
      output (ascii "nft") ((ascii "-a" ∷ ascii "list" ∷ ascii "chain" ∷ []) ++ chain_args) w

  -- `ensureNFTTable` and `ensureNFTChain`
  unfoldable pub ensure_nft_table : W → Bool × W
  ensure_nft_table w =
      let (there, w) = nft (ascii "list" ∷ ascii "table" ∷ cfg.nft_family ∷ cfg.nft_table ∷ []) w in
      if there
      then (true, w)
      else nft (ascii "add" ∷ ascii "table" ∷ cfg.nft_family ∷ cfg.nft_table ∷ []) w

  unfoldable pub ensure_nft_chain : W → Bool × W
  ensure_nft_chain w =
      let (there, w) = nft ((ascii "list" ∷ ascii "chain" ∷ []) ++ chain_args) w in
      if there
      then (true, w)
      else nft
          ((ascii "add" ∷ ascii "chain" ∷ [])
            ++ (chain_args
                ++ (ascii "{"
                    ∷ ascii "type"
                    ∷ ascii "filter"
                    ∷ ascii "hook"
                    ∷ ascii "forward"
                    ∷ ascii "priority"
                    ∷ ascii "mangle;"
                    ∷ ascii "policy"
                    ∷ ascii "accept;"
                    ∷ ascii "}"
                    ∷ [])))
          w

  -- The loop of `removeNFT`.
  unfoldable pub delete_handles : List Bytes → W → Bool × W
  delete_handles [] w = (true, w)
  delete_handles (handle ∷ handles) w =
      let (deleted, now) =
        nft ((ascii "delete" ∷ ascii "rule" ∷ []) ++ (chain_args ++ ascii "handle" ∷ handle ∷ []))
          w in
      let rest = delete_handles handles now in if deleted then rest else (false, now)

  module _ (iface : Bytes) where
    -- `removeNFT`
    unfoldable pub remove_nft : DirectionSpec → W → Bool × W
    unfolding own_handles lines_of delete_handles marker_prefix
    remove_nft spec w =
        let (printed, now) = list_chain w in
        elim printed [
          | none ↦ (true, now)
          | some text ↦
              delete_handles (own_handles (marker_prefix iface spec.name) (lines_of text)) now
        ]

    -- `nftRulesPresent` on the printed chain.
    unfoldable pub all_commented : DirectionSpec → List ProtocolSpec → Bytes → Bool
    unfolding contains_text marker
    all_commented spec [] text = true
    all_commented spec (proto ∷ protos) text =
        contains_text (comment_quote ++ (marker iface spec.name proto.name ++ 34 ∷ [])) text
        && all_commented spec protos text

    unfoldable pub nft_rules_present : DirectionSpec → W → Bool × W
    unfolding all_commented
    nft_rules_present spec w =
        let (printed, now) = list_chain w in
        elim printed [
          | none ↦ (false, now)
          | some text ↦ (all_commented spec protocol_specs text, now)
        ]

    -- The rule that `applyNFT` adds. `nftString` quotes the comment.
    unfoldable pub nft_rule : DirectionSpec → ProtocolSpec → ℤ → List Bytes
    unfolding mss_of itoa marker
    nft_rule spec proto tunnel_mtu =
        let mss = mss_of proto cfg tunnel_mtu in
        (ascii "add" ∷ ascii "rule" ∷ [])
        ++ (chain_args
            ++ (spec.nft
                ∷ iface
                ∷ (proto.nft_match
                    ++ ((ascii "tcp"
                          ∷ ascii "flags"
                          ∷ ascii "syn"
                          ∷ ascii "tcp"
                          ∷ ascii "option"
                          ∷ ascii "maxseg"
                          ∷ ascii "size"
                          ∷ ascii "set"
                          ∷ [])
                        ++ ((if ltb 0 mss then itoa mss ∷ [] else proto.nft_pmtu)
                            ++ ascii "comment"
                              ∷ (34 ∷ marker iface spec.name proto.name ++ 34 ∷ [])
                              ∷ [])))))

    unfoldable pub add_nft_rules : DirectionSpec → ℤ → List ProtocolSpec → W → Bool × W
    unfolding nft_rule
    add_nft_rules spec tunnel_mtu [] w = (true, w)
    add_nft_rules spec tunnel_mtu (proto ∷ protos) w =
        let (added, now) = nft (nft_rule spec proto tunnel_mtu) w in
        let rest = add_nft_rules spec tunnel_mtu protos now in if added then rest else (false, now)

    -- `applyNFT`
    unfoldable pub apply_nft : DirectionSpec → ℤ → W → Bool × W
    unfolding ensure_nft_table ensure_nft_chain add_nft_rules
    apply_nft spec tunnel_mtu w =
        if not cfg.nft_manage_table
        then add_nft_rules spec tunnel_mtu protocol_specs w
        else (let (table, w) = ensure_nft_table w in
            if not table
            then (false, w)
            else (let (chain, w) = ensure_nft_chain w in
                if not chain then (false, w) else add_nft_rules spec tunnel_mtu protocol_specs w))
