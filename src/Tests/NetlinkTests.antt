-- ===== src/Tests/NetlinkTests.antt =====
-- internal/gre/netlink_linux.go on concrete messages.
use gremlind.Prelude.{
  ◌≤◌, ◌≡◌, refl, true, List, [], ◌∷◌, ◌++◌, none, some, ok, map, length, take, drop, nat_eq,
  list_eq, arith,
}
use gremlind.Prelude.Bytes.{Bytes, be_value}
use gremlind.Prelude.Texts.{ascii}
use gremlind.Gre.Link.{kind_of}
use gremlind.Gre.Netlink.Words.{little, big, native_bytes, native_value, le_value}
use gremlind.Gre.Netlink.Message.{align4, zeros, attr, attr_header}
use gremlind.Gre.Netlink.Parse.{returns, panics, parse_attrs, parse_loop, name_attr}
use gremlind.Gre.Netlink.Reading.{encode, encode_all}
use gremlind.Gre.Netlink.Ifla
use gremlind.Gre.Netlink.Create.{word_32, create_gre}
use gremlind.Gre.Netlink.Tunnel.{an, tunnel_attrs}
use gremlind.Gre.Netlink.Created.{create_gre-read}
use gremlind.Gre.Netlink.Links.{dump_links}
use gremlind.Gre.Netlink.Described.{Described, bare, kindless, of_kind, WellDescribed, describe}
use gremlind.Gre.Netlink.Listing.{infos, dump_links-describe}
use gremlind.Gre.Netlink.Exec.{done, nl_exec}
use gremlind.Gre.Netlink.Replies.{Reply, Sendable, encode_reply, encode_replies}
use gremlind.Gre.Netlink.Dumps.{Item, gather, payloads, nl_exec-dump}
use gremlind.Tests.ProvisionTests.{tunnel_params}

create_gre-read_example :
    let msg = create_gre little 7 tunnel_params in
    (info : Bytes) × (content : Bytes) × (native_value little (take 4 msg) ≡ length msg)
    × (parse_attrs little (drop 32 msg)
        ≡ returns (
            an Ifla.ifname (name_attr tunnel_params.name)
            ∷ an Ifla.mtu (native_bytes little 4 (word_32 tunnel_params.mtu))
            ∷ an Ifla.linkinfo info
            ∷ []))
    × (parse_attrs little info
        ≡ returns (
            an Ifla.info_kind (name_attr (kind_of tunnel_params)) ∷ an Ifla.info_data content ∷ []))
    × (parse_attrs little content ≡ returns (tunnel_attrs little tunnel_params))
create_gre-read_example = create_gre-read 7 tunnel_params (omega arith)

-- On a host whose words have the high byte first, `attr` still writes the low byte first.
attr_on_big_host : parse_attrs big (encode (an 4 (1 ∷ 2 ∷ 3 ∷ 4 ∷ []))) ≡ returns []
unfolding parse_attrs parse_loop encode attr attr_header align4 zeros native_value be_value
attr_on_big_host = refl

-- An attribute at the end without its padding.
attr_without_padding : parse_attrs little (5 ∷ 0 ∷ 3 ∷ 0 ∷ 9 ∷ []) ≡ panics
unfolding parse_attrs parse_loop align4 native_value le_value
attr_without_padding = refl

-- A link with two attributes that nobody asks for.
abbrev described : Described
described = record {
  index = 300;
  name = ascii "grem2a";
  details = of_kind [] (ascii "gre") [];
  family = 0 ∷ 0 ∷ 10 ∷ 3 ∷ [];
  states = zeros 8;
  between = an 4 (196 ∷ 5 ∷ 0 ∷ 0 ∷ []) ∷ [];
  behind = an 20 (1 ∷ []) ∷ [];
}

-- The loopback device, and a bridge's port, which tells the kind of its bridge only.
abbrev loopback : Described
loopback = record {
  index = 1;
  name = ascii "lo";
  details = bare;
  family = 0 ∷ 0 ∷ 4 ∷ 3 ∷ [];
  states = zeros 8;
  between = [];
  behind = [];
}

abbrev port : Described
port = record {
  index = 2;
  name = ascii "eth0";
  details = kindless (an 4 (name_attr (ascii "bridge")) ∷ []);
  family = 0 ∷ 0 ∷ 1 ∷ 0 ∷ [];
  states = zeros 8;
  between = [];
  behind = [];
}

described_well : WellDescribed described
unfolding zeros encode_all encode attr attr_header align4 name_attr
described_well = record {
  named = λ e. cc;
  name_text = omega arith;
  index_fits = omega arith;
  family_word = refl;
  state_words = refl;
  name_fits = record { typ_fits = omega arith; length_fits = omega arith };
  detailed = (
    tt,
    omega arith,
    record { typ_fits = omega arith; length_fits = omega arith },
    tt,
    record { typ_fits = omega arith; length_fits = omega arith },
  );
  between_skipped = (
    (record { typ_fits = omega arith; length_fits = omega arith }, omega arith, omega arith),
    tt,
  );
  behind_skipped = (
    (record { typ_fits = omega arith; length_fits = omega arith }, omega arith, omega arith),
    tt,
  );
}

loopback_well : WellDescribed loopback
unfolding zeros encode_all encode attr attr_header align4 name_attr
loopback_well = record {
  named = λ e. cc;
  name_text = omega arith;
  index_fits = omega arith;
  family_word = refl;
  state_words = refl;
  name_fits = record { typ_fits = omega arith; length_fits = omega arith };
  detailed = tt;
  between_skipped = tt;
  behind_skipped = tt;
}

port_well : WellDescribed port
unfolding zeros encode_all encode attr attr_header align4 name_attr
port_well = record {
  named = λ e. cc;
  name_text = omega arith;
  index_fits = omega arith;
  family_word = refl;
  state_words = refl;
  name_fits = record { typ_fits = omega arith; length_fits = omega arith };
  detailed = (
    ((record { typ_fits = omega arith; length_fits = omega arith }, omega arith), tt),
    record { typ_fits = omega arith; length_fits = omega arith },
  );
  between_skipped = tt;
  behind_skipped = tt;
}

abbrev all_described : List Described
all_described = loopback ∷ port ∷ described ∷ []

dump_links-describe_example :
    dump_links little (map describe all_described) ≡ returns (infos all_described)
dump_links-describe_example =
    dump_links-describe all_described (loopback_well, (port_well, (described_well, tt)))

abbrev item : Bytes → Reply
item payload = record { typ = 16; flags = 2; seq = 1; pid = 99; payload = payload }

item-Item : (payload : Bytes) → length payload ≤ 100 → Item (item payload)
item-Item payload h = record {
  sendable = record { typ_fits = omega arith; length_fits = omega (arith, h) };
  not_error = omega arith;
  not_end = omega arith;
}

abbrev end_of_dump : Reply
end_of_dump = record { typ = 3; flags = 2; seq = 1; pid = 99; payload = 0 ∷ 0 ∷ 0 ∷ 0 ∷ [] }

end-Sendable : Sendable end_of_dump
end-Sendable = record { typ_fits = omega arith; length_fits = omega arith }

abbrev first_datagram : List Reply
first_datagram = item (1 ∷ 2 ∷ 3 ∷ []) ∷ item (4 ∷ []) ∷ []

nl_exec-dump_example :
    nl_exec big true (
      map (λ d. some (encode_replies big d)) (first_datagram ∷ [])
      ++ some
          (encode_replies big (item (5 ∷ 6 ∷ []) ∷ []) ++ (encode_reply big end_of_dump ++ 7 ∷ []))
        ∷ none
        ∷ [])
    ≡ done (ok (gather (first_datagram ∷ []) ++ payloads (item (5 ∷ 6 ∷ []) ∷ [])))
nl_exec-dump_example =
    nl_exec-dump big (first_datagram ∷ []) (item (5 ∷ 6 ∷ []) ∷ []) end_of_dump (7 ∷ []) (none ∷ [])
      ((item-Item (1 ∷ 2 ∷ 3 ∷ []) (omega arith), (item-Item (4 ∷ []) (omega arith), tt)), tt)
      (item-Item (5 ∷ 6 ∷ []) (omega arith), tt) end-Sendable refl
