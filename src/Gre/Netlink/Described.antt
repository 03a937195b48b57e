-- ===== src/Gre/Netlink/Described.antt =====
-- How the kernel describes a link, and what the attributes say to `dumpLinks` of
-- internal/gre/netlink_linux.go.
use mathlib.Core.List.{append-nil}
use gremlind.Prelude.{
  ℕ, ◌<◌, ◌^◌, ◌≡◌, ◌≢◌, refl, sym, ap, ◌∙◌, false, List, [], ◌∷◌, ◌++◌, length, ne→nat_eqb, ◌==◌,
  nat_eq, list_eq, list_eqb_iff, All, All-append, arith,
}
use gremlind.Prelude.Bytes.{Bytes}
use gremlind.Gre.Link.{LinkInfo}
use gremlind.Gre.Netlink.Words.{little, native_bytes}
use gremlind.Gre.Netlink.Parse.{NlAttr, trim_nul, name_attr}
use gremlind.Gre.Netlink.Reading.{encode_all, Fits, parse_attrs-encode_all}
use gremlind.Gre.Netlink.Ifla
use gremlind.Gre.Netlink.Links.{kind_in, link_attr, link_attrs_of}
use gremlind.Gre.Netlink.Tunnel.{an}

-- A name without a NUL ends at the NUL that is put behind it.
abbrev pub IsText : Bytes → Type 0
IsText = All (λ c. c ≢ 0)

pub trim_nul-name_attr : (name : Bytes) → IsText name → trim_nul (name_attr name) ≡ name
unfolding trim_nul name_attr
trim_nul-name_attr [] h = refl
trim_nul-name_attr (c ∷ s) h =
    let set = ne→nat_eqb c 0 h.0 in rw set (ap (◌∷◌ c) (trim_nul-name_attr s h.1))

-- What the kernel says of a link in IFLA_LINKINFO: nothing, as of lo and of a physical device; no
-- kind of its own, as of a bridge's port; or its kind. Attributes that `dumpLinks` does not look at
-- stand before and behind the kind.
pub data Details : Type 0 where
  bare : Details
  kindless : List NlAttr → Details
  of_kind : List NlAttr → Bytes → List NlAttr → Details

-- A link as the kernel describes it: the first word and the last two of the header, and attributes
-- that `dumpLinks` does not look at between and behind those that it does.
pub record Described : Type 0 where
  pub index : ℕ
  pub name : Bytes
  pub details : Details
  pub family : Bytes
  pub states : Bytes
  pub between : List NlAttr
  pub behind : List NlAttr

abbrev pub Skipped : NlAttr → Type 0
Skipped a = Fits a × (a.typ ≢ Ifla.ifname) × (a.typ ≢ Ifla.linkinfo)

abbrev pub SkippedInside : NlAttr → Type 0
SkippedInside a = Fits a × (a.typ ≢ Ifla.info_kind)

abbrev pub kind_told : Details → Bytes
kind_told bare = []
kind_told (kindless inside) = []
kind_told (of_kind front kind inside) = kind

-- The attributes inside of IFLA_LINKINFO.
abbrev pub inner_items : Details → List NlAttr
inner_items bare = []
inner_items (kindless inside) = inside
inner_items (of_kind front kind inside) = front ++ an Ifla.info_kind (name_attr kind) ∷ inside

abbrev pub info_items : Details → List NlAttr
info_items bare = []
info_items (kindless inside) = an Ifla.linkinfo (encode_all inside) ∷ []
info_items (of_kind front kind inside) =
    an Ifla.linkinfo (encode_all (inner_items (of_kind front kind inside))) ∷ []

abbrev pub link_items : Described → List NlAttr
link_items d = an Ifla.ifname (name_attr d.name) ∷ (d.between ++ (info_items d.details ++ d.behind))

unfoldable pub describe : Described → Bytes
describe d = d.family ++ (native_bytes little 4 d.index ++ (d.states ++ encode_all (link_items d)))

abbrev pub WellDetailed : Details → Type 0
WellDetailed bare = Unit
WellDetailed (kindless inside) =
    All SkippedInside inside × Fits (an Ifla.linkinfo (encode_all inside))
WellDetailed (of_kind front kind inside) =
    All SkippedInside front
    × IsText kind
    × Fits (an Ifla.info_kind (name_attr kind))
    × All SkippedInside inside
    × Fits (an Ifla.linkinfo (encode_all (inner_items (of_kind front kind inside))))

pub record WellDescribed (d : Described) : Type 0 where
  pub named : d.name ≢ []
  pub name_text : IsText d.name
  pub index_fits : d.index < 2 ^ 32
  pub family_word : length d.family ≡ 4
  pub state_words : length d.states ≡ 8
  pub name_fits : Fits (an Ifla.ifname (name_attr d.name))
  pub detailed : WellDetailed d.details
  pub between_skipped : All Skipped d.between
  pub behind_skipped : All Skipped d.behind

pub Skipped-Fits : (items : List NlAttr) → All Skipped items → All Fits items
Skipped-Fits [] h = tt
Skipped-Fits (a ∷ items) h = (h.0.0, Skipped-Fits items h.1)

SkippedInside-Fits : (items : List NlAttr) → All SkippedInside items → All Fits items
SkippedInside-Fits [] h = tt
SkippedInside-Fits (a ∷ items) h = (h.0.0, SkippedInside-Fits items h.1)

pub kind_in-skipped :
    (items rest : List NlAttr) (kind : Bytes)
    → All SkippedInside items
    → kind_in (items ++ rest) kind ≡ kind_in rest kind
unfolding kind_in
kind_in-skipped [] rest kind h = refl
kind_in-skipped (a ∷ items) rest kind h =
    let other = ne→nat_eqb a.typ Ifla.info_kind h.0.1 in
    rw (other, kind_in) (kind_in-skipped items rest kind h.1)

kind_in-none :
    (items : List NlAttr) (kind : Bytes) → All SkippedInside items → kind_in items kind ≡ kind
unfolding kind_in
kind_in-none items kind h =
    ap (λ l. kind_in l kind) (sym (append-nil items)) ∙ kind_in-skipped items [] kind h

pub inner_items-kind :
    (details : Details)
    → WellDetailed details
    → kind_in (inner_items details) [] ≡ kind_told details
unfolding kind_in
inner_items-kind bare w = refl
inner_items-kind (kindless inside) w = kind_in-none inside [] w.0
inner_items-kind (of_kind front kind inside) w =
    let (before, text, fits, behind, whole) = w in
    kind_in-skipped front (an Ifla.info_kind (name_attr kind) ∷ inside) [] before
    ∙ kind_in-none inside (trim_nul (name_attr kind)) behind
    ∙ trim_nul-name_attr kind text

pub inner_items-Fits : (details : Details) → WellDetailed details → All Fits (inner_items details)
inner_items-Fits bare w = tt
inner_items-Fits (kindless inside) w = SkippedInside-Fits inside w.0
inner_items-Fits (of_kind front kind inside) w =
    let (before, text, fits, behind, whole) = w in
    All-append Fits front _ (SkippedInside-Fits front before)
      (fits, SkippedInside-Fits inside behind)

pub info_items-Fits : (details : Details) → WellDetailed details → All Fits (info_items details)
info_items-Fits bare w = tt
info_items-Fits (kindless inside) w = (w.1, tt)
info_items-Fits (of_kind front kind inside) w =
    let (before, text, fits, behind, whole) = w in (whole, tt)

-- The container is read, and gives the kind.
pub info_items-read :
    (details : Details) (rest : List NlAttr) (index : ℕ) (name : Bytes)
    → WellDetailed details
    → link_attrs_of little
        (info_items details ++ rest)
        (record { index = index; name = name; kind = [] })
      ≡ link_attrs_of little rest (record { index = index; name = name; kind = kind_told details })
unfolding link_attrs_of link_attr
info_items-read bare rest index name w = refl
info_items-read (kindless inside) rest index name w =
    rw (parse_attrs-encode_all inside (inner_items-Fits (kindless inside) w)) (
      ap (λ k. link_attrs_of little rest (record { index = index; name = name; kind = k }))
        (inner_items-kind (kindless inside) w))
info_items-read (of_kind front kind inside) rest index name w =
    let details = of_kind front kind inside in
    rw (parse_attrs-encode_all (inner_items details) (inner_items-Fits details w)) (
      ap (λ k. link_attrs_of little rest (record { index = index; name = name; kind = k }))
        (inner_items-kind details w))

pub link_attrs_of-Skipped :
    (items rest : List NlAttr) (li : LinkInfo)
    → All Skipped items
    → link_attrs_of little (items ++ rest) li ≡ link_attrs_of little rest li
unfolding link_attrs_of link_attr
link_attrs_of-Skipped [] rest li h = refl
link_attrs_of-Skipped (a ∷ items) rest li h =
    let (fits, unnamed, no_info) = h.0 in
    let no_name = ne→nat_eqb a.typ Ifla.ifname unnamed in
    let no_kind = ne→nat_eqb a.typ Ifla.linkinfo no_info in
    rw (no_name, no_kind) (link_attrs_of-Skipped items rest li h.1)

pub unnamed_not : (n : Bytes) → n ≢ [] → n == [] ≡ false
unnamed_not n h = ground (arith, list_eqb_iff n [])

-- What `dumpLinks` is to make of a description.
abbrev pub info_of : Described → LinkInfo
info_of d = record { index = d.index; name = d.name; kind = kind_told d.details }
