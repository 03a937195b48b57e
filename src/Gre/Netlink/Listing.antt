-- ===== src/Gre/Netlink/Listing.antt =====
-- The links that the kernel describes, as `dumpLinks` of internal/gre/netlink_linux.go lists them.
use mathlib.Core.List.{append-nil, append_assoc}
use gremlind.Prelude.{
  ◌≡◌, refl, sym, ap, ◌∙◌, false, List, [], ◌∷◌, ◌++◌, map, length, length-append, drop, ltb,
  not-lt→ltb, ◌==◌, nat_eq, list_eq, All, All-append, arith,
}
use gremlind.Prelude.Bytes.{Bytes}
use gremlind.Gre.Link.{LinkInfo}
use gremlind.Gre.Netlink.Words.{
  little, native_bytes, native_value, length-native_bytes, native_value-native_bytes,
}
use gremlind.Gre.Netlink.Parse.{NlAttr, returns}
use gremlind.Gre.Netlink.Reading.{encode_all, Fits, parse_attrs-encode_all}
use gremlind.Gre.Netlink.Links.{word, link_attr, link_attrs_of, link_of_payload, dump_links}
use gremlind.Gre.Netlink.Replies.{take_front, drop_front}
use gremlind.Gre.Netlink.Described.{
  trim_nul-name_attr, Described, info_items, link_items, describe, WellDescribed, Skipped-Fits,
  info_items-Fits, info_items-read, link_attrs_of-Skipped, unnamed_not, info_of,
}

module _ (d : Described) (w : WellDescribed d) where
  abbrev index_word : Bytes
  index_word = native_bytes little 4 d.index

  abbrev content : Bytes
  content = encode_all (link_items d)

  items-Fits : All Fits (link_items d)
  items-Fits = (
    w.name_fits,
    All-append Fits d.between _ (Skipped-Fits d.between w.between_skipped) (
        All-append Fits (info_items d.details) d.behind (info_items-Fits d.details w.detailed)
          (Skipped-Fits d.behind w.behind_skipped)),
  )

  index_length : length index_word ≡ 4
  index_length = length-native_bytes little 4 d.index

  content_read : drop 16 (describe d) ≡ content
  unfolding describe
  content_read =
      let front = d.family ++ (index_word ++ d.states) in
      let len : length front ≡ 16 = omega (
        arith,
        length-append d.family (index_word ++ d.states),
        length-append index_word d.states,
        index_length,
        w.family_word,
        w.state_words,
      ) in
      let split : describe d ≡ front ++ content =
        ap (λ t. d.family ++ t) (sym (append_assoc index_word d.states content))
        ∙ sym (append_assoc d.family (index_word ++ d.states) content) in
      ap (drop 16) split ∙ drop_front 16 front content len

  index_read : word little (drop 4 (describe d)) ≡ d.index
  unfolding describe word
  index_read =
      ap (word little) (drop_front 4 d.family (index_word ++ (d.states ++ content)) w.family_word)
      ∙ ap (native_value little) (take_front 4 index_word (d.states ++ content) index_length)
      ∙ native_value-native_bytes little 4 d.index (omega (arith, w.index_fits))

  describe_long : ltb (length (describe d)) 16 ≡ false
  unfolding describe
  describe_long = not-lt→ltb (length (describe d)) 16 (
      omega (
        arith,
        length-append d.family (index_word ++ (d.states ++ content)),
        length-append index_word (d.states ++ content),
        length-append d.states content,
        index_length,
        w.family_word,
        w.state_words,
      ))

  abbrev unnamed : LinkInfo
  unnamed = record { index = d.index; name = []; kind = [] }

  abbrev rest_items : List NlAttr
  rest_items = info_items d.details ++ d.behind

  abbrev titled : LinkInfo
  titled = record { index = d.index; name = d.name; kind = [] }

  name_read :
      link_attrs_of little (link_items d) unnamed
      ≡ link_attrs_of little (d.between ++ rest_items) titled
  unfolding link_attrs_of link_attr
  name_read =
      ap
        (λ n.
          link_attrs_of little (d.between ++ rest_items)
            (record { index = d.index; name = n; kind = [] }))
        (trim_nul-name_attr d.name w.name_text)

  attrs_end : (li : LinkInfo) → link_attrs_of little d.behind li ≡ returns li
  unfolding link_attrs_of
  attrs_end li =
      ap (λ items. link_attrs_of little items li) (sym (append-nil d.behind))
      ∙ link_attrs_of-Skipped d.behind [] li w.behind_skipped

  attrs_read : link_attrs_of little (link_items d) unnamed ≡ returns (info_of d)
  attrs_read =
      name_read
      ∙ link_attrs_of-Skipped d.between rest_items titled w.between_skipped
      ∙ info_items-read d.details d.behind d.index d.name w.detailed
      ∙ attrs_end (info_of d)

  payload_read : link_of_payload little (describe d) ≡ returns (info_of d)
  unfolding link_of_payload
  payload_read =
      rw (content_read, index_read, parse_attrs-encode_all (link_items d) items-Fits) attrs_read

abbrev pub infos : List Described → List LinkInfo
infos [] = []
infos (d ∷ ds) = info_of d ∷ infos ds

-- On a host whose words have the low byte first, `dumpLinks` lists exactly the links that the
-- kernel describes, in order, each with its index, its name and its kind, which is empty for a link
-- whose description has no kind or no IFLA_LINKINFO, whatever other attributes the kernel sends.
pub dump_links-describe :
    (ds : List Described)
    → All WellDescribed ds
    → dump_links little (map describe ds) ≡ returns (infos ds)
unfolding dump_links
dump_links-describe [] h = refl
dump_links-describe (d ∷ ds) h =
    let w = h.0 in
    let kept : d.name == [] ≡ false = unnamed_not d.name w.named in
    rw (describe_long d w, payload_read d w, dump_links-describe ds h.1, kept) refl
