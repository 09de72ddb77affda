-- ===== src/Documents/Tests.antt =====
-- The theorems on the rewriting of JSON documents at a concrete configuration.
use skipi_core.Base.{
  ◌≡◌, refl, true, false, Option, none, some, Text, codes, str_eq, pos, if◌then◌else◌,
}
use skipi_core.Awg.{Settings}
use skipi_core.Awg.Tests.{settings}
use skipi_core.Documents.{
  Json, null, boolean, number, string, array, object, end, item, Members, close, member, get, put,
  is_awg_outbound, is_awg_protocol, socks_outbound, tag_of, rewrite_all, outbounds_of,
  rewrite_document, rewrite_wireguard_outbound_to_socks, first_settings, settings_in,
  settings_of_document, parse_amnezia_wg_settings,
}
use skipi_core.Documents.Rewriting.{
  has_awg_outbound, IsDone, rewrite_document-IsDone, rewrite_wireguard_outbound_to_socks-again,
}
use skipi_core.Documents.Parsing.{settings_of_document-rewritten}

abbrev direct : Json
direct = object (member (codes "protocol") (string (codes "freedom")) close)

abbrev tunnel : Json
tunnel = object (
    member (codes "protocol") (string (codes "amneziawg")) (
      member (codes "tag") (string (codes "awg"))
        (member (codes "settings") (number (pos 1)) close)))

document_with : Json → Members
document_with ob = member (codes "log") null (
    member (codes "outbounds") (array (item direct (item ob end)))
      (member (codes "dns") (boolean true) close))

abbrev before : Members
before = document_with tunnel

abbrev after : Members
after = document_with (socks_outbound (pos 10808) (codes "awg"))

rewrite_test : rewrite_document (pos 10808) before ≡ some after
unfolding rewrite_document document_with outbounds_of get str_eq put rewrite_all is_awg_outbound
    is_awg_protocol tag_of
rewrite_test = refl

rewrite_document-IsDone_example : IsDone (pos 10808) before (rewrite_document (pos 10808) before)
rewrite_document-IsDone_example = rewrite_document-IsDone (pos 10808) before

-- Two texts are read, and one document is printed.
reads : Text → Option Members
reads t =
    if str_eq t (codes "before")
    then some before
    else if str_eq t (codes "after")
    then some after
    else none

reads-before : reads (codes "before") ≡ some before
unfolding reads str_eq
reads-before = refl

reads-after : reads (codes "after") ≡ some after
unfolding reads str_eq
reads-after = refl

rewrite_wireguard_outbound_to_socks-again_example :
    let rewrite = rewrite_wireguard_outbound_to_socks reads (λ m. some (codes "after")) in
    (rewrite (codes "before") (pos 10808) ≡ codes "after")
    × (rewrite (rewrite (codes "before") (pos 10808)) (pos 1080)
        ≡ rewrite (codes "before") (pos 10808))
rewrite_wireguard_outbound_to_socks-again_example =
    rewrite_wireguard_outbound_to_socks-again reads (λ m. some (codes "after")) (codes "before")
      (codes "after") (pos 10808) (pos 1080) before after reads-before rewrite_test refl reads-after

-- A number is decoded to the settings.
decodes : Json → Option Settings
decodes (number n) = some settings
decodes _ = none

found_test : settings_of_document decodes before ≡ some settings
unfolding settings_of_document document_with get str_eq settings_in outbounds_of first_settings
    decodes is_awg_outbound is_awg_protocol
found_test = refl

parse_test :
    (parse_amnezia_wg_settings reads decodes (codes "before") ≡ some settings)
    × (parse_amnezia_wg_settings reads decodes (codes "after") ≡ none)
unfolding parse_amnezia_wg_settings reads settings_of_document document_with get str_eq settings_in
    outbounds_of first_settings decodes is_awg_outbound is_awg_protocol socks_outbound
parse_test = (refl, refl)

no_key_test : get (codes "secretKey") before ≡ none
unfolding get document_with str_eq
no_key_test = refl

no_settings_test : get (codes "settings") before ≡ none
unfolding get document_with str_eq
no_settings_test = refl

settings_of_document-rewritten_example :
    (n : Members) × (rewrite_document (pos 10808) before ≡ some n)
    × (has_awg_outbound n ≡ false)
    × (settings_of_document decodes n ≡ none)
settings_of_document-rewritten_example =
    settings_of_document-rewritten decodes before settings (pos 10808) no_key_test no_settings_test
      found_test
