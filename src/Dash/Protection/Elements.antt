-- ===== src/Dash/Protection/Elements.antt =====
-- The elements of namespace `ContentProtection` (shaka/js/shaka-player.compiled.debug.js), and what an
-- adaptation set and a representation are protected by.
use shaka_player_embedded.Base.{
  ◌==◌, ltb, Bool, true, false, not, Option, none, some, List, [], ◌∷◌, ◌++◌, map, length, select,
  head?, if◌then◌else◌, Text, text_of, same_text, is_empty, to_lower, or_empty,
}
use shaka_player_embedded.Binary.Bytes.{Bytes}
use shaka_player_embedded.Binary.Pssh.{create_pssh}
use shaka_player_embedded.Binary.Utf16.{units}
use shaka_player_embedded.Dash.Xml.{Dom, find_child_ns, find_children_ns, get_attribute_ns}
use shaka_player_embedded.Dash.Protection.{
  InitData, DrmInfo, Protected, fine, failed, ProRecord, Protection, Context, cenc_namespace_uri,
  create_drm_info, dash_conflicting_key_ids, default_infos, default_key_systems, distinct_ids,
  init_of, key_of, key_system_of, keyed, merge_context, mp4_protection, non_empty, or_key,
  parse_ms_pro, play_ready_system_id,
}

module _ (dom : Dom) (pssh_bytes : dom.Element → Option Bytes) (pro_bytes : Text → Bytes)
    (license_url : Text → Text) (callback : dom.Element → List DrmInfo) where
  abbrev pub element_of :
      dom.Element
      → Text
      → Protected (Option Text)
      → Protected (List InitData)
      → Protected (Option (Protection dom.Element))
  element_of e uri (failed x) is = failed x
  element_of e uri (fine k) (failed x) = failed x
  element_of e uri (fine k) (fine is) =
      fine (some (record { node = e; scheme_uri = to_lower uri; key_id = k; init = non_empty is }))

  -- `parseElement_`: an element without a scheme is passed over.
  unfoldable pub parse_element : dom.Element → Protected (Option (Protection dom.Element))
  parse_element e =
      let uri = or_empty (dom.attribute e (text_of "schemeIdUri")) in
      if is_empty uri
      then fine none
      else element_of e uri
          (key_of (get_attribute_ns dom e cenc_namespace_uri (text_of "default_KID")))
          (init_of (map pssh_bytes (find_children_ns dom e cenc_namespace_uri (text_of "pssh"))))

  -- `parseElements_`
  unfoldable pub parse_elements : List dom.Element → Protected (List (Protection dom.Element))
  parse_elements [] = fine []
  parse_elements (e ∷ es) = elim (parse_element e) [
    | failed x ↦ failed x
    | fine none ↦ parse_elements es
    | fine (some p) ↦ elim (parse_elements es) [ failed x ↦ failed x | fine ps ↦ fine (p ∷ ps) ]
  ]

  unfoldable pub get_widevine_license_url : Protection dom.Element → Text
  get_widevine_license_url p =
      elim (find_child_ns dom p.node (text_of "urn:microsoft") (text_of "laurl")) [
        | none ↦ []
        | some e ↦ or_empty (dom.attribute e (text_of "licenseUrl"))
      ]

  abbrev pub pro_element : Protection dom.Element → Option dom.Element
  pro_element p = find_child_ns dom p.node (text_of "urn:microsoft:playready") (text_of "pro")

  abbrev pub rights_management : Option (List ProRecord) → Option ProRecord
  rights_management none = none
  rights_management (some rs) = head? (select (λ r. r.record_type == 1) rs)

  -- `getPlayReadyLicenseUrl`; where the object ends too early the browser throws, and there is no
  -- licence here.
  unfoldable pub get_play_ready_license_url : Protection dom.Element → Text
  get_play_ready_license_url p = elim (pro_element p) [
    | none ↦ []
    | some e ↦ elim (rights_management (parse_ms_pro (pro_bytes (dom.text_content e)))) [
      | none ↦ []
      | some r ↦ license_url (units r.value true)
    ]
  ]

  unfoldable pub get_init_data_from_pro : Protection dom.Element → Option (List InitData)
  get_init_data_from_pro p = elim (pro_element p) [
    | none ↦ none
    | some e ↦ some (
        record {
          bytes = create_pssh (pro_bytes (dom.text_content e)) play_ready_system_id;
          key_id = p.key_id;
        }
        ∷ [])
  ]

  abbrev pub or_init : Option (List InitData) → Option (List InitData) → Option (List InitData)
  or_init none b = b
  or_init (some is) b = some is

  abbrev pub license_of : Text → Protection dom.Element → Text
  license_of system p =
      if same_text system (text_of "com.widevine.alpha")
      then get_widevine_license_url p
      else if same_text system (text_of "com.microsoft.playready")
      then get_play_ready_license_url p
      else []

  abbrev pub known_info : Option (List InitData) → Protection dom.Element → Text → DrmInfo
  known_info init p system =
      record (create_drm_info system (or_init p.init (or_init init (get_init_data_from_pro p)))) {
        license_server_uri = license_of system p;
      }

  -- `convertElements_`; an unknown scheme is left to the application's callback.
  unfoldable pub convert_elements :
      Option (List InitData) → List (Protection dom.Element) → List DrmInfo
  convert_elements init [] = []
  convert_elements init (p ∷ ps) = elim (key_system_of default_key_systems p.scheme_uri) [
    | some system ↦ known_info init p system ∷ convert_elements init ps
    | none ↦ callback p.node ++ convert_elements init ps
  ]

  abbrev pub is_mp4_protection : Protection dom.Element → Bool
  is_mp4_protection p = same_text p.scheme_uri mp4_protection

  -- The initialisation data of the last generic element that has any.
  abbrev pub generic_init :
      Option (List InitData) → List (Protection dom.Element) → Option (List InitData)
  generic_init init [] = init
  generic_init init (p ∷ ps) =
      generic_init (if is_mp4_protection p then or_init p.init init else init) ps

  abbrev pub infos_or : DrmInfo → List DrmInfo → List DrmInfo
  infos_or d [] = d ∷ []
  infos_or d (e ∷ es) = e ∷ es

  -- The infos of the elements, `specific` being those that are not generic.
  abbrev pub infos_of :
      Bool → List (Protection dom.Element) → List (Protection dom.Element) → List DrmInfo
  infos_of ignore [] specific = []
  infos_of true (p ∷ ps) specific = default_infos none
  infos_of false (p ∷ ps) [] = default_infos (generic_init none (p ∷ ps))
  infos_of false (p ∷ ps) (q ∷ qs) =
      let init = generic_init none (p ∷ ps) in
      infos_or (create_drm_info [] init) (convert_elements init (q ∷ qs))

  abbrev pub context_of : Bool → List (Protection dom.Element) → Protected Context
  context_of ignore ps =
      let ids = distinct_ids (map (λ p. p.key_id) ps) in
      if ltb 1 (length ids)
      then failed dash_conflicting_key_ids
      else fine (record {
        default_key_id = or_key (head? ids) none;
        drm_infos =
            keyed (head? ids) (infos_of ignore ps (select (λ p. not (is_mp4_protection p)) ps));
        is_first_representation = true;
      })

  -- `parseFromAdaptationSet(elems, callback, ignoreDrmInfo)`
  unfoldable pub parse_from_adaptation_set : Bool → List dom.Element → Protected Context
  parse_from_adaptation_set ignore es = elim (parse_elements es) [
    | failed x ↦ failed x
    | fine ps ↦ context_of ignore ps
  ]

  -- `parseFromRepresentation`
  unfoldable pub parse_from_representation :
      Bool → List dom.Element → Context → Protected (Option Text × Context)
  parse_from_representation ignore es c = elim (parse_from_adaptation_set ignore es) [
    | failed x ↦ failed x
    | fine own ↦ merge_context own c
  ]
