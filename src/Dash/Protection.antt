-- ===== src/Dash/Protection.antt =====
-- Namespace `ContentProtection` (shaka/js/shaka-player.compiled.debug.js). The DOM, the decoding of base 64
-- and the parsing of the header of PlayReady are parameters. The result's `defaultInit`, which nothing
-- reads, is left out.
pub mod Elements
use shaka_player_embedded.Base.{
  ℕ, zero, suc, ◌+◌, ◌*◌, ◌==◌, ltb, Bool, true, false, not, ◌&&◌, ◌||◌, Option, none, some, List,
  [], ◌∷◌, ◌++◌, map, length, take, drop, select, any, head?, is_some, if◌then◌else◌, Text, text_of,
  same_text, is_empty, to_lower, or_empty,
}
use shaka_player_embedded.Binary.Bytes.{Bytes}
use shaka_player_embedded.Binary.Pssh.{create_pssh}
use shaka_player_embedded.Binary.Utf16.{units}
use shaka_player_embedded.Dash.Xml.{
  Dom, elements, find_child_ns, find_children_ns, get_attribute_ns,
}

pub record InitData : Type 0 where
  pub bytes : Bytes
  pub key_id : Option Text

pub record DrmInfo : Type 0 where
  pub key_system : Text
  pub license_server_uri : Text
  pub init_data : List InitData

pub data ProtectionError : Type 0 where
  dash_conflicting_key_ids dash_no_common_key_system : ProtectionError
  dash_multiple_key_ids_not_supported dash_pssh_bad_encoding : ProtectionError

pub data Protected {ℓ} (A : Type ℓ) : Type ℓ where
  fine : A → Protected A
  failed : ProtectionError → Protected A

abbrev pub default_key_systems : List (Text × Text)
default_key_systems =
    (text_of "urn:uuid:1077efec-c0b2-4d02-ace3-3c1e52e2fb4b", text_of "org.w3.clearkey")
    ∷ (text_of "urn:uuid:edef8ba9-79d6-4ace-a3c8-27dcd51d21ed", text_of "com.widevine.alpha")
    ∷ (text_of "urn:uuid:9a04f079-9840-4286-ab92-e65be0885f95", text_of "com.microsoft.playready")
    ∷ (text_of "urn:uuid:79f0049a-4098-8642-ab92-e65be0885f95", text_of "com.microsoft.playready")
    ∷ (text_of "urn:uuid:f239e769-efa3-4850-9c16-a903c6932efb", text_of "com.adobe.primetime")
    ∷ []

abbrev pub mp4_protection : Text
mp4_protection = text_of "urn:mpeg:dash:mp4protection:2011"

abbrev pub cenc_namespace_uri : Text
cenc_namespace_uri = text_of "urn:mpeg:cenc:2013"

unfoldable pub key_system_of : List (Text × Text) → Text → Option Text
key_system_of [] uri = none
key_system_of ((u, k) ∷ ks) uri =
    let rest = key_system_of ks uri in if same_text u uri then some k else rest

-- A record of a PlayReady object.
pub record ProRecord : Type 0 where
  pub record_type : ℕ
  pub value : Bytes

-- `parseMsProRecords_`, on the bytes that are left, and on fuel for them; null is a RangeError of the
-- browser.
unfoldable pub parse_ms_pro_records : ℕ → Bytes → Option (List ProRecord)
parse_ms_pro_records fuel [] = some []
parse_ms_pro_records fuel (a ∷ []) = some []
parse_ms_pro_records zero (a ∷ b ∷ bs) = none
parse_ms_pro_records (suc fuel) (a ∷ b ∷ []) = none
parse_ms_pro_records (suc fuel) (a ∷ b ∷ c ∷ []) = none
parse_ms_pro_records (suc fuel) (a ∷ b ∷ c ∷ d ∷ bs) =
    let n = c + 256 * d in
    let rest = parse_ms_pro_records fuel (drop n bs) in
    if ltb (length bs) n then none else elim rest [
      | none ↦ none
      | some rs ↦ some (record { record_type = a + 256 * b; value = take n bs } ∷ rs)
    ]

-- `parseMsPro_`: an object whose length is not what it says has no records.
unfoldable pub parse_ms_pro : Bytes → Option (List ProRecord)
parse_ms_pro (a ∷ b ∷ c ∷ d ∷ bs) =
    if a + 256 * (b + 256 * (c + 256 * d)) == length bs + 4
    then parse_ms_pro_records (length bs) (drop 2 bs)
    else some []
parse_ms_pro _ = none

abbrev pub create_drm_info : Text → Option (List InitData) → DrmInfo
create_drm_info key_system init = record {
  key_system = key_system;
  license_server_uri = [];
  init_data = elim init [ none ↦ [] | some is ↦ is ];
}

-- The distinct key ids.
unfoldable pub distinct_ids : List (Option Text) → List Text
distinct_ids [] = []
distinct_ids (none ∷ ids) = distinct_ids ids
distinct_ids (some k ∷ ids) =
    let rest = distinct_ids ids in k ∷ select (λ j. not (same_text j k)) rest

abbrev pub data_with_key : Text → InitData → InitData
data_with_key k i = record i { key_id = some k }

abbrev pub with_key_id : Text → DrmInfo → DrmInfo
with_key_id k d = record d { init_data = map (data_with_key k) d.init_data }

abbrev pub keyed : Option Text → List DrmInfo → List DrmInfo
keyed none ds = ds
keyed (some k) ds = if is_empty k then ds else map (with_key_id k) ds

-- Every default key system but clear key.
abbrev pub default_infos : Option (List InitData) → List DrmInfo
default_infos init =
    map (λ s. create_drm_info s.1 init)
      (select (λ s. not (same_text s.1 (text_of "org.w3.clearkey"))) default_key_systems)

-- A "ContentProtection" element that has been parsed.
pub record Protection (E : Type 0) : Type 0 where
  pub node : E
  pub scheme_uri : Text
  pub key_id : Option Text
  pub init : Option (List InitData)

-- What an adaptation set or a representation is protected by.
pub record Context : Type 0 where
  pub default_key_id : Option Text
  pub drm_infos : List DrmInfo
  pub is_first_representation : Bool

abbrev pub has_key_system : List DrmInfo → DrmInfo → Bool
has_key_system ds d = any (λ e. same_text e.key_system d.key_system) ds

abbrev pub is_generic : List DrmInfo → Bool
is_generic (d ∷ []) = is_empty d.key_system
is_generic _ = false

abbrev pub or_key : Option Text → Option Text → Option Text
or_key none k = k
or_key (some s) k = if is_empty s then k else some s

-- `parseFromRepresentation`, with what the representation's own elements give: the key id, and what
-- becomes of the context of the adaptation set.
unfoldable pub merge_context : Context → Context → Protected (Option Text × Context)
merge_context own c =
    let key = or_key own.default_key_id c.default_key_id in
    if c.is_first_representation
    then fine (
      key,
      record {
        default_key_id = c.default_key_id;
        drm_infos =
            if is_empty c.drm_infos || is_generic c.drm_infos && not (is_empty own.drm_infos)
            then own.drm_infos
            else c.drm_infos;
        is_first_representation = false;
      },
    )
    else if is_empty own.drm_infos
    then fine (key, c)
    else let common = select (has_key_system own.drm_infos) c.drm_infos in
      if is_empty common
      then failed dash_no_common_key_system
      else fine (key, record c { drm_infos = common })

abbrev pub play_ready_system_id : Bytes
play_ready_system_id =
    154 ∷ 4 ∷ 240 ∷ 121 ∷ 152 ∷ 64 ∷ 66 ∷ 134 ∷ 171 ∷ 146 ∷ 230 ∷ 91 ∷ 224 ∷ 136 ∷ 95 ∷ 149 ∷ []

abbrev pub without_dashes : Text → Text
without_dashes s = to_lower (select (λ c. not (c == b'-')) s)

abbrev pub key_of : Option Text → Protected (Option Text)
key_of none = fine none
key_of (some []) = fine (some [])
key_of (some (c ∷ s)) =
    let k = without_dashes (c ∷ s) in
    if any (λ d. d == 32) k then failed dash_multiple_key_ids_not_supported else fine (some k)

abbrev pub non_empty {ℓ} : {A : Type ℓ} → List A → Option (List A)
non_empty [] = none
non_empty (a ∷ as') = some (a ∷ as')

-- The contents of the "pssh" elements; `none` is one that cannot be decoded.
unfoldable pub init_of : List (Option Bytes) → Protected (List InitData)
init_of [] = fine []
init_of (none ∷ bs) = failed dash_pssh_bad_encoding
init_of (some b ∷ bs) = elim (init_of bs) [
  | failed e ↦ failed e
  | fine is ↦ fine (record { bytes = b; key_id = none } ∷ is)
]
