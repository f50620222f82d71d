-- ===== src/Dash/AdaptationSets.antt =====
-- The adaptation sets of a period in class `DashParser` (shaka/js/shaka-player.compiled.debug.js).
use shaka_player_embedded.Base.{
  ℕ, suc, ◌+◌, ltb, Bool, true, false, not, ◌&&◌, ◌||◌, Option, none, some, List, [], ◌∷◌, ◌++◌,
  map, length, head?, is_empty, if◌then◌else◌, Text, text_of, same_text, split, or_text, or_empty,
  ℤ,
}
use shaka_player_embedded.Streams.Codecs.{first_part}
use shaka_player_embedded.Streams.Locale.{normalize}
use shaka_player_embedded.Dash.Template.{to_string}
use shaka_player_embedded.Dash.Xml.{find_children}
use shaka_player_embedded.Dash.Protection as Protection
use shaka_player_embedded.Dash.Protection.{Context}
use shaka_player_embedded.Dash.Segments.{Checked}
use shaka_player_embedded.Dash.Frames.{Frame, create_frame, guess_content_type}
use shaka_player_embedded.Dash.Representations.{DashStream, StreamInfo, parse_representations}
use shaka_player_embedded.Dash.Parsing.{
  Platform, Parsing, fine, failed, ◌>>=◌, present, protection_error, dash_empty_adaptation_set,
}

-- An adaptation set. `key_ids` has what the code adds to the key ids of each of `drm_infos`.
pub record AdaptationSet : Type 0 where
  pub id : Text
  pub content_type : Text
  pub language : Text
  pub main : Bool
  pub streams : List DashStream
  pub drm_infos : List Protection.DrmInfo
  pub key_ids : List Text
  pub trick_mode_for : Option Text
  pub representation_ids : List Text

abbrev pub is_text_named : Text → Option Text → Bool
is_text_named name none = false
is_text_named name (some t) = same_text t name

abbrev pub role_scheme : Text
role_scheme = text_of "urn:mpeg:dash:role:2011"

-- `Map.prototype.set`, in the order of first insertion.
unfoldable pub set_caption : Text → Text → List (Text × Text) → List (Text × Text)
set_caption k v [] = (k, v) ∷ []
set_caption k v ((j, w) ∷ m) = if same_text j k then (k, v) ∷ m else (j, w) ∷ set_caption k v m

abbrev pub last_of : List Text → Text
last_of [] = []
last_of (t ∷ []) = t
last_of (t ∷ u ∷ ts) = last_of (u ∷ ts)

abbrev pub second_of : List Text → Text
second_of (t ∷ u ∷ ts) = u
second_of _ = []

abbrev pub starts_with_cc : Text → Bool
starts_with_cc (c ∷ d ∷ s) = same_text (c ∷ d ∷ []) (text_of "CC")
starts_with_cc _ = false

-- A channel and its language, `CC1=eng` or `1=lang:eng;...`.
abbrev pub named_caption : List Text → Text × Text
named_caption parts =
    let name = first_part parts in
    (
      if starts_with_cc name then name else text_of "CC" ++ name,
      normalize (last_of (split b':' (first_part (split b',' (second_of parts))))),
    )

abbrev pub has_equals : Text → Bool
has_equals s = ltb 1 (length (split b'=' s))

-- The captions of the parts of a value; a language alone takes the next odd channel.
unfoldable pub add_captions : ℕ → List Text → List (Text × Text) → List (Text × Text)
add_captions channel [] m = m
add_captions channel (s ∷ ss) m =
    let c = named_caption (split b'=' s) in
    if has_equals s
    then add_captions channel ss (set_caption c.0 c.1 m)
    else add_captions (channel + 2) ss
        (set_caption (text_of "CC" ++ to_string 10 channel) (normalize s) m)

-- What the loops over the roles and the accessibility elements gather.
pub record Gathered : Type 0 where
  pub main : Bool
  pub kind : Option Text
  pub roles : List Text
  pub closed_captions : List (Text × Text)

module _ (p : Platform) where
  abbrev pub values_of : List p.dom.Element → List (Option Text)
  values_of es = map (λ e. p.dom.attribute e (text_of "value")) es

  abbrev pub with_role : Option Text → Gathered → Gathered
  with_role none g = g
  with_role (some v) g =
      if same_text v (text_of "main")
      then record g { main = true }
      else if same_text v (text_of "caption") || same_text v (text_of "subtitle")
      then record g { kind = some v }
      else g

  abbrev pub is_role : Option Text → Bool
  is_role none = true
  is_role (some s) = same_text s role_scheme

  unfoldable pub gather_roles : List p.dom.Element → Gathered → Gathered
  gather_roles [] g = g
  gather_roles (e ∷ es) g = gather_roles es (
      if is_role (p.dom.attribute e (text_of "schemeIdUri"))
      then with_role (p.dom.attribute e (text_of "value")) g
      else g)

  -- The trick mode, and whether an essential property is not known.
  unfoldable pub gather_essential : List p.dom.Element → Option Text × Bool → Option Text × Bool
  gather_essential [] q = q
  gather_essential (e ∷ es) (trick, unknown) = gather_essential es (
      if is_text_named (text_of "http://dashif.org/guidelines/trickmode")
        (p.dom.attribute e (text_of "schemeIdUri"))
      then (p.dom.attribute e (text_of "value"), unknown)
      else (trick, true))

  abbrev pub caption_value : Option Text → Gathered → Gathered
  caption_value none g = record g {
    closed_captions = set_caption (text_of "CC1") (text_of "und") g.closed_captions;
  }
  caption_value (some v) g = record g {
    closed_captions = add_captions 1 (split b';' v) g.closed_captions;
  }

  abbrev pub accessible_role : Option Text → Gathered → Gathered
  accessible_role none g = g
  accessible_role (some v) g = record g {
    roles = g.roles ++ v ∷ [];
    kind = if same_text v (text_of "captions") then some (text_of "caption") else g.kind;
  }

  abbrev pub with_access : Option Text → Option Text → Gathered → Gathered
  with_access scheme value g =
      if is_text_named (text_of "urn:scte:dash:cc:cea-608:2015") scheme
        || is_text_named (text_of "urn:scte:dash:cc:cea-708:2015") scheme
      then caption_value value g
      else if is_text_named role_scheme scheme
      then accessible_role value g
      else g

  unfoldable pub gather_access : List p.dom.Element → Gathered → Gathered
  gather_access [] g = g
  gather_access (e ∷ es) g = gather_access es (
      with_access (p.dom.attribute e (text_of "schemeIdUri")) (p.dom.attribute e (text_of "value"))
        g)

  -- The text of the first label element, if it has any, comes before the attribute.
  abbrev pub label_of : Option p.dom.Element → Option Text → Option Text
  label_of none own = own
  label_of (some e) own = let s = p.dom.text_content e in if is_empty s then own else some s

  abbrev pub final_type : Text → List DashStream → Text
  final_type t [] = t
  final_type t (s ∷ ss) =
      if not (is_empty t) && not (same_text t (text_of "application"))
      then t
      else guess_content_type p s.mime_type s.codecs

  abbrev pub with_type : Text → DashStream → DashStream
  with_type t s = record s { content_type = t }

  abbrev pub retyped : Text → List DashStream → List DashStream
  retyped t ss = map (with_type t) ss

  -- `if (a.keyId) ...`: an empty key id is none.
  abbrev pub keys_of : List DashStream → List Text
  keys_of [] = []
  keys_of (s ∷ ss) = let k = or_empty s.key_id in if is_empty k then keys_of ss else k ∷ keys_of ss

-- `ignore_empty` is `config.dash.ignoreEmptyAdaptationSet`; `set_protection` and `protection` are
-- `parseFromAdaptationSet` and `parseFromRepresentation` (Dash/Protection/Elements).
module _ (p : Platform)
    (create_stream : p.dom.Element → Frame p.dom.Element → ℕ → Checked StreamInfo)
    (set_protection : List p.dom.Element → Protection.Protected Context)
    (protection : List p.dom.Element → Context → Protection.Protected (Option Text × Context))
    (ignore_empty : Bool) (duration : Option ℤ) where
  abbrev pub protected_by : Protection.Protected Context → Parsing Context
  protected_by (Protection.fine c) = fine c
  protected_by (Protection.failed x) = failed (protection_error x)

  -- The set of the streams that were found, or none.
  abbrev pub set_of :
      Frame p.dom.Element
      → Gathered
      → Text
      → Option Text
      → List Text
      → List DashStream × Context × ℕ
      → Parsing (Option AdaptationSet × ℕ)
  set_of f g language trick ids ([], c, id) =
      if ignore_empty || same_text f.content_type (text_of "text")
      then fine (none, id)
      else failed dash_empty_adaptation_set
  set_of f g language trick ids (s ∷ ss, c, id) =
      let t = final_type p f.content_type (s ∷ ss) in
      fine (
        some (record {
          id = or_text (or_empty f.id) (text_of "__fake__" ++ to_string 10 id);
          content_type = t;
          language = language;
          main = g.main;
          streams = retyped p t (s ∷ ss);
          drm_infos = c.drm_infos;
          key_ids = keys_of p (s ∷ ss);
          trick_mode_for = trick;
          representation_ids = ids;
        }),
        if is_empty (or_empty f.id) then suc id else id,
      )

  abbrev pub children : p.dom.Element → Text → List p.dom.Element
  children e name = find_children p.dom e name

  abbrev pub gathered_in : p.dom.Element → Frame p.dom.Element → Gathered
  gathered_in e f = gather_access p (children e (text_of "Accessibility")) (
      gather_roles p (children e (text_of "Role")) (record {
        main = false;
        kind =
            if same_text f.content_type (text_of "text") then some (text_of "subtitle") else none;
        roles = present (values_of p (children e (text_of "Role")));
        closed_captions = [];
      }))

  abbrev pub with_frame :
      p.dom.Element → ℕ → Frame p.dom.Element → Parsing (Option AdaptationSet × ℕ)
  with_frame e id f =
      let essential = gather_essential p (children e (text_of "EssentialProperty")) (none, false) in
      let g = gathered_in e f in
      let language =
        normalize (or_text (or_empty (p.dom.attribute e (text_of "lang"))) (text_of "und")) in
      let es = children e (text_of "Representation") in
      if essential.1
      then fine (none, id)
      else protected_by (set_protection (children e (text_of "ContentProtection"))) >>= λ c.
          parse_representations p create_stream protection duration
            (record {
              kind = g.kind;
              language = language;
              label =
                  label_of p (head? (children e (text_of "Label")))
                    (p.dom.attribute e (text_of "label"));
              main = g.main;
              roles = g.roles;
              closed_captions = g.closed_captions;
            })
            f es c id
          >>= set_of f g language essential.0
              (present (map (λ r. p.dom.attribute r (text_of "id")) es))

  -- `parseAdaptationSet_`: null for a set of images, one with an essential property that is not
  -- known, and one without streams that may be so.
  unfoldable pub parse_adaptation_set :
      Frame p.dom.Element → p.dom.Element → ℕ → Parsing (Option AdaptationSet × ℕ)
  parse_adaptation_set period e id = create_frame p e (some period) none >>= λ f.
      if same_text f.content_type (text_of "image") then fine (none, id) else with_frame e id f

  abbrev pub onto_set : Option AdaptationSet → List AdaptationSet → List AdaptationSet
  onto_set none ss = ss
  onto_set (some s) ss = s ∷ ss

  unfoldable pub parse_adaptation_sets :
      Frame p.dom.Element → List p.dom.Element → ℕ → Parsing (List AdaptationSet × ℕ)
  parse_adaptation_sets period [] id = fine ([], id)
  parse_adaptation_sets period (e ∷ es) id = parse_adaptation_set period e id >>= λ r.
      parse_adaptation_sets period es r.1 >>= λ rest. fine (onto_set r.0 rest.0, rest.1)
