-- ===== src/Streams/Locale.antt =====
-- Namespace `LanguageUtils` (shaka/js/shaka-player.compiled.debug.js): locales, and the one that fits a
-- preference best.
pub mod Closest
use Prim.Native.String.{String}
use shaka_player_embedded.Base.{
  ℕ, zero, suc, Bool, true, false, not, ◌&&◌, ◌==◌, Option, none, some, List, [], ◌∷◌, ◌++◌, map,
  length, if◌then◌else◌, Text, text_of, same_text, or_text, or_empty, to_lower, to_upper, split,
}

-- `isoMap_`: the codes of ISO 639-2 that have one of ISO 639-1.
abbrev pub iso_map : List (String × String)
iso_map =
    ("aar", "aa")
    ∷ ("abk", "ab")
    ∷ ("afr", "af")
    ∷ ("aka", "ak")
    ∷ ("alb", "sq")
    ∷ ("amh", "am")
    ∷ ("ara", "ar")
    ∷ ("arg", "an")
    ∷ ("arm", "hy")
    ∷ ("asm", "as")
    ∷ ("ava", "av")
    ∷ ("ave", "ae")
    ∷ ("aym", "ay")
    ∷ ("aze", "az")
    ∷ ("bak", "ba")
    ∷ ("bam", "bm")
    ∷ ("baq", "eu")
    ∷ ("bel", "be")
    ∷ ("ben", "bn")
    ∷ ("bih", "bh")
    ∷ ("bis", "bi")
    ∷ ("bod", "bo")
    ∷ ("bos", "bs")
    ∷ ("bre", "br")
    ∷ ("bul", "bg")
    ∷ ("bur", "my")
    ∷ ("cat", "ca")
    ∷ ("ces", "cs")
    ∷ ("cha", "ch")
    ∷ ("che", "ce")
    ∷ ("chi", "zh")
    ∷ ("chu", "cu")
    ∷ ("chv", "cv")
    ∷ ("cor", "kw")
    ∷ ("cos", "co")
    ∷ ("cre", "cr")
    ∷ ("cym", "cy")
    ∷ ("cze", "cs")
    ∷ ("dan", "da")
    ∷ ("deu", "de")
    ∷ ("div", "dv")
    ∷ ("dut", "nl")
    ∷ ("dzo", "dz")
    ∷ ("ell", "el")
    ∷ ("eng", "en")
    ∷ ("epo", "eo")
    ∷ ("est", "et")
    ∷ ("eus", "eu")
    ∷ ("ewe", "ee")
    ∷ ("fao", "fo")
    ∷ ("fas", "fa")
    ∷ ("fij", "fj")
    ∷ ("fin", "fi")
    ∷ ("fra", "fr")
    ∷ ("fre", "fr")
    ∷ ("fry", "fy")
    ∷ ("ful", "ff")
    ∷ ("geo", "ka")
    ∷ ("ger", "de")
    ∷ ("gla", "gd")
    ∷ ("gle", "ga")
    ∷ ("glg", "gl")
    ∷ ("glv", "gv")
    ∷ ("gre", "el")
    ∷ ("grn", "gn")
    ∷ ("guj", "gu")
    ∷ ("hat", "ht")
    ∷ ("hau", "ha")
    ∷ ("heb", "he")
    ∷ ("her", "hz")
    ∷ ("hin", "hi")
    ∷ ("hmo", "ho")
    ∷ ("hrv", "hr")
    ∷ ("hun", "hu")
    ∷ ("hye", "hy")
    ∷ ("ibo", "ig")
    ∷ ("ice", "is")
    ∷ ("ido", "io")
    ∷ ("iii", "ii")
    ∷ ("iku", "iu")
    ∷ ("ile", "ie")
    ∷ ("ina", "ia")
    ∷ ("ind", "id")
    ∷ ("ipk", "ik")
    ∷ ("isl", "is")
    ∷ ("ita", "it")
    ∷ ("jav", "jv")
    ∷ ("jpn", "ja")
    ∷ ("kal", "kl")
    ∷ ("kan", "kn")
    ∷ ("kas", "ks")
    ∷ ("kat", "ka")
    ∷ ("kau", "kr")
    ∷ ("kaz", "kk")
    ∷ ("khm", "km")
    ∷ ("kik", "ki")
    ∷ ("kin", "rw")
    ∷ ("kir", "ky")
    ∷ ("kom", "kv")
    ∷ ("kon", "kg")
    ∷ ("kor", "ko")
    ∷ ("kua", "kj")
    ∷ ("kur", "ku")
    ∷ ("lao", "lo")
    ∷ ("lat", "la")
    ∷ ("lav", "lv")
    ∷ ("lim", "li")
    ∷ ("lin", "ln")
    ∷ ("lit", "lt")
    ∷ ("ltz", "lb")
    ∷ ("lub", "lu")
    ∷ ("lug", "lg")
    ∷ ("mac", "mk")
    ∷ ("mah", "mh")
    ∷ ("mal", "ml")
    ∷ ("mao", "mi")
    ∷ ("mar", "mr")
    ∷ ("may", "ms")
    ∷ ("mkd", "mk")
    ∷ ("mlg", "mg")
    ∷ ("mlt", "mt")
    ∷ ("mon", "mn")
    ∷ ("mri", "mi")
    ∷ ("msa", "ms")
    ∷ ("mya", "my")
    ∷ ("nau", "na")
    ∷ ("nav", "nv")
    ∷ ("nbl", "nr")
    ∷ ("nde", "nd")
    ∷ ("ndo", "ng")
    ∷ ("nep", "ne")
    ∷ ("nld", "nl")
    ∷ ("nno", "nn")
    ∷ ("nob", "nb")
    ∷ ("nor", "no")
    ∷ ("nya", "ny")
    ∷ ("oci", "oc")
    ∷ ("oji", "oj")
    ∷ ("ori", "or")
    ∷ ("orm", "om")
    ∷ ("oss", "os")
    ∷ ("pan", "pa")
    ∷ ("per", "fa")
    ∷ ("pli", "pi")
    ∷ ("pol", "pl")
    ∷ ("por", "pt")
    ∷ ("pus", "ps")
    ∷ ("que", "qu")
    ∷ ("roh", "rm")
    ∷ ("ron", "ro")
    ∷ ("rum", "ro")
    ∷ ("run", "rn")
    ∷ ("rus", "ru")
    ∷ ("sag", "sg")
    ∷ ("san", "sa")
    ∷ ("sin", "si")
    ∷ ("slk", "sk")
    ∷ ("slo", "sk")
    ∷ ("slv", "sl")
    ∷ ("sme", "se")
    ∷ ("smo", "sm")
    ∷ ("sna", "sn")
    ∷ ("snd", "sd")
    ∷ ("som", "so")
    ∷ ("sot", "st")
    ∷ ("spa", "es")
    ∷ ("sqi", "sq")
    ∷ ("srd", "sc")
    ∷ ("srp", "sr")
    ∷ ("ssw", "ss")
    ∷ ("sun", "su")
    ∷ ("swa", "sw")
    ∷ ("swe", "sv")
    ∷ ("tah", "ty")
    ∷ ("tam", "ta")
    ∷ ("tat", "tt")
    ∷ ("tel", "te")
    ∷ ("tgk", "tg")
    ∷ ("tgl", "tl")
    ∷ ("tha", "th")
    ∷ ("tib", "bo")
    ∷ ("tir", "ti")
    ∷ ("ton", "to")
    ∷ ("tsn", "tn")
    ∷ ("tso", "ts")
    ∷ ("tuk", "tk")
    ∷ ("tur", "tr")
    ∷ ("twi", "tw")
    ∷ ("uig", "ug")
    ∷ ("ukr", "uk")
    ∷ ("urd", "ur")
    ∷ ("uzb", "uz")
    ∷ ("ven", "ve")
    ∷ ("vie", "vi")
    ∷ ("vol", "vo")
    ∷ ("wel", "cy")
    ∷ ("wln", "wa")
    ∷ ("wol", "wo")
    ∷ ("xho", "xh")
    ∷ ("yid", "yi")
    ∷ ("yor", "yo")
    ∷ ("zha", "za")
    ∷ ("zho", "zh")
    ∷ ("zul", "zu")
    ∷ []

unfoldable pub lookup_iso : Text → List (String × String) → Option Text
lookup_iso a [] = none
lookup_iso a ((k, v) ∷ m) = if same_text (text_of k) a then some (text_of v) else lookup_iso a m

abbrev pub part_at : ℕ → List Text → Text
part_at n [] = []
part_at zero (t ∷ ts) = t
part_at (suc n) (t ∷ ts) = part_at n ts

abbrev pub with_region : Text → Text → Text
with_region a [] = a
with_region a (c ∷ cs) = a ++ b'-' ∷ c ∷ cs

-- `b.isoMap_.get(a) || a`, on the lower case of `a`.
unfoldable pub base_language : Text → Text
base_language a = or_text (or_empty (lookup_iso (to_lower a) iso_map)) (to_lower a)

unfoldable pub normalize : Text → Text
normalize a =
    let parts = split b'-' a in
    with_region (base_language (part_at 0 parts)) (to_upper (part_at 1 parts))

-- `getBase`: the part before the first hyphen.
unfoldable pub get_base : Text → Text
get_base a = base_language (part_at 0 (split b'-' a))

unfoldable pub are_siblings : Text → Text → Bool
are_siblings a b =
    not (same_text a (get_base a))
    && not (same_text b (get_base b))
    && same_text (get_base a) (get_base b)

unfoldable pub are_locale_compatible : Text → Text → Bool
are_locale_compatible a b = same_text (normalize a) (normalize b)

unfoldable pub disassemble_locale : Text → List Text
disassemble_locale a = split b'-' a

unfoldable pub are_language_compatible : Text → Text → Bool
are_language_compatible a b =
    same_text (part_at 0 (disassemble_locale (normalize a)))
      (part_at 0 (disassemble_locale (normalize b)))

abbrev pub parts_of : Text → List Text
parts_of a = disassemble_locale (normalize a)

unfoldable pub is_parent_of : Text → Text → Bool
is_parent_of a b =
    same_text (part_at 0 (parts_of a)) (part_at 0 (parts_of b))
    && length (parts_of a) == 1
    && length (parts_of b) == 2

unfoldable pub is_sibling_of : Text → Text → Bool
is_sibling_of a b =
    length (parts_of a) == 2
    && length (parts_of b) == 2
    && same_text (part_at 0 (parts_of a)) (part_at 0 (parts_of b))

-- `getLocaleForText`, for a language that may be missing or empty.
unfoldable pub get_locale_for_text : Option Text → Text
get_locale_for_text language = normalize (or_text (or_empty language) (text_of "und"))

abbrev pub first_language : Text → Text → Text → Text
first_language (c ∷ cs) audio video = normalize (c ∷ cs)
first_language [] (c ∷ cs) video = normalize (c ∷ cs)
first_language [] [] (c ∷ cs) = normalize (c ∷ cs)
first_language [] [] [] = text_of "und"

-- `getLocaleForVariant`, of the languages of a variant, its audio stream and its video stream.
unfoldable pub get_locale_for_variant : Option Text → Option Text → Option Text → Text
get_locale_for_variant a audio video = first_language (or_empty a) (or_empty audio) (or_empty video)

-- One loop of `findClosestLocale`: the first locale that passes a test.
unfoldable pub find_by : (Text → Bool) → List Text → Option Text
find_by f [] = none
find_by f (g ∷ gs) = if f g then some g else find_by f gs

abbrev pub otherwise : Option Text → Option Text → Option Text
otherwise none o = o
otherwise (some g) o = some g

-- The loops of `findClosestLocale`, on the normalized locales; `e` is a Set there, whose members keep
-- the order of the list.
unfoldable pub closest : Text → List Text → Option Text
closest d e = otherwise (find_by (λ g. same_text g d) e) (
    otherwise (find_by (λ g. is_parent_of g d) e)
      (otherwise (find_by (λ g. is_sibling_of g d) e) (find_by (λ g. is_parent_of d g) e)))

unfoldable pub find_closest_locale : Text → List Text → Option Text
find_closest_locale a b = closest (normalize a) (map normalize b)
