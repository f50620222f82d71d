-- ===== src/Binary/Pssh.antt =====
-- Class `Pssh` (shaka/js/shaka-player.compiled.debug.js): boxes with the data of a key system.
use shaka_player_embedded.Base.{
  ℕ, zero, suc, ◌+◌, ◌/◌, ◌%◌, ◌<◌, ◌≡◌, ltb, leb, Option, none, some, List, [], ◌∷◌, ◌++◌, length,
  any, if◌then◌else◌, Text, arith,
}
use shaka_player_embedded.Binary.Bytes.{Bytes, concat, equal, to_hex}
use shaka_player_embedded.Binary.Reader.{Reader, Result, ok, ◌>>=◌, read_bytes, read_uint32, big}
use shaka_player_embedded.Binary.Mp4.{Box}

pub record Pssh : Type 0 where
  pub system_ids : List Text
  pub cenc_key_ids : List Text
  pub boxes : List Bytes

abbrev pub no_pssh : Pssh
no_pssh = record { system_ids = []; cenc_key_ids = []; boxes = [] }

-- The loop over the key ids.
unfoldable pub read_key_ids : ℕ → Reader → Result (List Text)
read_key_ids zero r = ok []
read_key_ids (suc k) r = do (b, r1) ← read_bytes 16 r; ids ← read_key_ids k r1; ok (to_hex b ∷ ids)

abbrev pub key_ids : ℕ → Reader → Result (List Text)
key_ids zero r = ok []
key_ids (suc v) r = do (k, r1) ← read_uint32 r; read_key_ids k r1

abbrev pub version_number : Option ℕ → ℕ
version_number none = 0
version_number (some v) = v

-- `parsePsshBox_`; `raw` are the bytes of the whole box, which the code takes from the buffer behind
-- the reader. A version above 1 is passed over.
unfoldable pub parse_pssh_box : Bytes → Box → Pssh → Result Pssh
parse_pssh_box raw box p = if ltb 1 (version_number box.version) then ok p else (do
  (b, r1) ← read_bytes 16 box.reader
  ids ← key_ids (version_number box.version) r1
  ok (record {
    system_ids = p.system_ids ++ (to_hex b ∷ []);
    cenc_key_ids = p.cenc_key_ids ++ ids;
    boxes = p.boxes ++ (raw ∷ []);
  }))

-- `setUint32`, with the high byte first.
unfoldable pub uint32_bytes : ℕ → Bytes
uint32_bytes n = n / 16777216 % 256 ∷ n / 65536 % 256 ∷ n / 256 % 256 ∷ n % 256 ∷ []

-- `createPssh(data, systemId)`
unfoldable pub create_pssh : Bytes → Bytes → Bytes
create_pssh content system_id =
    uint32_bytes (12 + length system_id + 4 + length content)
    ++ uint32_bytes 1886614376
    ++ uint32_bytes 0
    ++ system_id
    ++ uint32_bytes (length content)
    ++ content

-- The loop that keeps the first of equal boxes.
unfoldable pub distinct : List Bytes → List Bytes → List Bytes
distinct kept [] = kept
distinct kept (b ∷ bs) =
    distinct (if any (λ a. equal (some a) (some b)) kept then kept else kept ++ (b ∷ [])) bs

-- `normaliseInitData`, with the boxes that `new Pssh(initData)` finds.
unfoldable pub normalise_init_data : Option Bytes → List Bytes → Option Bytes
normalise_init_data none boxes = none
normalise_init_data (some d) boxes =
    if leb (length boxes) 1 then some d else some (concat (distinct [] boxes))

-- The 32 bits are read back.
pub big-uint32_bytes : (n : ℕ) → n < 4294967296 → big 0 (uint32_bytes n) ≡ n
unfolding uint32_bytes
big-uint32_bytes n h = omega arith
