-- ===== src/Binary/Sidx/Layout.antt =====
-- How the entries of a "sidx" box follow one another.
use shaka_player_embedded.Base.{ℕ, zero, suc, ◌+◌, ◌-◌, ◌≡◌, refl, List, [], ◌∷◌, ℤ, pos, ◌-ℤ◌}
use shaka_player_embedded.Binary.Reader.{
  Reader, ok, and_then-ok, fail_if-ok, ok_inj, mp4_sidx_type_not_supported,
}
use mathlib.Core.Path.{subst}
use shaka_player_embedded.Binary.Sidx.{Entry, read_item, entry, read_entries}

-- The entries are numbered from `p`, the first starts at `ticks` and at `byte`, and each other one
-- where the one before it ends. There are `k` of them.
abbrev pub Follow : ℕ → ℤ → ℕ → ℕ → List Entry → Type 0
Follow p ticks byte zero [] = Unit
Follow p ticks byte zero (e ∷ es) = ⊥
Follow p ticks byte (suc k) [] = ⊥
Follow p ticks byte (suc k) (e ∷ es) =
    (e.position ≡ p)
    × (e.start_ticks ≡ ticks)
    × (e.start_byte ≡ byte)
    × ((n : ℕ) × (e.end_byte ≡ byte + n - 1) × Follow (suc p) e.end_ticks (byte + n) k es)

-- The entries that are read follow one another.
read_entries-Follow :
    (k offset p ticks byte : ℕ) (r : Reader) {es : List Entry}
    → read_entries k offset p ticks byte r ≡ ok es
    → Follow p (pos ticks -ℤ pos offset) byte k es
unfolding read_entries
read_entries-Follow zero offset p ticks byte r {es} h =
    subst (Follow p (pos ticks -ℤ pos offset) byte zero) (ok_inj [] es h) tt
read_entries-Follow (suc k) offset p ticks byte r {es} h =
    let (x, e, m) = and_then-ok (read_item r) _ h in
    let (_, n) = fail_if-ok x.0.is_index mp4_sidx_type_not_supported _ m in
    let (fs, f, q) =
      and_then-ok (read_entries k offset (suc p) (ticks + x.0.duration) (byte + x.0.size) x.1) _
        n in
    let rest =
      read_entries-Follow k offset (suc p) (ticks + x.0.duration) (byte + x.0.size) x.1 f in
    subst (Follow p (pos ticks -ℤ pos offset) byte (suc k))
      (ok_inj (entry offset p ticks byte x.0 ∷ fs) es q) (refl, refl, refl, (x.0.size, refl, rest))
