-- ===== src/Binary/Ebml/Bounds.antt =====
-- The bound on a number of variable length.
use shaka_player_embedded.Base.{
  ℕ, ◌-◌, ◌/◌, ◌%◌, ◌^◌, ◌==◌, ◌<◌, ◌≤◌, ◌≡◌, false, not, ◌&&◌, [], ◌∷◌, length, All, arith,
}
use mathlib.Core.Path.{subst}
use shaka_player_embedded.Binary.Bytes.{Bytes}
use shaka_player_embedded.Binary.Reader.{ok, fail_if-ok, ok_inj, big, js_integer_overflow}
use shaka_player_embedded.Binary.Ebml.{get_vint_value, has_top_bits}

-- Eight bytes have less than 54 bits when the second one is small.
small_byte : (b : ℕ) → b < 256 → not (b / 32 % 8 == 0) ≡ false → b < 32
small_byte b h e = ground arith

value_bound :
    (a : ℕ) (bs : Bytes)
    → All (λ b. b < 256) bs
    → length bs ≤ 7
    → (length bs == 7 && has_top_bits bs) ≡ false
    → big (a % 2 ^ (7 - length bs)) bs < 2 ^ 53
value_bound a [] _ l e = omega arith
value_bound a (b ∷ []) (hb, _) l e = omega arith
value_bound a (b ∷ c ∷ []) (hb, (hc, _)) l e = omega arith
value_bound a (b ∷ c ∷ d ∷ []) (hb, (hc, (hd, _))) l e = omega arith
value_bound a (b ∷ c ∷ d ∷ f ∷ []) (hb, (hc, (hd, (hf, _)))) l e = omega arith
value_bound a (b ∷ c ∷ d ∷ f ∷ g ∷ []) (hb, (hc, (hd, (hf, (hg, _))))) l e = omega arith
value_bound a (b ∷ c ∷ d ∷ f ∷ g ∷ h ∷ []) (hb, (hc, (hd, (hf, (hg, (hh, _)))))) l e = omega arith
value_bound a (b ∷ c ∷ d ∷ f ∷ g ∷ h ∷ i ∷ []) (hb, (hc, (hd, (hf, (hg, (hh, (hi, _))))))) l e =
    let s = small_byte b hb e in omega arith
value_bound a (b ∷ c ∷ d ∷ f ∷ g ∷ h ∷ i ∷ j ∷ bs) h' l e = omega arith

-- A value that is returned is one that a double holds exactly.
pub get_vint_value-bound :
    (v : Bytes) {n : ℕ} → All (λ b. b < 256) v → length v ≤ 8 → get_vint_value v ≡ ok n → n < 2 ^ 53
unfolding get_vint_value
get_vint_value-bound [] {n} h l e = subst (λ m. m < 2 ^ 53) (ok_inj 0 n e) (omega arith)
get_vint_value-bound (a ∷ bs) {n} (k, h) l e =
    let (t, f) = fail_if-ok (length bs == 7 && has_top_bits bs) js_integer_overflow _ e in
    subst (λ m. m < 2 ^ 53) (ok_inj (big (a % 2 ^ (7 - length bs)) bs) n f)
      (value_bound a bs h (omega arith) t)
