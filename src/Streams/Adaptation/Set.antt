-- ===== src/Streams/Adaptation/Set.antt =====
-- What the members of an adaptation set have in common.
use shaka_player_embedded.Base.{
  ℕ, ◌≡◌, refl, inl, inr, Bool, true, false, ◌==◌, Option, none, some, List, [], ◌∷◌, ◌++◌, length,
  All, if◌then◌else◌, Bool-cases, arith, Text, same_text, same_text_iff,
}
use shaka_player_embedded.Streams.Types.{Stream, Variant}
use shaka_player_embedded.Streams.Selection.{includes}
use shaka_player_embedded.Streams.Adaptation.{
  codec_bases, same_texts, can_transition_between, role_set, are_included, are_roles_equal,
  same_number, are_audios_compatible, are_videos_compatible, both, are_adaptable, AdaptationSet,
  can_include, add, add_all, new, has_variant,
}

same_text_refl : (s : Text) → same_text s s ≡ true
same_text_refl s = (same_text_iff s s).1 refl

same_texts_refl : (ss : List Text) → same_texts ss ss ≡ true
unfolding same_texts
same_texts_refl [] = refl
same_texts_refl (s ∷ ss) = rw (same_text_refl s) (same_texts_refl ss)

are_included-cons :
    (r : Text) (rs d : List Text) → are_included rs d ≡ true → are_included rs (r ∷ d) ≡ true
unfolding are_included includes
are_included-cons r [] d h = refl
are_included-cons r (s ∷ rs) d h = let ih = are_included-cons r rs d in ground (arith, ih)

are_included_refl : (rs : List Text) → are_included rs rs ≡ true
unfolding are_included includes
are_included_refl [] = refl
are_included_refl (r ∷ rs) =
    rw (same_text_refl r) (are_included-cons r rs rs (are_included_refl rs))

are_roles_equal_refl : (rs : List Text) → are_roles_equal rs rs ≡ true
unfolding are_roles_equal
are_roles_equal_refl rs =
    let e : (length (role_set rs) == length (role_set rs)) ≡ true = ground arith in
    rw (e, are_included_refl (role_set rs))

can_transition_between_refl : (a : Stream) → can_transition_between a a ≡ true
unfolding can_transition_between
can_transition_between_refl a = rw (same_text_refl a.mime_type, same_texts_refl (codec_bases a))

same_number_refl : (o : Option ℕ) → same_number o o ≡ true
same_number_refl none = refl
same_number_refl (some n) = ground arith

are_audios_compatible_refl : (a : Stream) → are_audios_compatible a a ≡ true
unfolding are_audios_compatible
are_audios_compatible_refl a =
    rw (
      same_number_refl a.channels_count,
      can_transition_between_refl a,
      are_roles_equal_refl a.roles,
    )

are_videos_compatible_refl : (a : Stream) → are_videos_compatible a a ≡ true
unfolding are_videos_compatible
are_videos_compatible_refl a = rw (can_transition_between_refl a, are_roles_equal_refl a.roles)

both_refl :
    (f : Stream → Stream → Bool) (o : Option Stream)
    → ((a : Stream) → f a a ≡ true)
    → both f o o ≡ true
both_refl f none h = refl
both_refl f (some a) h = h a

are_adaptable_refl : (a : Variant) → are_adaptable a a ≡ true
unfolding are_adaptable
are_adaptable_refl a = rw (
  same_text_refl a.language,
  both_refl are_audios_compatible a.audio_stream are_audios_compatible_refl,
  both_refl are_videos_compatible a.video_stream are_videos_compatible_refl,
)

-- Every member is adaptable to the root.
abbrev pub AreAdaptable : AdaptationSet → Type 0
AreAdaptable s = All (λ v. are_adaptable s.root v ≡ true) s.variants

snoc-All {ℓ} :
    {A : Type ℓ} (P : A → Type 0) (xs : List A) (x : A) → All P xs → P x → All P (xs ++ x ∷ [])
snoc-All P [] x h p = (p, tt)
snoc-All P (y ∷ ys) x (q, h) p = (q, snoc-All P ys x h p)

insert-AreAdaptable :
    (b : Bool) (a root : Variant) (vs : List Variant)
    → are_adaptable root a ≡ true
    → AreAdaptable (record { root = root; variants = vs })
    → AreAdaptable (record { root = root; variants = if b then vs else vs ++ a ∷ [] })
insert-AreAdaptable true a root vs e h = h
insert-AreAdaptable false a root vs e h = snoc-All (λ v. are_adaptable root v ≡ true) vs a h e

add-AreAdaptable : (a : Variant) (s : AdaptationSet) → AreAdaptable s → AreAdaptable (add a s).0
unfolding add can_include
add-AreAdaptable a s h = elim (Bool-cases (are_adaptable s.root a)) [
  | inl e ↦ rw e (insert-AreAdaptable (has_variant a s.variants) a s.root s.variants e h)
  | inr e ↦ rw e h
]

add_all-AreAdaptable :
    (vs : List Variant) (s : AdaptationSet) → AreAdaptable s → AreAdaptable (add_all vs s)
unfolding add_all
add_all-AreAdaptable [] s h = h
add_all-AreAdaptable (a ∷ vs) s h = add_all-AreAdaptable vs (add a s).0 (add-AreAdaptable a s h)

-- Every member of an adaptation set is adaptable to its root, the root itself included.
new-AreAdaptable : (root : Variant) (vs : List Variant) → AreAdaptable (new root vs)
unfolding new
new-AreAdaptable root vs =
    add_all-AreAdaptable vs (record { root = root; variants = root ∷ [] })
      (are_adaptable_refl root, tt)
