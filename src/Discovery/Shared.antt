-- ===== src/Discovery/Shared.antt =====
-- About two drives with an identity in common.
use mathlib.Core.List.{append_assoc}
use drive_sanitization_manag.Prelude.{
  ℕ, String, ◌≡◌, refl, sym, ap, ◌∙◌, Bool, true, ◌&&◌, Bool-cases, inl, inr, List, [], ◌∷◌, ◌++◌,
  any, any_imp, All, &&_left, &&_right, ltb, ◌+◌, arith,
}
use drive_sanitization_manag.Discovery.{BlockDevice}
use drive_sanitization_manag.Discovery.Annotate.{
  Kind, same_key, identities, occurrences, count, annotated,
}
use drive_sanitization_manag.Discovery.Keys.{
  count_any, length-select_append, same_key_refl, any_swap,
}
use drive_sanitization_manag.Discovery.Duplicates.{shown}

module _ (casefold : List ℕ → List ℕ) where
  occurrences-append :
      (xs ys : List BlockDevice)
      → occurrences casefold (xs ++ ys) ≡ occurrences casefold xs ++ occurrences casefold ys
  occurrences-append [] ys = refl
  occurrences-append (x ∷ xs) ys =
      ap (λ o. identities casefold x ++ o) (occurrences-append xs ys)
      ∙ sym
          (append_assoc (identities casefold x) (occurrences casefold xs) (occurrences casefold ys))

  -- The number of listings of a key, disk by disk.
  total : Kind × List ℕ → List BlockDevice → ℕ
  total i disks = count casefold i (occurrences casefold disks)

  total-append :
      (i : Kind × List ℕ) (xs ys : List BlockDevice) → total i (xs ++ ys) ≡ total i xs + total i ys
  unfolding total
  total-append i xs ys =
      ap (count casefold i) (occurrences-append xs ys)
      ∙ length-select_append (same_key i) (occurrences casefold xs) (occurrences casefold ys)

  total-cons :
      (i : Kind × List ℕ) (d : BlockDevice) (ds : List BlockDevice)
      → total i (d ∷ ds) ≡ count casefold i (identities casefold d) + total i ds
  unfolding total
  total-cons i d ds =
      length-select_append (same_key i) (identities casefold d) (occurrences casefold ds)

  -- The two disks have a usable identity in common.
  abbrev pub share_identity : BlockDevice → BlockDevice → Bool
  share_identity d e = any (λ i. any (same_key i) (identities casefold e)) (identities casefold d)

  crowded :
      (i : Kind × List ℕ) (xs ys zs : List BlockDevice) (d e : BlockDevice)
      → any (same_key i) (identities casefold d) ≡ true
      → any (same_key i) (identities casefold e) ≡ true
      → ltb 1 (count casefold i (occurrences casefold (xs ++ d ∷ (ys ++ e ∷ zs)))) ≡ true
  unfolding total
  crowded i xs ys zs d e h k =
      let one_d = sym (count_any (same_key i) (identities casefold d)) ∙ h in
      let one_e = sym (count_any (same_key i) (identities casefold e)) ∙ k in
      let t₁ = total-append i xs (d ∷ (ys ++ e ∷ zs)) in
      let t₂ = total-cons i d (ys ++ e ∷ zs) in
      let t₃ = total-append i ys (e ∷ zs) in let t₄ = total-cons i e zs in ground arith

  both_have :
      (is js : List (Kind × List ℕ))
      → any (λ i. any (same_key i) js) is ≡ true
      → any (λ i. any (same_key i) is && any (same_key i) js) is ≡ true
  both_have [] js h = cc
  both_have (i ∷ is) js h = elim (Bool-cases (any (same_key i) js)) [
    | inl e ↦ let itself = same_key_refl i in ground arith
    | inr e ↦
        let rest =
          any_imp (λ j. any (same_key j) is && any (same_key j) js)
            (λ j. any (same_key j) (i ∷ is) && any (same_key j) js) is (λ j k. ground arith)
            (both_have is js (ground arith)) in
        ground arith
  ]

  share_back : (d e : BlockDevice) → share_identity d e ≡ true → share_identity e d ≡ true
  share_back d e h =
      any_imp (λ j. true && any (same_key j) (identities casefold d))
        (λ j. any (same_key j) (identities casefold d)) (identities casefold e) (λ j k. k)
        (any_swap (λ i. true) (identities casefold d) (identities casefold e) h)

  -- Two disks at different places that have a usable identity in common are both protected, and both
  -- ambiguous.
  pub shared_protected :
      (sources : List String) (xs ys zs : List BlockDevice) (d e : BlockDevice)
      → share_identity d e ≡ true
      → All
          (λ x.
            ((annotated casefold sources (xs ++ d ∷ (ys ++ e ∷ zs)) x).ambiguous ≡ true)
            × ((annotated casefold sources (xs ++ d ∷ (ys ++ e ∷ zs)) x).protected ≡ true))
          (d ∷ e ∷ [])
  shared_protected sources xs ys zs d e h =
      let disks = xs ++ d ∷ (ys ++ e ∷ zs) in
      let shared_d =
        any_imp
          (λ i.
            any (same_key i) (identities casefold d) && any (same_key i) (identities casefold e))
          (λ i. ltb 1 (count casefold i (occurrences casefold disks))) (identities casefold d)
          (λ i k. crowded i xs ys zs d e (&&_left _ _ k) (&&_right _ _ k))
          (both_have (identities casefold d) (identities casefold e) h) in
      let shared_e =
        any_imp
          (λ i.
            any (same_key i) (identities casefold e) && any (same_key i) (identities casefold d))
          (λ i. ltb 1 (count casefold i (occurrences casefold disks))) (identities casefold e)
          (λ i k. crowded i xs ys zs d e (&&_right _ _ k) (&&_left _ _ k))
          (both_have (identities casefold e) (identities casefold d) (share_back d e h)) in
      (shown casefold sources disks d shared_d, (shown casefold sources disks e shared_e, tt))
