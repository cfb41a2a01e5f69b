-- ===== src/Strings/Trim.antt =====
-- Trimming leaves alone a text without space.
use routeup.Base.{
  Text, leb, All, ℕ, ◌≡◌, refl, ◌∙◌, false, [], ◌∷◌, reverse, reverse-reverse, All-reverse,
}
use routeup.Strings.{Unicode, is_space, trim_end, trim_space}

-- An ASCII byte that is no space.
abbrev pub IsSolid : ℕ → Type 0
IsSolid c = (leb 128 c ≡ false) × (is_space c ≡ false)

trim_end_of_IsSolid : (u : Unicode) (r : Text) → All IsSolid r → trim_end u r ≡ reverse r
unfolding trim_end
trim_end_of_IsSolid u [] h = refl
trim_end_of_IsSolid u (c ∷ r) h = rw (h.0.0, h.0.1) refl

pub trim_space_of_IsSolid : (u : Unicode) (s : Text) → All IsSolid s → trim_space u s ≡ s
unfolding trim_space
trim_space_of_IsSolid u [] h = refl
trim_space_of_IsSolid u (c ∷ s) h =
    rw (h.0.0, h.0.1)
      (trim_end_of_IsSolid u (reverse (c ∷ s)) (All-reverse IsSolid (c ∷ s) h)
        ∙ reverse-reverse (c ∷ s))
