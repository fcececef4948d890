-- ===== src/Infrastructure/Naming/Distinct.antt =====
-- Names that differ (infrastructure/src/persistence/naming): the table of a document type, its
-- published mirror and its link tables.
use Prim.Native.Char.{Char, code}
use Prim.Native.String.{String, [], ◌∷◌}
use text.Mathlib.TextEquality.{Char-path}
use luminair_service_aws_dsq.Base.{
  false, ◌≡◌, ◌≢◌, refl, ap, arith, inl, inr, Bool-cases, ◌==◌, nat_eq, string_eq,
}
use luminair_service_aws_dsq.Base.Text.{substitute, replace, contains_char}
use luminair_service_aws_dsq.Infrastructure.Naming.Sanitize.{kebab_to_snake}

substitute-undo_dash : substitute "_" "-" (substitute "-" "_" "-") ≡ "-"
unfolding substitute nat_eq
substitute-undo_dash = refl

substitute-undo : (c : Char) → code c ≢ code "_" → substitute "_" "-" (substitute "-" "_" c) ≡ c
unfolding substitute
substitute-undo c h = elim (Bool-cases (code c == code "-")) [
  | inl same ↦ cc (substitute-undo_dash, Char-path c "-" (ground arith))
  | inr differ ↦ ground arith
]

-- A text without `_` is read back from its form with `_` for `-`.
kebab_to_snake-undo :
    (s : String) → contains_char "_" s ≡ false → replace "_" "-" (kebab_to_snake s) ≡ s
unfolding kebab_to_snake replace contains_char
kebab_to_snake-undo [] h = refl
kebab_to_snake-undo (c ∷ s) h =
    cc (substitute-undo c (ground arith), kebab_to_snake-undo s (ground arith))

-- Distinct texts without `_` stay distinct.
pub kebab_to_snake-eq :
    (s t : String)
    → contains_char "_" s ≡ false
    → contains_char "_" t ≡ false
    → (kebab_to_snake s == kebab_to_snake t) ≡ (s == t)
kebab_to_snake-eq s t hs ht = elim (Bool-cases (s == t)) [
  | inl same ↦ ground (arith, ap kebab_to_snake)
  | inr differ ↦
      ground (arith, kebab_to_snake-undo s hs, kebab_to_snake-undo t ht, ap (replace "_" "-"))
]
