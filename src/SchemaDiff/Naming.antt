-- ===== src/SchemaDiff/Naming.antt =====
-- The pure parts of src/schema-diff/patch-naming.ts on which the migration engine rests.
use primebrick_v3_dal.Base.{
  true, false, [], ◌∷◌, Text, codes, reverse, ◌==◌, if◌then◌else◌, to_lower, take, drop, text_eq,
}

-- filename.replace(/\.sql$/i, "")
unfoldable pub patch_name_from_filename : Text → Text
patch_name_from_filename filename =
    let back = reverse filename in
    if text_eq (to_lower (take 4 back)) (codes "lqs.") then reverse (drop 4 back) else filename

-- body.replace(/\r\n?/g, "\n")
unfoldable pub normalize_patch_eol : Text → Text
normalize_patch_eol [] = []
normalize_patch_eol (c ∷ []) = (if c == 13 then 10 else c) ∷ []
normalize_patch_eol (c ∷ d ∷ s) = elim (c == 13) [
  | true ↦ elim (d == 10) [
    | true ↦ 10 ∷ normalize_patch_eol s
    | false ↦ 10 ∷ normalize_patch_eol (d ∷ s)
  ]
  | false ↦ c ∷ normalize_patch_eol (d ∷ s)
]
